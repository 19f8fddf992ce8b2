-- ===== src/Router/Order.antt =====
-- The string comparisons of string_utilities.cpp. Its case-insensitive ones call Boost, which is a
-- parameter here: `iless` and `istarts_with`, with what Boost's documentation says of them. The
-- comparisons of the standard library are defined.
use da4qi.Base.{
  inl, inr, Bool-cases, ◌⊎◌, ℕ, ◌-◌, ◌<◌, leb, drop, [], ◌∷◌, map, Bool, true, false, ◌&&◌,
  if◌then◌else◌, ltb, ◌==◌, Bytes, length, ◌≡◌, refl, arith, sym, ap, ap₂, ◌∙◌,
}

-- std::lexicographical_compare.
unfoldable pub lexicographical_compare : Bytes → Bytes → Bool
lexicographical_compare l [] = false
lexicographical_compare [] (y ∷ r) = true
lexicographical_compare (x ∷ l) (y ∷ r) =
    let rest = lexicographical_compare l r in
    if ltb x y then true else if ltb y x then false else rest

-- Whether the text begins with the second one.
unfoldable pub starts_with : Bytes → Bytes → Bool
starts_with m [] = true
starts_with [] (y ∷ s) = false
starts_with (x ∷ m) (y ∷ s) = (x == y) && starts_with m s

-- std::equal on two strings of one length.
abbrev pub equal : Bytes → Bytes → Bool
equal [] [] = true
equal [] (y ∷ r) = false
equal (x ∷ l) [] = false
equal (x ∷ l) (y ∷ r) = (x == y) && equal l r

-- Whether the text ends with the second one.
abbrev pub tail_is : Bytes → Bytes → Bool
tail_is m s = leb (length s) (length m) && equal (drop (length m - length s) m) s

-- boost::algorithm, for one locale: `upper` is the rank of the character to which `is_iless` and
-- `is_iequal` convert both sides.
pub record Algorithms : Type 0 where
  pub upper : ℕ → ℕ
  pub iless : Bytes → Bytes → Bool
  pub istarts_with : Bytes → Bytes → Bool
  pub ends_with : Bytes → Bytes → Bool
  pub iequals : Bytes → Bytes → Bool
  pub iless_law : (l r : Bytes) → iless l r ≡ lexicographical_compare (map upper l) (map upper r)
  pub istarts_with_law : (m s : Bytes) → istarts_with m s ≡ starts_with (map upper m) (map upper s)
  pub ends_with_law : (m s : Bytes) → ends_with m s ≡ tail_is m s
  pub iequals_law : (l r : Bytes) → iequals l r ≡ equal (map upper l) (map upper r)

-- What std::map asks of its comparison.
pub record IsStrictWeakOrder {ℓ} {K : Type ℓ} (less : K → K → Bool) : Type ℓ where
  pub irrefl : (a : K) → less a a ≡ false
  pub trans : (a b c : K) → less a b ≡ true → less b c ≡ true → less a c ≡ true
  pub same_left : (a b c : K) → less a b ≡ false → less b a ≡ false → less a c ≡ less b c
  pub same_right : (a b c : K) → less a b ≡ false → less b a ≡ false → less c a ≡ less c b

lexicographical_compare_irrefl : (a : Bytes) → lexicographical_compare a a ≡ false
unfolding lexicographical_compare
lexicographical_compare_irrefl [] = refl
lexicographical_compare_irrefl (x ∷ a) = ground (arith, lexicographical_compare_irrefl a)

lexicographical_compare_trans :
    (a b c : Bytes)
    → lexicographical_compare a b ≡ true
    → lexicographical_compare b c ≡ true
    → lexicographical_compare a c ≡ true
unfolding lexicographical_compare
lexicographical_compare_trans a b [] h k = ground arith
lexicographical_compare_trans a [] (z ∷ c) h k = ground arith
lexicographical_compare_trans [] (y ∷ b) (z ∷ c) h k = refl
lexicographical_compare_trans (x ∷ a) (y ∷ b) (z ∷ c) h k =
    ground (arith, lexicographical_compare_trans a b c)

lexicographical_compare_connected :
    (a b : Bytes)
    → lexicographical_compare a b ≡ false
    → lexicographical_compare b a ≡ false
    → a ≡ b
unfolding lexicographical_compare
lexicographical_compare_connected [] [] h k = refl
lexicographical_compare_connected [] (y ∷ b) h k = ground arith
lexicographical_compare_connected (x ∷ a) [] h k = ground arith
lexicographical_compare_connected (x ∷ a) (y ∷ b) h k =
    ap₂ ◌∷◌ (ground arith) (lexicographical_compare_connected a b (ground arith) (ground arith))

pub lexicographical_compare-IsStrictWeakOrder : IsStrictWeakOrder lexicographical_compare
lexicographical_compare-IsStrictWeakOrder = record {
  irrefl = lexicographical_compare_irrefl;
  trans = lexicographical_compare_trans;
  same_left = λ a b c h k.
      ap (λ x. lexicographical_compare x c) (lexicographical_compare_connected a b h k);
  same_right =
      λ a b c h k. ap (lexicographical_compare c) (lexicographical_compare_connected a b h k);
}

pub equal_refl : (a : Bytes) → equal a a ≡ true
equal_refl [] = refl
equal_refl (x ∷ a) = ground (arith, equal_refl a)

pub equal→eq : (a b : Bytes) → equal a b ≡ true → a ≡ b
equal→eq [] [] h = refl
equal→eq [] (y ∷ b) h = cc
equal→eq (x ∷ a) [] h = cc
equal→eq (x ∷ a) (y ∷ b) h = ap₂ ◌∷◌ (ground arith) (equal→eq a b (ground arith))

-- Different keys are in order.
pub not_equal→less :
    (a b : Bytes)
    → equal a b ≡ false
    → (lexicographical_compare a b ≡ true) ⊎ (lexicographical_compare b a ≡ true)
not_equal→less a b h = elim (Bool-cases (lexicographical_compare a b)) [
  | inl lt ↦ inl lt
  | inr ge ↦ elim (Bool-cases (lexicographical_compare b a)) [
    | inl gt ↦ inr gt
    | inr le ↦ cc (rw (lexicographical_compare_connected a b ge le, equal_refl b) at h)
  ]
]

-- Of two beginnings of one text, the shorter one comes first.
lexicographical_compare-starts_with :
    (u p q : Bytes)
    → starts_with u p ≡ true
    → starts_with u q ≡ true
    → length p < length q
    → lexicographical_compare p q ≡ true
unfolding lexicographical_compare starts_with
lexicographical_compare-starts_with u p [] h k lt = absurd (omega arith)
lexicographical_compare-starts_with u [] (y ∷ q) h k lt = refl
lexicographical_compare-starts_with [] (x ∷ p) (y ∷ q) h k lt = ground arith
lexicographical_compare-starts_with (z ∷ u) (x ∷ p) (y ∷ q) h k lt =
    ground (arith, lexicographical_compare-starts_with u p q)

-- A text does not come before its beginning.
lexicographical_compare-starts_with_self :
    (u p : Bytes) → starts_with u p ≡ true → lexicographical_compare u p ≡ false
unfolding lexicographical_compare starts_with
lexicographical_compare-starts_with_self [] [] h = refl
lexicographical_compare-starts_with_self (x ∷ u) [] h = refl
lexicographical_compare-starts_with_self [] (y ∷ p) h = ground arith
lexicographical_compare-starts_with_self (x ∷ u) (y ∷ p) h =
    ground (arith, lexicographical_compare-starts_with_self u p)

length-map : (f : ℕ → ℕ) (xs : Bytes) → length (map f xs) ≡ length xs
length-map f [] = refl
length-map f (x ∷ xs) = ground (arith, length-map f xs)

module _ (B : Algorithms) where
  -- IgnoreCaseCompareDESC.
  unfoldable pub iless_desc : Bytes → Bytes → Bool
  iless_desc l r = B.iless r l

  iless_same :
      (a b : Bytes) → B.iless a b ≡ false → B.iless b a ≡ false → map B.upper a ≡ map B.upper b
  iless_same a b h k =
      lexicographical_compare_connected (map B.upper a) (map B.upper b) (sym (B.iless_law a b) ∙ h)
        (sym (B.iless_law b a) ∙ k)

  pub iless-IsStrictWeakOrder : IsStrictWeakOrder B.iless
  iless-IsStrictWeakOrder = record {
    irrefl = λ a. B.iless_law a a ∙ lexicographical_compare_irrefl (map B.upper a);
    trans = λ a b c h k.
        B.iless_law a c
        ∙ lexicographical_compare_trans (map B.upper a) (map B.upper b) (map B.upper c)
            (sym (B.iless_law a b) ∙ h) (sym (B.iless_law b c) ∙ k);
    same_left = λ a b c h k.
        B.iless_law a c
        ∙ ap (λ x. lexicographical_compare x (map B.upper c)) (iless_same a b h k)
        ∙ sym (B.iless_law b c);
    same_right = λ a b c h k.
        B.iless_law c a
        ∙ ap (lexicographical_compare (map B.upper c)) (iless_same a b h k)
        ∙ sym (B.iless_law c b);
  }

  pub iless_desc-IsStrictWeakOrder : IsStrictWeakOrder iless_desc
  unfolding iless_desc
  iless_desc-IsStrictWeakOrder =
      let o = iless-IsStrictWeakOrder in
      record {
        irrefl = o.irrefl;
        trans = λ a b c h k. o.trans c b a k h;
        same_left = λ a b c h k. o.same_right a b c k h;
        same_right = λ a b c h k. o.same_left a b c k h;
      }

  pub iless-istarts_with :
      (u p q : Bytes)
      → B.istarts_with u p ≡ true
      → B.istarts_with u q ≡ true
      → length p < length q
      → B.iless p q ≡ true
  iless-istarts_with u p q h k lt =
      B.iless_law p q
      ∙ lexicographical_compare-starts_with (map B.upper u) (map B.upper p) (map B.upper q)
          (sym (B.istarts_with_law u p) ∙ h) (sym (B.istarts_with_law u q) ∙ k)
          (omega (arith, length-map B.upper p, length-map B.upper q))

  pub iless-istarts_with_self : (u p : Bytes) → B.istarts_with u p ≡ true → B.iless u p ≡ false
  iless-istarts_with_self u p h =
      B.iless_law u p
      ∙ lexicographical_compare-starts_with_self (map B.upper u) (map B.upper p)
          (sym (B.istarts_with_law u p) ∙ h)
