-- ===== src/Router/Longest.antt =====
-- router.cpp, StartsWithRoutingTable::Match: which of the keys that begin the path it takes.
use da4qi.Base.{
  ℕ, ◌≤◌, List, [], ◌∷◌, Bool, true, false, Bool-cases, some, Bytes, All, length, ◌≡◌, refl, ap,
  ◌∙◌, sym, subst, ◌⊎◌, inl, inr, arith,
}
use da4qi.Router.Order.{
  Algorithms, iless_desc, iless_desc-IsStrictWeakOrder, iless-IsStrictWeakOrder, iless-istarts_with,
}
use da4qi.Router.Map.{find, find-head, find-tail, IsSorted}
use da4qi.Router.Methods.{HandlerMethod}
use da4qi.Router.Table.{RouterItem, RouterResult, no_result, router_result, Table, starts_match}

module _ {ℓ} (B : Algorithms) {V : Type ℓ} where
  -- No entry begins the text with a longer key.
  abbrev pub NoLonger : Bytes → ℕ → List (Bytes × V) → Type 0
  NoLonger url n m = All (λ e. (B.istarts_with url e.0 ≡ false) ⊎ (length e.0 ≤ n)) m

  -- Behind a key that begins the text, the keys that begin it are not longer.
  pub behind :
      (url key : Bytes) (m : List (Bytes × V))
      → B.istarts_with url key ≡ true
      → All (λ e. iless_desc B key e.0 ≡ true) m
      → NoLonger url (length key) m
  unfolding iless_desc
  behind url key [] h hs = tt
  behind url key ((k, v) ∷ m) h (lt, hs) = (
    elim (Bool-cases (B.istarts_with url k)) [
      | inr other ↦ inl other
      | inl begins ↦ inr (
          ground (
            arith,
            iless-istarts_with B url key k h begins,
            (iless-IsStrictWeakOrder B).trans k key k lt,
            (iless-IsStrictWeakOrder B).irrefl k,
          ))
    ],
    behind url key m h hs,
  )

module _ (B : Algorithms) {H : Type 0} (url : Bytes) (method : HandlerMethod) where
  -- The entry at the head of the table is taken, or passed over.
  starts_match-take :
      (k : Bytes) (item : RouterItem H) (t : Table H)
      → B.istarts_with url k ≡ true
      → starts_match B url method false ((k, item) ∷ t)
        ≡ (router_result (some item) method, k, true)
  unfolding starts_match
  starts_match-take k item t begins = rw begins refl

  starts_match-pass :
      (k : Bytes) (item : RouterItem H) (t : Table H)
      → B.istarts_with url k ≡ false
      → starts_match B url method false ((k, item) ∷ t) ≡ starts_match B url method false t
  unfolding starts_match
  starts_match-pass k item t other = rw other refl

  -- What a match that was found says.
  abbrev Taken : Table H → RouterResult H × Bytes × Bool → Type 0
  Taken t (result, key, url_exists) =
      (B.istarts_with url key ≡ true)
      × NoLonger B url (length key) t
      × (result ≡ router_result (find (iless_desc B) key t) method)

  -- What holds of all keys holds of the one that is taken.
  starts_match-All :
      (Q : Bytes → Bool) (t : Table H)
      → All (λ e. Q e.0 ≡ true) t
      → (starts_match B url method false t).2 ≡ true
      → Q ((starts_match B url method false t).1) ≡ true
  unfolding starts_match
  starts_match-All Q [] hs h = ground arith
  starts_match-All Q ((k, item) ∷ t) (q, hs) h = ground (arith, starts_match-All Q t hs)

  -- When a table in the order of its map knows the path, the key that is taken begins the path, no
  -- key of the table that begins it is longer, and the result is that of the key's item.
  pub starts_match-longest :
      (t : Table H)
      → IsSorted (iless_desc B) t
      → (starts_match B url method false t).2 ≡ true
      → let (result, key, url_exists) = starts_match B url method false t in
        (B.istarts_with url key ≡ true)
        × NoLonger B url (length key) t
        × (result ≡ router_result (find (iless_desc B) key t) method)
  starts_match-longest [] sorted h = absurd (unfold starts_match in ground arith)
  starts_match-longest ((k, item) ∷ t) (later, sorted) h =
      elim (Bool-cases (B.istarts_with url k)) [
        | inl begins ↦ subst (Taken ((k, item) ∷ t)) (sym (starts_match-take k item t begins)) (
          begins,
          (inr (omega arith), behind B url k t begins later),
          sym (
              ap (λ i. router_result i method)
                (find-head (iless_desc B) (iless_desc-IsStrictWeakOrder B) k item t)),
        )
        | inr other ↦
            let found = sym (ap (λ r. r.2) (starts_match-pass k item t other)) ∙ h in
            let (begins, longest, result) = starts_match-longest t sorted found in
            let later_key = starts_match-All (iless_desc B k) t later found in
            subst (Taken ((k, item) ∷ t)) (sym (starts_match-pass k item t other)) (
              begins,
              (inl other, longest),
              result
                  ∙ sym (
                      ap (λ i. router_result i method)
                        (find-tail (iless_desc B) (iless_desc-IsStrictWeakOrder B) _ k item t
                          (inr later_key))),
            )
      ]

  -- Only if no key begins the path, the path counts as unknown and there is no result.
  pub starts_match-none :
      (t : Table H)
      → (starts_match B url method false t).2 ≡ false
      → All (λ e. B.istarts_with url e.0 ≡ false) t
        × ((starts_match B url method false t).0 ≡ no_result)
  starts_match-none [] h = (tt, unfold starts_match in refl)
  starts_match-none ((k, item) ∷ t) h = elim (Bool-cases (B.istarts_with url k)) [
    | inl begins ↦ absurd (ground (arith, starts_match-take k item t begins))
    | inr other ↦
        let (rest, result) =
          starts_match-none t (sym (ap (λ r. r.2) (starts_match-pass k item t other)) ∙ h) in
        ((other, rest), ap (λ r. r.0) (starts_match-pass k item t other) ∙ result)
  ]
