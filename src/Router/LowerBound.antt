-- ===== src/Router/LowerBound.antt =====
-- std::map::lower_bound: what the entries that it passes over have in common.
use da4qi.Base.{
  List, [], ◌∷◌, Bool, true, false, Bool-cases, some, All, ◌≡◌, refl, sym, subst, ◌∙◌, inl, inr,
}
use da4qi.Router.Order.{IsStrictWeakOrder}
use da4qi.Router.Map.{IsSorted, find, find-later, find-tail, lower_bound}

module _ {ℓ κ} {K : Type ℓ} {V : Type κ} (less : K → K → Bool) (o : IsStrictWeakOrder less)
    (k : K) where
  lower_bound-pass :
      (j : K) (v : V) (m : List (K × V))
      → less j k ≡ true
      → lower_bound less k ((j, v) ∷ m) ≡ lower_bound less k m
  unfolding lower_bound
  lower_bound-pass j v m h = rw h refl

  lower_bound-stop :
      (j : K) (v : V) (m : List (K × V))
      → less j k ≡ false
      → lower_bound less k ((j, v) ∷ m) ≡ (j, v) ∷ m
  unfolding lower_bound
  lower_bound-stop j v m h = rw h refl

  -- What holds of the entries from the bound on, and of all keys before it, holds of all entries.
  pub lower_bound-All {μ} :
      (P : K × V → Type μ) (m : List (K × V))
      → ((j : K) (v : V) → less j k ≡ true → P (j, v))
      → All P (lower_bound less k m)
      → All P m
  lower_bound-All P [] before h = tt
  lower_bound-All P ((j, v) ∷ m) before h = elim (Bool-cases (less j k)) [
    | inl lt ↦
        (before j v lt, lower_bound-All P m before (subst (All P) (lower_bound-pass j v m lt) h))
    | inr ge ↦ subst (All P) (lower_bound-stop j v m ge) h
  ]

  pub lower_bound-IsSorted :
      (m : List (K × V)) → IsSorted less m → IsSorted less (lower_bound less k m)
  lower_bound-IsSorted [] h = unfold lower_bound in tt
  lower_bound-IsSorted ((j, v) ∷ m) (h, hs) = elim (Bool-cases (less j k)) [
    | inl lt ↦ subst (IsSorted less) (sym (lower_bound-pass j v m lt)) (lower_bound-IsSorted m hs)
    | inr ge ↦ subst (IsSorted less) (sym (lower_bound-stop j v m ge)) (h, hs)
  ]

  -- A key that is found from the bound on is found.
  pub find-lower_bound :
      (j : K) (w : V) (m : List (K × V))
      → IsSorted less m
      → find less j (lower_bound less k m) ≡ some w
      → find less j m ≡ some w
  unfolding lower_bound
  find-lower_bound j w [] h e = e
  find-lower_bound j w ((i, v) ∷ m) (h, hs) e = elim (Bool-cases (less i k)) [
    | inl lt ↦
        let found : find less j m ≡ some w =
          find-lower_bound j w m hs
            (subst (λ l. find less j l ≡ some w) (lower_bound-pass i v m lt) e) in
        find-tail less o j i v m (inr (find-later less o i j w m h found)) ∙ found
    | inr ge ↦ subst (λ l. find less j l ≡ some w) (lower_bound-stop i v m ge) e
  ]
