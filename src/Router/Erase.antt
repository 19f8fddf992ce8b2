-- ===== src/Router/Erase.antt =====
-- `std::map::erase` at the entry that `find` finds, and the order of the keys behind a change.
use da4qi.Base.{
  List, [], ◌∷◌, Bool, true, false, ◌||◌, none, if◌then◌else◌, All, ◌≡◌, refl, arith, inl, inr,
  Bool-cases,
}
use da4qi.Router.Order.{IsStrictWeakOrder}
use da4qi.Router.Map.{Differ, find, assign, IsSorted}

module _ {ℓ κ} {K : Type ℓ} {V : Type κ} (less : K → K → Bool) where
  unfoldable pub erase : K → List (K × V) → List (K × V)
  erase k [] = []
  erase k ((k', v) ∷ m) =
      let rest = erase k m in if less k k' || less k' k then (k', v) ∷ rest else m

  module _ (o : IsStrictWeakOrder less) where
    All-erase :
        (Q : K → Bool) (k : K) (m : List (K × V))
        → All (λ e. Q e.0 ≡ true) m
        → All (λ e. Q e.0 ≡ true) (erase k m)
    unfolding erase
    All-erase Q k [] h = tt
    All-erase Q k ((k', v) ∷ m) (h, hs) = elim (Bool-cases (less k k' || less k' k)) [
      | inl differ ↦ rw differ (h, All-erase Q k m hs)
      | inr same ↦ rw same hs
    ]

    pub erase-IsSorted : (k : K) (m : List (K × V)) → IsSorted less m → IsSorted less (erase k m)
    unfolding erase
    erase-IsSorted k [] h = tt
    erase-IsSorted k ((k', v) ∷ m) (h, hs) = elim (Bool-cases (less k k' || less k' k)) [
      | inl differ ↦ rw differ (All-erase (less k') k m h, erase-IsSorted k m hs)
      | inr same ↦ rw same hs
    ]

    -- A key before all others is not found.
    find-before : (k : K) (m : List (K × V)) → All (λ e. less k e.0 ≡ true) m → find less k m ≡ none
    unfolding find
    find-before k [] h = refl
    find-before k ((k', v) ∷ m) (h, hs) = ground (arith, find-before k m hs)

    All-same :
        (a k : K) (m : List (K × V))
        → less k a ≡ false
        → less a k ≡ false
        → All (λ e. less a e.0 ≡ true) m
        → All (λ e. less k e.0 ≡ true) m
    All-same a k [] e f h = tt
    All-same a k ((k', v) ∷ m) e f (h, hs) =
        (ground (arith, o.same_left k a k'), All-same a k m e f hs)

    pub find-erase : (k : K) (m : List (K × V)) → IsSorted less m → find less k (erase k m) ≡ none
    unfolding find erase
    find-erase k [] s = refl
    find-erase k ((k', v) ∷ m) (later, s) = elim (Bool-cases (less k k' || less k' k)) [
      | inl differ ↦ rw differ (rw differ (find-erase k m s))
      | inr same ↦ rw same (find-before k m (All-same k' k m (ground arith) (ground arith) later))
    ]

    pub find-erase_other :
        (k j : K) (m : List (K × V)) → Differ less j k → find less j (erase k m) ≡ find less j m
    unfolding find erase
    find-erase_other k j [] d = refl
    find-erase_other k j ((k', v) ∷ m) d =
        ground (arith, find-erase_other k j m d, o.same_left k k' j, o.same_right k k' j)

    All-assign :
        (Q : K → Bool) (k : K) (v : V) (m : List (K × V))
        → Q k ≡ true
        → All (λ e. Q e.0 ≡ true) m
        → All (λ e. Q e.0 ≡ true) (assign less k v m)
    unfolding assign
    All-assign Q k v [] q h = (q, tt)
    All-assign Q k v ((k', v') ∷ m) q (h, hs) = elim (Bool-cases (less k k')) [
      | inl lt ↦ rw lt (q, (h, hs))
      | inr ge ↦ elim (Bool-cases (less k' k)) [
        | inl gt ↦ rw (ge, gt) (h, All-assign Q k v m q hs)
        | inr le ↦ rw (ge, le) (h, hs)
      ]
    ]

    All-later :
        (a b : K) (m : List (K × V))
        → less a b ≡ true
        → All (λ e. less b e.0 ≡ true) m
        → All (λ e. less a e.0 ≡ true) m
    All-later a b [] lt h = tt
    All-later a b ((k, v) ∷ m) lt (h, hs) = (o.trans a b k lt h, All-later a b m lt hs)

    pub assign-IsSorted :
        (k : K) (v : V) (m : List (K × V)) → IsSorted less m → IsSorted less (assign less k v m)
    unfolding assign
    assign-IsSorted k v [] h = (tt, tt)
    assign-IsSorted k v ((k', v') ∷ m) (h, hs) = elim (Bool-cases (less k k')) [
      | inl lt ↦ rw lt ((lt, All-later k k' m lt h), (h, hs))
      | inr ge ↦ elim (Bool-cases (less k' k)) [
        | inl gt ↦ rw (ge, gt) (All-assign (less k') k v m gt h, assign-IsSorted k v m hs)
        | inr le ↦ rw (ge, le) (h, hs)
      ]
    ]
