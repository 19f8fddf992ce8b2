-- ===== src/Router/Map.antt =====
-- std::map as the list of its entries in the order of iteration.
use da4qi.Base.{
  List, [], ◌∷◌, Bool, true, false, ◌||◌, Option, none, some, if◌then◌else◌, All, ◌≡◌, refl, arith,
  ◌⊎◌, inl, inr, Bool-cases,
}
use da4qi.Router.Order.{IsStrictWeakOrder}

-- One of the keys comes before the other.
abbrev pub Differ {ℓ} : {K : Type ℓ} → (K → K → Bool) → K → K → Type 0
Differ less a b = (less a b ≡ true) ⊎ (less b a ≡ true)

module _ {ℓ κ} {K : Type ℓ} {V : Type κ} (less : K → K → Bool) where
  -- `insert`: nothing happens if an equivalent key is there.
  unfoldable pub insert : K → V → List (K × V) → List (K × V)
  insert k v [] = (k, v) ∷ []
  insert k v ((k', v') ∷ m) =
      let rest = insert k v m in
      if less k k'
      then (k, v) ∷ (k', v') ∷ m
      else if less k' k
      then (k', v') ∷ rest
      else (k', v') ∷ m

  unfoldable pub find : K → List (K × V) → Option V
  find k [] = none
  find k ((k', v) ∷ m) = let rest = find k m in if less k k' || less k' k then rest else some v

  -- `it->second = f(it->second)`, for the entry that `find` finds.
  unfoldable pub modify : K → (V → V) → List (K × V) → List (K × V)
  modify k f [] = []
  modify k f ((k', v) ∷ m) =
      let rest = modify k f m in if less k k' || less k' k then (k', v) ∷ rest else (k', f v) ∷ m

  -- `map[k] = v`.
  unfoldable pub assign : K → V → List (K × V) → List (K × V)
  unfolding insert
  assign k v [] = (k, v) ∷ []
  assign k v ((k', v') ∷ m) =
      let rest = assign k v m in
      if less k k'
      then (k, v) ∷ (k', v') ∷ m
      else if less k' k
      then (k', v') ∷ rest
      else (k', v) ∷ m

  -- The entries from the first one on that does not come before `k`.
  unfoldable pub lower_bound : K → List (K × V) → List (K × V)
  lower_bound k [] = []
  lower_bound k ((k', v) ∷ m) =
      let rest = lower_bound k m in if less k' k then rest else (k', v) ∷ m

  -- The keys come in the order of the comparison.
  abbrev pub IsSorted : List (K × V) → Type ℓ
  IsSorted [] = Unit
  IsSorted ((k, v) ∷ m) = All (λ e. less k e.0 ≡ true) m × IsSorted m

  module _ (o : IsStrictWeakOrder less) where
    pub find-insert :
        (k : K) (v : V) (m : List (K × V)) → find k m ≡ none → find k (insert k v m) ≡ some v
    unfolding find insert
    find-insert k v [] h = ground (arith, o.irrefl k)
    find-insert k v ((k', v') ∷ m) h = ground (arith, o.irrefl k, find-insert k v m)

    -- What comes before all keys of a map comes before a key that is found in it.
    pub find-later :
        (a k : K) (w : V) (m : List (K × V))
        → All (λ e. less a e.0 ≡ true) m
        → find k m ≡ some w
        → less a k ≡ true
    unfolding find
    find-later a k w [] h e = ground arith
    find-later a k w ((k', v') ∷ m) (h, hs) e =
        ground (arith, find-later a k w m hs, o.same_right k k' a)

    pub find-insert_known :
        (k : K) (v w : V) (m : List (K × V))
        → IsSorted m
        → find k m ≡ some w
        → find k (insert k v m) ≡ some w
    unfolding find insert
    find-insert_known k v w [] s h = ground arith
    find-insert_known k v w ((k', v') ∷ m) (later, s) h =
        ground (
          arith,
          find-insert_known k v w m s,
          find-later k' k w m later,
          o.trans k k' k,
          o.irrefl k,
        )

    pub find-insert_other :
        (k j : K) (v : V) (m : List (K × V)) → Differ less j k → find j (insert k v m) ≡ find j m
    unfolding find insert
    find-insert_other k j v [] d = ground arith
    find-insert_other k j v ((k', v') ∷ m) d = ground (arith, find-insert_other k j v m d)

    pub find-modify :
        (k : K) (f : V → V) (v : V) (m : List (K × V))
        → find k m ≡ some v
        → find k (modify k f m) ≡ some (f v)
    unfolding find modify
    find-modify k f v [] h = ground arith
    find-modify k f v ((k', w) ∷ m) h = ground (arith, find-modify k f v m)

    pub find-modify_other :
        (k j : K) (f : V → V) (m : List (K × V))
        → Differ less j k
        → find j (modify k f m) ≡ find j m
    unfolding find modify
    find-modify_other k j f [] d = refl
    find-modify_other k j f ((k', w) ∷ m) d =
        ground (arith, find-modify_other k j f m d, o.same_left k k' j, o.same_right k k' j)

    pub find-assign :
        (k j : K) (v : V) (m : List (K × V))
        → less j k ≡ false
        → less k j ≡ false
        → find j (assign k v m) ≡ some v
    unfolding find assign
    find-assign k j v [] e f = ground arith
    find-assign k j v ((k', v') ∷ m) e f =
        ground (arith, find-assign k j v m e f, o.same_left j k k', o.same_right j k k')

    pub find-assign_other :
        (k j : K) (v : V) (m : List (K × V)) → Differ less j k → find j (assign k v m) ≡ find j m
    unfolding find assign
    find-assign_other k j v [] d = ground arith
    find-assign_other k j v ((k', v') ∷ m) d =
        ground (arith, find-assign_other k j v m d, o.same_left k k' j, o.same_right k k' j)

    pub find-head : (k : K) (v : V) (m : List (K × V)) → find k ((k, v) ∷ m) ≡ some v
    unfolding find
    find-head k v m = ground (arith, o.irrefl k)

    pub find-tail :
        (j k : K) (v : V) (m : List (K × V)) → Differ less j k → find j ((k, v) ∷ m) ≡ find j m
    unfolding find
    find-tail j k v m d = ground arith

    All-insert :
        (Q : K → Bool) (k : K) (v : V) (m : List (K × V))
        → Q k ≡ true
        → All (λ e. Q e.0 ≡ true) m
        → All (λ e. Q e.0 ≡ true) (insert k v m)
    unfolding insert
    All-insert Q k v [] q h = (q, tt)
    All-insert Q k v ((k', v') ∷ m) q (h, hs) = elim (Bool-cases (less k k')) [
      | inl lt ↦ rw lt (q, (h, hs))
      | inr ge ↦ elim (Bool-cases (less k' k)) [
        | inl gt ↦ rw (ge, gt) (h, All-insert Q k v m q hs)
        | inr le ↦ rw (ge, le) (h, hs)
      ]
    ]

    All-trans :
        (a b : K) (m : List (K × V))
        → less a b ≡ true
        → All (λ e. less b e.0 ≡ true) m
        → All (λ e. less a e.0 ≡ true) m
    All-trans a b [] lt h = tt
    All-trans a b ((k, v) ∷ m) lt (h, hs) = (o.trans a b k lt h, All-trans a b m lt hs)

    pub insert-IsSorted : (k : K) (v : V) (m : List (K × V)) → IsSorted m → IsSorted (insert k v m)
    unfolding insert
    insert-IsSorted k v [] h = (tt, tt)
    insert-IsSorted k v ((k', v') ∷ m) (h, hs) = elim (Bool-cases (less k k')) [
      | inl lt ↦ rw lt ((lt, All-trans k k' m lt h), (h, hs))
      | inr ge ↦ elim (Bool-cases (less k' k)) [
        | inl gt ↦ rw (ge, gt) (All-insert (less k') k v m gt h, insert-IsSorted k v m hs)
        | inr le ↦ rw (ge, le) (h, hs)
      ]
    ]

    All-modify :
        (Q : K → Bool) (k : K) (f : V → V) (m : List (K × V))
        → All (λ e. Q e.0 ≡ true) m
        → All (λ e. Q e.0 ≡ true) (modify k f m)
    unfolding modify
    All-modify Q k f [] h = tt
    All-modify Q k f ((k', v) ∷ m) (h, hs) = elim (Bool-cases (less k k' || less k' k)) [
      | inl differ ↦ rw differ (h, All-modify Q k f m hs)
      | inr same ↦ rw same (h, hs)
    ]

    pub modify-IsSorted :
        (k : K) (f : V → V) (m : List (K × V)) → IsSorted m → IsSorted (modify k f m)
    unfolding modify
    modify-IsSorted k f [] h = tt
    modify-IsSorted k f ((k', v) ∷ m) (h, hs) = elim (Bool-cases (less k k' || less k' k)) [
      | inl differ ↦ rw differ (All-modify (less k') k f m h, modify-IsSorted k f m hs)
      | inr same ↦ rw same (h, hs)
    ]
