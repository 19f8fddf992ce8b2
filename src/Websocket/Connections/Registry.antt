-- ===== src/Websocket/Connections/Registry.antt =====
-- The storage knows its connections by their ids, through all its operations and the births and
-- deaths of connections.
use da4qi.Base.{
  ℕ, List, false, Bool-cases, Option, none, some, Option-cases, if◌then◌else◌, ◌==◌, ==_iff, Bytes,
  ◌≡◌, ◌≢◌, ◌⊎◌, refl, sym, ◌∙◌, inl, inr, arith,
}
use da4qi.Router.Order.{
  lexicographical_compare, equal_refl, lexicographical_compare-IsStrictWeakOrder, equal, equal→eq,
  not_equal→less,
}
use da4qi.Router.Map.{
  IsSorted, find, insert, find-insert, find-insert_known, find-insert_other, insert-IsSorted,
}
use da4qi.Router.Erase.{erase, erase-IsSorted, assign-IsSorted}
use da4qi.Websocket.Connections.{
  Connections, set_id, add, remove, removed, renamed, rename_found, rename_id,
}
use da4qi.Websocket.Connections.Rename.{less, IsRegistry, find-assign_if, find-erase_if}

-- A connection is made with an id at an address that no pointer of the storage has, or dies.
pub data Change (c : Connections) : Connections → Type 0 where
  born :
      (cnt : ℕ) (id : Bytes)
      → ((key : Bytes) → find lexicographical_compare key c.storage ≢ some cnt)
      → Change c (record c { ids = set_id cnt id c.ids })
  died :
      (cnt : ℕ) → Change c (record c { ids = λ other. if other == cnt then none else c.ids other })
  added : (cnt : ℕ) (id : Bytes) → c.ids cnt ≡ some id → Change c (add cnt id c)
  erased : (id : Bytes) → Change c (remove id c).0
  moved : (old_id new_id : Bytes) → Change c (rename_id old_id new_id c).0

find_erased :
    (id key : Bytes) (cnt : ℕ) (c : Connections)
    → IsRegistry c
    → find less key (erase less id c.storage) ≡ some cnt
    → (equal key id ≡ false) × (find less key c.storage ≡ some cnt)
find_erased id key cnt c h found = elim (Bool-cases (equal key id)) [
  | inl same ↦ cc (rw (find-erase_if id key c.storage h.sorted, same) at found)
  | inr differ ↦ (differ, rw (find-erase_if id key c.storage h.sorted, differ) at found)
]

erased-IsRegistry :
    (id : Bytes) (c : Connections)
    → IsRegistry c
    → IsRegistry (record c { storage = erase less id c.storage })
erased-IsRegistry id c h = record {
  sorted = erase-IsSorted less lexicographical_compare-IsStrictWeakOrder id c.storage h.sorted;
  known = λ key cnt own found lives. h.known key cnt own (find_erased id key cnt c h found).1 lives;
}

born-IsRegistry :
    (cnt : ℕ) (id : Bytes) (c : Connections)
    → ((key : Bytes) → find less key c.storage ≢ some cnt)
    → IsRegistry c
    → IsRegistry (record c { ids = set_id cnt id c.ids })
born-IsRegistry cnt id c new h = record {
  sorted = h.sorted;
  known = λ key b own found lives. elim (Bool-cases (b == cnt)) [
    | inl same ↦ absurd (new key (rw ((==_iff b cnt).0 same) at found))
    | inr differ ↦ h.known key b own found (rw differ at lives)
  ];
}

died-IsRegistry :
    (cnt : ℕ) (c : Connections)
    → IsRegistry c
    → IsRegistry (record c { ids = λ other. if other == cnt then none else c.ids other })
died-IsRegistry cnt c h = record {
  sorted = h.sorted;
  known = λ key b own found lives. elim (Bool-cases (b == cnt)) [
    | inl same ↦ cc (rw same at lives)
    | inr differ ↦ h.known key b own found (rw differ at lives)
  ];
}

find-insert_cases :
    (k j : Bytes) (v : ℕ) (m : List (Bytes × ℕ)) (w : ℕ)
    → IsSorted less m
    → find less j (insert less k v m) ≡ some w
    → ((j ≡ k) × (w ≡ v)) ⊎ (find less j m ≡ some w)
find-insert_cases k j v m w s e = elim (Bool-cases (equal j k)) [
  | inr differ ↦ inr (
      sym (
        find-insert_other less lexicographical_compare-IsStrictWeakOrder k j v m
          (not_equal→less j k differ))
      ∙ e)
  | inl same ↦
      let eq = equal→eq j k same in
      elim (Option-cases (find less k m)) [
        | inl new ↦ inl (
          eq,
          ground (
            arith,
            rw eq at e,
            find-insert less lexicographical_compare-IsStrictWeakOrder k v m new,
          ),
        )
        | inr (u, old) ↦ inr (
            rw eq (
              old
              ∙ sym (find-insert_known less lexicographical_compare-IsStrictWeakOrder k v u m s old)
              ∙ (rw eq at e)))
      ]
]

added-IsRegistry :
    (cnt : ℕ) (id : Bytes) (c : Connections)
    → c.ids cnt ≡ some id
    → IsRegistry c
    → IsRegistry (add cnt id c)
unfolding add
added-IsRegistry cnt id c alive h = record {
  sorted = insert-IsSorted less lexicographical_compare-IsStrictWeakOrder id cnt c.storage h.sorted;
  known = λ key b own found lives. elim (find-insert_cases id key cnt c.storage b h.sorted found) [
    | inl (eq, same) ↦ cc (rw same at lives, alive, eq)
    | inr old ↦ h.known key b own old lives
  ];
}

renamed-IsRegistry :
    (new_id : Bytes) (cnt : ℕ) (o : Option Bytes) (c : Connections)
    → ((key : Bytes) → find less key c.storage ≢ some cnt)
    → IsRegistry c
    → IsRegistry (renamed new_id cnt o c).0
unfolding renamed
renamed-IsRegistry new_id cnt none c gone h = h
renamed-IsRegistry new_id cnt (some id) c gone h = record {
  sorted =
      assign-IsSorted less lexicographical_compare-IsStrictWeakOrder new_id cnt c.storage h.sorted;
  known = λ key b own found lives. elim (Bool-cases (equal key new_id)) [
    | inl eq ↦
        let same : cnt ≡ b =
          ground (arith, rw (find-assign_if new_id key cnt c.storage, eq) at found) in
        cc (rw ((==_iff b cnt).1 (sym same)) at lives, equal→eq key new_id eq)
    | inr other ↦
        let before = rw (find-assign_if new_id key cnt c.storage, other) at found in
        elim (Bool-cases (b == cnt)) [
          | inl same ↦ absurd (gone key (rw ((==_iff b cnt).0 same) at before))
          | inr differ ↦ h.known key b own before (rw differ at lives)
        ]
  ];
}

moved-IsRegistry :
    (old_id new_id : Bytes) (o : Option ℕ) (c : Connections)
    → find less old_id c.storage ≡ o
    → IsRegistry c
    → IsRegistry (rename_found old_id new_id o c).0
unfolding rename_found
moved-IsRegistry old_id new_id none c found h = h
moved-IsRegistry old_id new_id (some cnt) c found h = elim (Option-cases (c.ids cnt)) [
  | inl dead ↦ rw dead (unfold renamed in erased-IsRegistry old_id c h)
  | inr (own, lives) ↦
      renamed-IsRegistry new_id cnt (c.ids cnt) (record c { storage = erase less old_id c.storage })
        (λ key e.
          let (differ, before) = find_erased old_id key cnt c h e in
          let same : key ≡ old_id =
            sym (h.known key cnt own before lives) ∙ h.known old_id cnt own found lives in
          cc (rw (same, equal_refl old_id) at differ))
        (erased-IsRegistry old_id c h)
]

removed-IsRegistry :
    (id : Bytes) (o : Option ℕ) (c : Connections) → IsRegistry c → IsRegistry (removed id o c).0
unfolding removed
removed-IsRegistry id none c h = h
removed-IsRegistry id (some cnt) c h = erased-IsRegistry id c h

-- Every operation of the storage keeps its ids in order and each living connection in it under the
-- connection's own id, and so do births and deaths of connections.
pub Change-IsRegistry : {c d : Connections} → Change c d → IsRegistry c → IsRegistry d
Change-IsRegistry {c} (born cnt id new) h = born-IsRegistry cnt id c new h
Change-IsRegistry {c} (died cnt) h = died-IsRegistry cnt c h
Change-IsRegistry {c} (added cnt id lives) h = added-IsRegistry cnt id c lives h
Change-IsRegistry {c} (erased id) h =
    unfold remove in removed-IsRegistry id (find less id c.storage) c h
Change-IsRegistry {c} (moved old_id new_id) h =
    unfold rename_id in moved-IsRegistry old_id new_id (find less old_id c.storage) c refl h
