-- ===== src/Websocket/Connections/Rename.antt =====
-- Whom an id finds after a connection was renamed, and that the storage knows its connections by
-- their ids.
use da4qi.Base.{
  ℕ, List, Bool, true, false, Bool-cases, Option, none, some, Option-cases, if◌then◌else◌, ◌==◌,
  ==_iff, Bytes, ◌≡◌, refl, inl, inr, arith,
}
use da4qi.Router.Order.{
  lexicographical_compare, lexicographical_compare-IsStrictWeakOrder, equal, equal→eq,
  not_equal→less,
}
use da4qi.Router.Map.{find, assign, IsSorted, find-assign, find-assign_other}
use da4qi.Router.Erase.{erase, find-erase, find-erase_other}
use da4qi.Websocket.Connections.{Connections, locked, set_id, get, renamed, rename_found, rename_id}

abbrev pub less : Bytes → Bytes → Bool
less = lexicographical_compare

-- The ids are in order, and a living connection stands under its id.
pub record IsRegistry (c : Connections) : Type 0 where
  pub sorted : IsSorted lexicographical_compare c.storage
  pub known :
      (id : Bytes) (cnt : ℕ) (own : Bytes)
      → find lexicographical_compare id c.storage ≡ some cnt
      → c.ids cnt ≡ some own
      → own ≡ id

pub find-assign_if :
    (k j : Bytes) (v : ℕ) (m : List (Bytes × ℕ))
    → find less j (assign less k v m) ≡ (if equal j k then some v else find less j m)
find-assign_if k j v m = elim (Bool-cases (equal j k)) [
  | inl same ↦
      rw (same, equal→eq j k same)
        (find-assign less lexicographical_compare-IsStrictWeakOrder k k v m
          (lexicographical_compare-IsStrictWeakOrder.irrefl k)
          (lexicographical_compare-IsStrictWeakOrder.irrefl k))
  | inr differ ↦ rw differ (
      find-assign_other less lexicographical_compare-IsStrictWeakOrder k j v m
        (not_equal→less j k differ))
]

pub find-erase_if :
    (k j : Bytes) (m : List (Bytes × ℕ))
    → IsSorted less m
    → find less j (erase less k m) ≡ (if equal j k then none else find less j m)
find-erase_if k j m s = elim (Bool-cases (equal j k)) [
  | inl same ↦
      rw (same, equal→eq j k same) (find-erase less lexicographical_compare-IsStrictWeakOrder k m s)
  | inr differ ↦ rw differ (
      find-erase_other less lexicographical_compare-IsStrictWeakOrder k j m
        (not_equal→less j k differ))
]

-- A connection that is found is registered and lives.
get-some :
    (id : Bytes) (cnt : ℕ) (c : Connections)
    → get id c ≡ some cnt
    → (own : Bytes) × (find less id c.storage ≡ some cnt) × (c.ids cnt ≡ some own)
unfolding get
get-some id cnt c e = elim (Option-cases (find less id c.storage)) [
  | inl none_found ↦ cc (rw none_found at e)
  | inr (b, found) ↦ elim (Option-cases (c.ids b)) [
    | inl dead ↦ cc (rw (found, dead) at e)
    | inr (own, lives) ↦
        let same : b ≡ cnt = ground (arith, rw (found, lives) at e) in
        (own, rw same at found, rw same at lives)
  ]
]

rename_id-renamed :
    (old_id new_id : Bytes) (cnt : ℕ) (own : Bytes) (c : Connections)
    → find less old_id c.storage ≡ some cnt
    → c.ids cnt ≡ some own
    → rename_id old_id new_id c ≡ (
      record {
        storage = assign less new_id cnt (erase less old_id c.storage);
        ids = set_id cnt new_id c.ids;
      },
      true,
    )
unfolding rename_id rename_found renamed
rename_id-renamed old_id new_id cnt own c found lives = rw (found, lives) refl

-- Giving a living connection a new id leaves the others' answers alone.
locked-set_id :
    (cnt : ℕ) (id own : Bytes) (ids : ℕ → Option Bytes) (o : Option ℕ)
    → ids cnt ≡ some own
    → locked (set_id cnt id ids) o ≡ locked ids o
locked-set_id cnt id own ids none lives = refl
locked-set_id cnt id own ids (some b) lives = elim (Bool-cases (b == cnt)) [
  | inl same ↦ rw (same, (==_iff b cnt).0 same, lives) refl
  | inr differ ↦ rw differ refl
]

locked_if :
    (ids : ℕ → Option Bytes) (a b : Bool) (cnt : ℕ) (own : Bytes) (o : Option ℕ)
    → ids cnt ≡ some own
    → locked ids (if a then some cnt else if b then none else o)
      ≡ (if a then some cnt else if b then none else locked ids o)
locked_if ids true b cnt own o lives = rw lives refl
locked_if ids false true cnt own o lives = refl
locked_if ids false false cnt own o lives = refl

-- A living connection is given a new id, which another connection may have: from then on the new id
-- finds it, the old id, unless it is the new one, finds nothing, and every other id finds what it
-- found before.
pub get-rename_id :
    (old_id new_id : Bytes) (cnt : ℕ) (c : Connections) (id : Bytes)
    → IsRegistry c
    → get old_id c ≡ some cnt
    → ((rename_id old_id new_id c).1 ≡ true)
      × (get id (rename_id old_id new_id c).0
          ≡ (if equal id new_id then some cnt else if equal id old_id then none else get id c))
unfolding get
get-rename_id old_id new_id cnt c id h e =
    let (own, found, lives) = get-some old_id cnt c e in
    rw
      (
        rename_id-renamed old_id new_id cnt own c found lives,
        locked-set_id cnt new_id own c.ids
            (find less id (assign less new_id cnt (erase less old_id c.storage))) lives,
        find-assign_if new_id id cnt (erase less old_id c.storage),
        find-erase_if old_id id c.storage h.sorted,
      )
      (
        refl,
        locked_if c.ids (equal id new_id) (equal id old_id) cnt own (find less id c.storage) lives,
      )
