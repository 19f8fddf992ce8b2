-- ===== src/Router/Inserts.antt =====
-- std::map::insert of one entry after the other.
use da4qi.Base.{
  List, [], ◌∷◌, Bool, false, ◌||◌, Option, none, some, if◌then◌else◌, ◌≡◌, refl, arith, inl, inr,
  Bool-cases, ◌∙◌, sym, ap,
}
use da4qi.Router.Order.{IsStrictWeakOrder}
use da4qi.Router.Map.{
  insert, find, IsSorted, find-insert, find-insert_known, find-insert_other, insert-IsSorted,
}

abbrev pub or_else {ℓ} : {A : Type ℓ} → Option A → Option A → Option A
or_else none o = o
or_else (some a) o = some a

module _ {ℓ κ} {K : Type ℓ} {V : Type κ} (less : K → K → Bool) where
  unfoldable pub insert_all : List (K × V) → List (K × V) → List (K × V)
  insert_all [] m = m
  insert_all ((k, v) ∷ entries) m = insert_all entries (insert less k v m)

  module _ (o : IsStrictWeakOrder less) where
    find-same :
        (j k : K) (m : List (K × V))
        → less j k ≡ false
        → less k j ≡ false
        → find less j m ≡ find less k m
    unfolding find
    find-same j k [] e f = refl
    find-same j k ((k', v) ∷ m) e f =
        ground (arith, find-same j k m e f, o.same_left j k k' e f, o.same_right j k k' e f)

    -- One entry: what was found before stays, and an equivalent key finds the new value else.
    found-insert :
        (j k : K) (v : V) (m : List (K × V)) (w : Option V)
        → IsSorted less m
        → find less j m ≡ w
        → find less j (insert less k v m)
          ≡ or_else w (if less j k || less k j then none else some v)
    found-insert j k v m w s e = elim (Bool-cases (less j k)) [
      | inl lt ↦ rw lt (find-insert_other less o k j v m (inl lt) ∙ e ∙ kept w)
      | inr ge ↦ elim (Bool-cases (less k j)) [
        | inl gt ↦ rw (ge, gt) (find-insert_other less o k j v m (inr gt) ∙ e ∙ kept w)
        | inr le ↦
            rw (ge, le)
              (find-same j k (insert less k v m) ge le ∙ taken w (sym (find-same j k m ge le) ∙ e))
      ]
    ]
      where
        kept : (w : Option V) → w ≡ or_else w none
        kept none = refl
        kept (some x) = refl

        taken :
            (w : Option V)
            → find less k m ≡ w
            → find less k (insert less k v m) ≡ or_else w (some v)
        taken none f = find-insert less o k v m f
        taken (some x) f = find-insert_known less o k v x m s f

    -- After the entries were inserted in turn, a key finds what it found before, or the first entry
    -- with an equivalent key.
    pub find-insert_all :
        (j : K) (entries m : List (K × V))
        → IsSorted less m
        → find less j (insert_all entries m) ≡ or_else (find less j m) (find less j entries)
    unfolding insert_all find
    find-insert_all j [] m s = kept (find less j m)
      where
        kept : (w : Option V) → w ≡ or_else w (find less j [])
        kept none = refl
        kept (some x) = refl
    find-insert_all j ((k, v) ∷ entries) m s =
        find-insert_all j entries (insert less k v m) (insert-IsSorted less o k v m s)
        ∙ ap (λ w. or_else w (find less j entries)) (found-insert j k v m _ s refl)
        ∙ both (find less j m)
      where
        both :
            (w : Option V)
            → or_else
                (or_else w (if less j k || less k j then none else some v))
                (find less j entries)
              ≡ or_else w (find less j ((k, v) ∷ entries))
        both (some x) = refl
        both none = elim (Bool-cases (less j k || less k j)) [
          | inl d ↦ rw d refl
          | inr d ↦ rw d refl
        ]
