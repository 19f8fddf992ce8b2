-- ===== src/StaticFile/Entries.antt =====
-- static_file.cpp, on_request: which of the entries it takes.
use da4qi.Base.{
  ℕ, ◌≤◌, List, [], ◌∷◌, ◌++◌, drop, ◌&&◌, ◌==◌, if◌then◌else◌, subst, Bool-cases, true, false, map,
  Option, none, some, Bytes, is_empty, All, length, inl, inr, ◌⊎◌, ◌≡◌, refl, sym, ap, ap₂, ◌∙◌,
  arith,
}
use da4qi.Router.Order.{
  Algorithms, lexicographical_compare, starts_with, tail_is, equal, iless_desc,
  iless_desc-IsStrictWeakOrder,
}
use da4qi.Router.Map.{find, find-head, find-tail, find-later, insert-IsSorted, IsSorted}
use da4qi.Router.Longest.{NoLonger, behind}
use da4qi.StaticFile.{StaticFile, add_entry, compare_desc, first_entry}

map_self : (s : Bytes) → map (λ x. x) s ≡ s
map_self [] = refl
map_self (x ∷ s) = ap (◌∷◌ x) (map_self s)

-- The comparisons that do not ignore case.
abbrev exact : Algorithms
exact = record {
  upper = λ x. x;
  iless = lexicographical_compare;
  istarts_with = starts_with;
  ends_with = tail_is;
  iequals = equal;
  iless_law = λ l r. sym (ap₂ lexicographical_compare (map_self l) (map_self r));
  istarts_with_law = λ m s. sym (ap₂ starts_with (map_self m) (map_self s));
  ends_with_law = λ m s. refl;
  iequals_law = λ l r. sym (ap₂ equal (map_self l) (map_self r));
}

-- What begins with one text and then another.
starts_with-append :
    (url p s : Bytes)
    → starts_with url (p ++ s) ≡ starts_with url p && starts_with (drop (length p) url) s
unfolding starts_with
starts_with-append url [] s = refl
starts_with-append [] (y ∷ p) s = refl
starts_with-append (x ∷ url) (y ∷ p) s = elim (Bool-cases (x == y)) [
  | inl h ↦ rw h (starts_with-append url p s)
  | inr h ↦ rw h refl
]

module _ (p url : Bytes) where
  -- With a text in front of each, no entry that begins the URL has a longer root.
  abbrev pub NoLongerRoot : ℕ → List (Bytes × Bytes) → Type 0
  NoLongerRoot n entries =
      All (λ e. (starts_with url (p ++ e.0) ≡ false) ⊎ (length e.0 ≤ n)) entries

  NoLonger-append :
      (n : ℕ) (m : List (Bytes × Bytes))
      → NoLonger exact (drop (length p) url) n m
      → NoLongerRoot n m
  NoLonger-append n [] h = tt
  NoLonger-append n ((root, dir) ∷ m) (inr short, hs) = (inr short, NoLonger-append n m hs)
  NoLonger-append n ((root, dir) ∷ m) (inl other, hs) =
      (inl (rw (starts_with-append url p root, other) (ground arith)), NoLonger-append n m hs)

  root-begins :
      (root : Bytes)
      → starts_with url (p ++ root) ≡ true
      → starts_with (drop (length p) url) root ≡ true
  root-begins root h = ground (arith, starts_with-append url p root)

  -- What the loop ends at: an entry whose root begins the URL, of which none is longer, or no root does.
  abbrev pub IsChosen : List (Bytes × Bytes) → Option (Bytes × Bytes) → Type 0
  IsChosen entries none = All (λ e. starts_with url (p ++ e.0) ≡ false) entries
  IsChosen entries (some (root, dir)) =
      (starts_with url (p ++ root) ≡ true)
      × NoLongerRoot (length root) entries
      × (find compare_desc root entries ≡ some dir)

  module _ (A : Algorithms) where
    -- No root begins the URL only if case is ignored.
    abbrev pub AreExact : List (Bytes × Bytes) → Type 0
    AreExact = All (λ e. A.istarts_with url (p ++ e.0) ≡ starts_with url (p ++ e.0))

    IsChosen-next :
        (root dir : Bytes) (entries : List (Bytes × Bytes)) (o : Option (Bytes × Bytes))
        → All (λ e. compare_desc root e.0 ≡ true) entries
        → starts_with url (p ++ root) ≡ false
        → IsChosen entries o
        → IsChosen ((root, dir) ∷ entries) o
    unfolding compare_desc iless_desc
    IsChosen-next root dir entries none later other all = (other, all)
    IsChosen-next root dir entries (some (root', dir')) later other (begins, longest, found) = (
      begins,
      (inl other, longest),
      find-tail compare_desc (iless_desc-IsStrictWeakOrder exact) root' root dir entries (
            inr (
              find-later compare_desc (iless_desc-IsStrictWeakOrder exact) root root' dir' entries
                later found))
          ∙ found,
    )

    -- In a table in the order of its map, with one text, such as the root of the application, in front
    -- of each root: if no root begins the URL only when case is ignored, the entry that is taken is
    -- one of the table whose root begins the URL, and no root that does is longer; none is taken only
    -- if no root begins the URL.
    pub first_entry-IsChosen :
        (entries : List (Bytes × Bytes))
        → IsSorted compare_desc entries
        → AreExact entries
        → IsChosen entries (first_entry A (λ r. p ++ r) url entries)
    unfolding first_entry compare_desc iless_desc
    first_entry-IsChosen [] sorted exactly = tt
    first_entry-IsChosen ((root, dir) ∷ entries) (later, sorted) (same, exactly) =
        elim (Bool-cases (starts_with url (p ++ root))) [
          | inl begins ↦
              subst (IsChosen ((root, dir) ∷ entries))
                (sym (
                  ap (λ b. if b then some (root, dir) else first_entry A (λ r. p ++ r) url entries)
                    (same ∙ begins)))
                (
                  begins,
                  (
                    inr (omega arith),
                    NoLonger-append (length root) entries (
                        behind exact (drop (length p) url) root entries (root-begins root begins)
                          later),
                  ),
                  find-head compare_desc (iless_desc-IsStrictWeakOrder exact) root dir entries,
                )
          | inr other ↦
              subst (IsChosen ((root, dir) ∷ entries))
                (sym (
                  ap (λ b. if b then some (root, dir) else first_entry A (λ r. p ++ r) url entries)
                    (same ∙ other)))
                (IsChosen-next root dir entries (first_entry A (λ r. p ++ r) url entries) later
                  other (first_entry-IsChosen entries sorted exactly))
        ]

-- AddEntry for each pair of a root and a directory.
abbrev pub add_entries : List (Bytes × Bytes) → StaticFile → StaticFile
add_entries [] f = f
add_entries ((url_root, dir_root) ∷ es) f = add_entries es (add_entry url_root dir_root f)

-- The entries that are added are in the order of the map, whatever the order in which they come.
pub add_entries-IsSorted :
    (es : List (Bytes × Bytes)) (f : StaticFile)
    → IsSorted compare_desc f.root_entries
    → IsSorted compare_desc (add_entries es f).root_entries
unfolding add_entry compare_desc iless_desc
add_entries-IsSorted [] f h = h
add_entries-IsSorted ((url_root, dir_root) ∷ es) f h =
    add_entries-IsSorted es (add_entry url_root dir_root f) (
      insert-IsSorted compare_desc (iless_desc-IsStrictWeakOrder exact) url_root
        (if is_empty dir_root then url_root else dir_root) f.root_entries h)
