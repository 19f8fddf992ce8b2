-- ===== src/Application/Url.antt =====
-- url.cpp, JoinUrlPath.
use da4qi.Base.{
  ℕ, [], ◌∷◌, ◌++◌, append-cons, Bool, true, false, not, ◌&&◌, if◌then◌else◌, ◌==◌, ==_iff, Bytes,
  codes, drop, is_empty, ◌≡◌, refl, ap, sym, ◌∙◌, arith, Bool-cases, inl, inr,
}
use da4qi.Router.Table.{ends_with_slash}

abbrev slash : ℕ
slash = 47

abbrev begins_with_slash : Bytes → Bool
begins_with_slash [] = false
begins_with_slash (c ∷ s) = c == slash

unfoldable pub join_url_path : Bytes → Bytes → Bytes
join_url_path app_root path =
    if not (is_empty path) && not (is_empty app_root)
    then (if ends_with_slash app_root && begins_with_slash path
        then app_root ++ drop 1 path
        else if not (ends_with_slash app_root) && not (begins_with_slash path)
        then app_root ++ codes "/" ++ path
        else app_root ++ path)
    else app_root ++ path

-- A text without the slash at its end.
abbrev pub without_last_slash : Bytes → Bytes
without_last_slash [] = []
without_last_slash (c ∷ []) = if c == slash then [] else c ∷ []
without_last_slash (c ∷ d ∷ s) = c ∷ without_last_slash (d ∷ s)

abbrev pub without_first_slash : Bytes → Bytes
without_first_slash [] = []
without_first_slash (c ∷ s) = if c == slash then s else c ∷ s

without_last_slash-none : (s : Bytes) → ends_with_slash s ≡ false → without_last_slash s ≡ s
without_last_slash-none [] h = refl
without_last_slash-none (c ∷ []) h = rw h refl
without_last_slash-none (c ∷ d ∷ s) h = ap (◌∷◌ c) (without_last_slash-none (d ∷ s) h)

without_last_slash-append :
    (s : Bytes) → ends_with_slash s ≡ true → without_last_slash s ++ slash ∷ [] ≡ s
without_last_slash-append [] h = ground arith
without_last_slash-append (c ∷ []) h = rw h (ap (λ x. x ∷ []) (sym ((==_iff c slash).0 h)))
without_last_slash-append (c ∷ d ∷ s) h = ap (◌∷◌ c) (without_last_slash-append (d ∷ s) h)

-- A root and a path, neither empty, are joined by exactly one slash, whichever of them has one at the
-- joint.
pub join_url_path-slash :
    (root path : Bytes)
    → is_empty root ≡ false
    → is_empty path ≡ false
    → join_url_path root path ≡ without_last_slash root ++ codes "/" ++ without_first_slash path
unfolding join_url_path
join_url_path-slash root [] hr hp = ground arith
join_url_path-slash root (c ∷ s) hr hp = elim (Bool-cases (ends_with_slash root)) [
  | inl ends ↦ elim (Bool-cases (c == slash)) [
    | inl begins ↦
        rw (hr, ends, begins) (ap (λ r. r ++ s) (sym (without_last_slash-append root ends)))
    | inr plain ↦
        rw (hr, ends, plain) (ap (λ r. r ++ c ∷ s) (sym (without_last_slash-append root ends)))
  ]
  | inr open' ↦ elim (Bool-cases (c == slash)) [
    | inl begins ↦
        rw (hr, open', begins)
          (ap (λ x. root ++ x ∷ s) ((==_iff c slash).0 begins)
            ∙ append-cons root slash s
            ∙ ap (λ r. r ++ codes "/" ++ s) (sym (without_last_slash-none root open')))
    | inr plain ↦
        rw (hr, open', plain)
          (ap (λ r. r ++ codes "/" ++ c ∷ s) (sym (without_last_slash-none root open')))
  ]
]
