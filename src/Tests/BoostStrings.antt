-- ===== src/Tests/BoostStrings.antt =====
-- Boost's splitting and trimming in the "C" locale, as concrete functions.
use da4qi.Base.{
  ℕ, ◌<◌, List, [], ◌∷◌, ◌++◌, Bool, true, false, ◌&&◌, ◌||◌, ◌==◌, leb, if◌then◌else◌, Bytes, All,
  is_empty, ◌≡◌, refl, ap, ◌∙◌, arith,
}
use da4qi.Utilities.Strings.{StringAlgorithms, IsFree, joined}

abbrev white : ℕ → Bool
white c = (leb 9 c && leb c 13) || c == b' '

abbrev onto_first : ℕ → List Bytes → List Bytes
onto_first x [] = (x ∷ []) ∷ []
onto_first x (part ∷ parts) = (x ∷ part) ∷ parts

abbrev split_at : ℕ → Bytes → List Bytes
split_at c [] = [] ∷ []
split_at c (x ∷ s) = let parts = split_at c s in if x == c then [] ∷ parts else onto_first x parts

abbrev trim_start : Bytes → Bytes
trim_start [] = []
trim_start (x ∷ s) = let rest = trim_start s in if white x then rest else x ∷ s

abbrev trim_end : Bytes → Bytes
trim_end [] = []
trim_end (x ∷ s) = let rest = trim_end s in if white x && is_empty rest then [] else x ∷ rest

split_at-last : (c : ℕ) (s : Bytes) → IsFree c s → split_at c s ≡ s ∷ []
split_at-last c [] h = refl
split_at-last c (x ∷ s) (h, hs) = rw (h, split_at-last c s hs) refl

split_at-part :
    (c : ℕ) (s rest : Bytes) → IsFree c s → split_at c (s ++ c ∷ rest) ≡ s ∷ split_at c rest
split_at-part c [] rest h =
    let same : (c == c) ≡ true = ground arith in
    ap (λ b. if b then [] ∷ split_at c rest else onto_first c (split_at c rest)) same
split_at-part c (x ∷ s) rest (h, hs) = rw (h, split_at-part c s rest hs) refl

pub split_at-joined :
    (c : ℕ) (part : Bytes) (parts : List Bytes)
    → All (IsFree c) (part ∷ parts)
    → split_at c (joined c part parts) ≡ part ∷ parts
split_at-joined c part [] (h, _) = split_at-last c part h
split_at-joined c part (next ∷ parts) (h, hs) =
    split_at-part c part (joined c next parts) h
    ∙ ap (λ l. part ∷ l) (split_at-joined c next parts hs)

trim_end-spaces : (right : Bytes) → All (λ x. white x ≡ true) right → trim_end right ≡ []
trim_end-spaces [] h = refl
trim_end-spaces (x ∷ right) (h, hs) = rw (trim_end-spaces right hs, h) refl

trim_end-text :
    (text right : Bytes)
    → All (λ x. white x ≡ false) text
    → All (λ x. white x ≡ true) right
    → trim_end (text ++ right) ≡ text
trim_end-text [] right h r = trim_end-spaces right r
trim_end-text (x ∷ text) right (h, hs) r = rw (trim_end-text text right hs r, h) refl

pub trim_both :
    (left text right : Bytes)
    → All (λ x. white x ≡ true) left
    → All (λ x. white x ≡ false) text
    → All (λ x. white x ≡ true) right
    → trim_end (trim_start (left ++ text ++ right)) ≡ text
trim_both (x ∷ left) text right (h, hs) t r = rw h (trim_both left text right hs t r)
trim_both [] (x ∷ text) right l (t, ts) r = rw t (trim_end-text (x ∷ text) right (t, ts) r)
trim_both [] [] (x ∷ right) l t (r, rs) = rw r (trim_both [] [] right tt tt rs)
trim_both [] [] [] l t r = refl

pub graphic : (x : ℕ) → 32 < x → x < 127 → white x ≡ false
graphic x h k = ground arith

abbrev pub c_strings : StringAlgorithms
c_strings = record {
  is_space = white;
  split = split_at;
  trim = λ s. trim_end (trim_start s);
  trim_left = trim_start;
  trim_right = trim_end;
  space_law = refl;
  graphic_law = graphic;
  split_law = split_at-joined;
  trim_law = trim_both;
}
