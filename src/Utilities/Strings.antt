-- ===== src/Utilities/Strings.antt =====
-- string_utilities.cpp: Split and the trimming of strings. Boost's `split` and its trimming are a
-- parameter, with what Boost's documentation says of them in one locale.
use da4qi.Base.{◌<◌, ℕ, List, [], ◌∷◌, ◌++◌, map, Bool, true, false, ◌==◌, Bytes, All, ◌≡◌}

-- No character of the text is `c`.
abbrev pub IsFree : ℕ → Bytes → Type 0
IsFree c = All (λ x. (x == c) ≡ false)

-- Parts with a separator between each two.
abbrev pub joined : ℕ → Bytes → List Bytes → Bytes
joined c part [] = part
joined c part (next ∷ parts) = part ++ c ∷ joined c next parts

-- boost::algorithm: `split` with `is_any_of` on one character, and the trims with `is_space`.
pub record StringAlgorithms : Type 0 where
  pub is_space : ℕ → Bool
  pub split : ℕ → Bytes → List Bytes
  pub trim : Bytes → Bytes
  pub trim_left : Bytes → Bytes
  pub trim_right : Bytes → Bytes
  pub space_law : is_space b' ' ≡ true
  pub graphic_law : (x : ℕ) → 32 < x → x < 127 → is_space x ≡ false
  pub split_law :
      (c : ℕ) (part : Bytes) (parts : List Bytes)
      → All (IsFree c) (part ∷ parts)
      → split c (joined c part parts) ≡ part ∷ parts
  pub trim_law :
      (left text right : Bytes)
      → All (λ x. is_space x ≡ true) left
      → All (λ x. is_space x ≡ false) text
      → All (λ x. is_space x ≡ true) right
      → trim (left ++ text ++ right) ≡ text

pub data TrimOptions : Type 0 where
  keep_space trim_all trim_left trim_right : TrimOptions

module _ (B : StringAlgorithms) where
  unfoldable pub trim_on_options : TrimOptions → Bytes → Bytes
  trim_on_options trim_all m = B.trim m
  trim_on_options trim_left m = B.trim_left m
  trim_on_options trim_right m = B.trim_right m
  trim_on_options keep_space m = m

  unfoldable pub split : Bytes → ℕ → TrimOptions → List Bytes
  unfolding trim_on_options
  split m c keep_space = B.split c m
  split m c trim_all = map (trim_on_options trim_all) (B.split c m)
  split m c trim_left = map (trim_on_options trim_left) (B.split c m)
  split m c trim_right = map (trim_on_options trim_right) (B.split c m)
