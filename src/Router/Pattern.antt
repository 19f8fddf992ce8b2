-- ===== src/Router/Pattern.antt =====
-- router.cpp, to_parameter_pattern, on matchers written from characters and parameters.
use da4qi.Base.{
  ℕ, suc, zero, ◌<◌, List, [], ◌∷◌, ◌++◌, true, false, Option, none, some, ◌==◌, Bytes, All, codes,
  length, length-append, is_empty, ◌≡◌, refl, ap, ◌∙◌, arith,
}
use da4qi.Router.Regex.{
  is_word, word, closing, parameter, pattern_loop, all_named, replaceable, to_parameter_pattern,
}

-- A character that opens no parameter, or a parameter with its name.
pub data Piece : Type 0 where
  literal : ℕ → Piece
  named : Bytes → Piece

abbrev pub written : List Piece → Bytes
written [] = []
written (literal c ∷ ps) = c ∷ written ps
written (named name ∷ ps) = 123 ∷ 123 ∷ (name ++ 125 ∷ 125 ∷ written ps)

abbrev pub pattern_of : List Piece → Bytes
pattern_of [] = []
pattern_of (literal c ∷ ps) = c ∷ pattern_of ps
pattern_of (named name ∷ ps) = codes "(\\w*)" ++ pattern_of ps

abbrev pub names_of : List Piece → List Bytes
names_of [] = []
names_of (literal c ∷ ps) = names_of ps
names_of (named name ∷ ps) = name ∷ names_of ps

-- No `{` outside of the parameters, and names of word characters, one at least.
abbrev pub IsPlainPiece : Piece → Type 0
IsPlainPiece (literal c) = (c == 123) ≡ false
IsPlainPiece (named name) = (is_empty name ≡ false) × All (λ c. is_word c ≡ true) name

word-append :
    (name : Bytes) (d : ℕ) (s : Bytes)
    → All (λ c. is_word c ≡ true) name
    → is_word d ≡ false
    → word (name ++ d ∷ s) ≡ (name, d ∷ s)
word-append [] d s h e = rw e refl
word-append (c ∷ name) d s (w, h) e = rw (w, word-append name d s h e) refl

parameter-literal : (c : ℕ) (s : Bytes) → (c == 123) ≡ false → parameter (c ∷ s) ≡ none
parameter-literal c [] h = refl
parameter-literal c (d ∷ s) h = rw h refl

parameter-named :
    (name s : Bytes)
    → All (λ c. is_word c ≡ true) name
    → parameter (123 ∷ 123 ∷ (name ++ 125 ∷ 125 ∷ s)) ≡ some (name, s)
parameter-named name s h = ap closing (word-append name 125 (125 ∷ s) h refl)

-- A step of the loop at `c`, once it is known whether a parameter begins there.
abbrev step : ℕ → ℕ → Bytes → Option (Bytes × Bytes) → Bytes × List Bytes
step fuel c s (some (name, rest)) =
    let (p, names) = pattern_loop fuel rest in (codes "(\\w*)" ++ p, name ∷ names)
step fuel c s none = let (p, names) = pattern_loop fuel s in (c ∷ p, names)

pattern_loop-step :
    (fuel c : ℕ) (s : Bytes) → pattern_loop (suc fuel) (c ∷ s) ≡ step fuel c s (parameter (c ∷ s))
unfolding pattern_loop
pattern_loop-step fuel c s =
    elim (parameter (c ∷ s))
      as (λ o.
        elim o [
          | some (name, rest) ↦
              (let (p, names) = pattern_loop fuel rest in (codes "(\\w*)" ++ p, name ∷ names))
          | none ↦ (let (p, names) = pattern_loop fuel s in (c ∷ p, names))
        ]
        ≡ step fuel c s o) [ none ↦ refl | some r ↦ refl ]

pattern_loop-written :
    (ps : List Piece) (fuel : ℕ)
    → length (written ps) < fuel
    → All IsPlainPiece ps
    → pattern_loop fuel (written ps) ≡ (pattern_of ps, names_of ps)
pattern_loop-written ps zero enough h = absurd (omega arith)
pattern_loop-written [] (suc fuel) enough h = unfold pattern_loop in refl
pattern_loop-written (literal c ∷ ps) (suc fuel) enough (p, h) =
    pattern_loop-step fuel c (written ps)
    ∙ ap (step fuel c (written ps)) (parameter-literal c (written ps) p)
    ∙ ap (λ r. (c ∷ r.0, r.1)) (pattern_loop-written ps fuel (omega arith) h)
pattern_loop-written (named name ∷ ps) (suc fuel) enough (p, h) =
    pattern_loop-step fuel 123 (123 ∷ (name ++ 125 ∷ 125 ∷ written ps))
    ∙ ap (step fuel 123 (123 ∷ (name ++ 125 ∷ 125 ∷ written ps)))
        (parameter-named name (written ps) p.1)
    ∙ ap (λ r. (codes "(\\w*)" ++ r.0, name ∷ r.1))
        (pattern_loop-written ps fuel (omega (arith, length-append name (125 ∷ 125 ∷ written ps)))
          h)

all_named-names_of : (ps : List Piece) → All IsPlainPiece ps → all_named (names_of ps) ≡ true
all_named-names_of [] h = refl
all_named-names_of (literal c ∷ ps) (p, h) = all_named-names_of ps h
all_named-names_of (named name ∷ ps) (p, h) = rw (p.0, all_named-names_of ps h) refl

replaceable-names_of : (ps : List Piece) → All IsPlainPiece ps → replaceable (names_of ps) ≡ true
replaceable-names_of [] h = refl
replaceable-names_of (literal c ∷ ps) (p, h) = replaceable-names_of ps h
replaceable-names_of (named name ∷ ps) (p, h) = all_named-names_of ps h

-- A matcher that is written from characters other than `{` and parameters `{{name}}`, each with a name,
-- becomes the pattern with a group in the place of each parameter, and the names come in their order.
pub to_parameter_pattern-written :
    (ps : List Piece)
    → All IsPlainPiece ps
    → to_parameter_pattern (written ps) ≡ some (pattern_of ps, names_of ps)
unfolding to_parameter_pattern
to_parameter_pattern-written ps h =
    rw
      (
        pattern_loop-written ps (suc (length (written ps))) (omega arith) h,
        replaceable-names_of ps h,
      )
      refl
