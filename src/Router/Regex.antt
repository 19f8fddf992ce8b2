-- ===== src/Router/Regex.antt =====
-- router.cpp: the routing table of patterns. The engine (std::regex) is a parameter: it compiles a
-- pattern or throws, and matches a whole text, with the groups behind the first one, or throws.
use da4qi.Base.{
  ℕ, suc, zero, List, [], ◌∷◌, ◌++◌, Bool, true, false, ◌&&◌, ◌||◌, Option, none, some,
  if◌then◌else◌, not, is_empty, ◌==◌, ◌>>=◌, leb, Bytes, codes, length, ◌⊎◌, inl, inr, ◌≡◌, refl,
}
use da4qi.Router.Order.{equal}
use da4qi.Router.Methods.{HandlerMethod}
use da4qi.Router.Table.{RouterItem, RouterResult, no_result, router_result, Imp, is_some}

-- `\w`.
abbrev pub is_word : ℕ → Bool
is_word c =
    (leb 48 c && leb c 57) || ((leb 65 c && leb c 90) || ((leb 97 c && leb c 122) || (c == 95)))

-- The characters at the beginning that `\w*` takes, and the rest.
abbrev pub word : Bytes → Bytes × Bytes
word [] = ([], [])
word (c ∷ s) = let (w, rest) = word s in if is_word c then (c ∷ w, rest) else ([], c ∷ s)

-- The rest behind two characters `c`.
abbrev pub pair_of : ℕ → Bytes → Option Bytes
pair_of c (a ∷ b ∷ rest) = if (a == c) && (b == c) then some rest else none
pair_of c s = none

-- `{{\w*}}` at the beginning of a text: the name and what stands behind it.
abbrev pub closing : Bytes × Bytes → Option (Bytes × Bytes)
closing (name, s) = pair_of 125 s >>= λ rest. some (name, rest)

abbrev pub parameter : Bytes → Option (Bytes × Bytes)
parameter s = pair_of 123 s >>= λ rest. closing (word rest)

-- The loop of to_parameter_pattern together with the replacements: the pattern and the names. A step
-- takes a character or a parameter.
unfoldable pub pattern_loop : ℕ → Bytes → Bytes × List Bytes
pattern_loop zero s = ([], [])
pattern_loop (suc fuel) [] = ([], [])
pattern_loop (suc fuel) (c ∷ s) = elim (parameter (c ∷ s)) [
  | some (name, rest) ↦
      let (p, names) = pattern_loop fuel rest in (codes "(\\w*)" ++ p, name ∷ names)
  | none ↦ let (p, names) = pattern_loop fuel s in (c ∷ p, names)
]

-- Whether each parameter behind the first one has a name.
abbrev pub all_named : List Bytes → Bool
all_named [] = true
all_named (name ∷ names) = not (is_empty name) && all_named names

abbrev pub replaceable : List Bytes → Bool
replaceable [] = true
replaceable (name ∷ names) = all_named names

-- The replacements go from the last parameter to the first, through iterators that were taken before.
-- The group is not longer than a parameter with a name, and where the text does not grow, the iterators
-- in front of a replacement stay. `{{}}` makes it grow, so that the iterators of the parameters in front
-- of it are used after they may have become invalid: what follows is undefined, `none`.
unfoldable pub to_parameter_pattern : Bytes → Option (Bytes × List Bytes)
unfolding pattern_loop
to_parameter_pattern s =
    let (matcher, names) = pattern_loop (suc (length s)) s in
    if replaceable names then some (matcher, names) else none

pattern_user :
    to_parameter_pattern (codes "/u/{{id}}/{{x") ≡ some (codes "/u/(\\w*)/{{x", codes "id" ∷ [])
unfolding to_parameter_pattern
pattern_user = refl

pattern_nameless : to_parameter_pattern (codes "/{{a}}/{{}}") ≡ none
unfolding to_parameter_pattern
pattern_nameless = refl

pub record Engine (P : Type 0) : Type 0 where
  pub compile : Bytes → Bytes ⊎ P
  pub regex_match : P → Bytes → Bytes ⊎ Option (List Bytes)

pub record RegexItem (P : Type 0) (H : Type 0) : Type 0 where
  pub base : RouterItem H
  pub url_matcher : Bytes
  pub regex_matcher : Bytes
  pub regex_pattern : P
  pub parameters : List Bytes

pub record RegexResult (H : Type 0) : Type 0 where
  pub base : RouterResult H
  pub parameters : List Bytes
  pub values : List Bytes

abbrev pub no_regex_result : {H : Type 0} → RegexResult H
no_regex_result = record { base = no_result; parameters = []; values = [] }

module _ {P : Type 0} (E : Engine P) {H : Type 0} where
  regex_exists : Bytes → List (RegexItem P H) → Bool
  regex_exists url [] = false
  regex_exists url (item ∷ lst) = equal url item.url_matcher || regex_exists url lst

  regex_update : Bytes → (RouterItem H → RouterItem H) → List (RegexItem P H) → List (RegexItem P H)
  regex_update url f [] = []
  regex_update url f (item ∷ lst) =
      if equal url item.url_matcher
      then record item { base = f item.base } ∷ lst
      else item ∷ regex_update url f lst

  -- What the engine makes of the pattern.
  regex_assign :
      Bytes
      → RouterItem H
      → Bytes × List Bytes
      → List (RegexItem P H)
      → List (RegexItem P H) × Option Bytes
  regex_assign url item (matcher, names) lst = elim (E.compile matcher) [
    | inl what ↦ (lst, some what)
    | inr pattern' ↦
        let ri : RegexItem P H = record {
          base = item;
          url_matcher = url;
          regex_matcher = matcher;
          regex_pattern = pattern';
          parameters = names;
        } in
        (lst ++ ri ∷ [], none)
  ]

  -- Where the program is undefined, the model refuses the matcher, with an error of its own.
  regex_insert : Bytes → RouterItem H → List (RegexItem P H) → List (RegexItem P H) × Option Bytes
  regex_insert url item lst = elim (to_parameter_pattern url) [
    | none ↦ (lst, some (codes "undefined"))
    | some pattern' ↦ regex_assign url item pattern' lst
  ]

  unfoldable pub regex_imp : Imp (List (RegexItem P H)) H
  unfolding regex_exists regex_update regex_assign regex_insert
  regex_imp = record { exists = regex_exists; update = regex_update; insert = regex_insert }

  -- What follows when the pattern of an item matches.
  abbrev pub matched : RegexItem P H → HandlerMethod → List Bytes → RegexResult H
  matched item method groups =
      let r = router_result (some item.base) method in
      if is_some r.handler
      then record { base = r; parameters = item.parameters; values = groups }
      else no_regex_result

  unfoldable pub regex_match :
      Bytes → HandlerMethod → Bool → List (RegexItem P H) → RegexResult H × Bool
  unfolding router_result
  regex_match url method url_exists [] = (no_regex_result, url_exists)
  regex_match url method url_exists (item ∷ lst) =
      let rest = regex_match url method url_exists lst in
      elim (E.regex_match item.regex_pattern url) [
        | inl what ↦
            (record no_regex_result { base = record no_result { error = what } }, url_exists)
        | inr none ↦ rest
        | inr (some groups) ↦ (matched item method groups, true)
      ]
