-- ===== src/Utilities/Parameters/Written.antt =====
-- Names and values as they are written: texts without separators and spaces.
use da4qi.Base.{
  ℕ, List, [], ◌∷◌, ◌++◌, append-nil, true, false, ◌==◌, Bytes, All, ◌≡◌, sym, ap, ◌∙◌, arith,
}
use da4qi.Utilities.Http.Encoded.{is_encoded}
use da4qi.Utilities.Strings.{StringAlgorithms, IsFree}

abbrev pub pair_text : Bytes → Bytes → Bytes
pair_text k v = k ++ b'=' ∷ v

pub All-each {ℓ κ κ'} :
    {A : Type ℓ} {P : A → Type κ} {Q : A → Type κ'}
    → ((a : A) → P a → Q a)
    → (xs : List A) → All P xs
    → All Q xs
All-each f [] h = tt
All-each f (x ∷ xs) (h, hs) = (f x h, All-each f xs hs)

module _ (B : StringAlgorithms) where
  -- A text without the separator, equals signs and spaces.
  abbrev pub IsToken : ℕ → Bytes → Type 0
  IsToken c = All (λ x. ((x == c) ≡ false) × ((x == b'=') ≡ false) × (B.is_space x ≡ false))

  abbrev pub AreTokens : ℕ → Bytes × Bytes → Type 0
  AreTokens c (k, v) = IsToken c k × IsToken c v

  pub no_separator : (c : ℕ) (s : Bytes) → IsToken c s → IsFree c s
  no_separator c = All-each (λ x (h, _, _). h)

  pub no_equals : (c : ℕ) (s : Bytes) → IsToken c s → IsFree b'=' s
  no_equals c = All-each (λ x (_, h, _). h)

  pub no_space : (c : ℕ) (s : Bytes) → IsToken c s → All (λ x. B.is_space x ≡ false) s
  no_space c = All-each (λ x (_, _, h). h)

  -- Splitting at the equals sign of a pair gives the name and the value.
  pub split-pair_text :
      (k v : Bytes) → IsFree b'=' k → IsFree b'=' v → B.split b'=' (pair_text k v) ≡ k ∷ v ∷ []
  split-pair_text k v free_k free_v = B.split_law b'=' k (v ∷ []) (free_k, (free_v, tt))

  pub trim-plain : (s : Bytes) → All (λ x. B.is_space x ≡ false) s → B.trim s ≡ s
  trim-plain s h = ap B.trim (sym (append-nil s)) ∙ B.trim_law [] s [] tt h tt

  pub trim-after_space : (s : Bytes) → All (λ x. B.is_space x ≡ false) s → B.trim (b' ' ∷ s) ≡ s
  trim-after_space s h =
      ap (λ t. B.trim (b' ' ∷ t)) (sym (append-nil s))
      ∙ B.trim_law (b' ' ∷ []) s [] (B.space_law, tt) h tt

  pub encoded_no_space :
      (s : Bytes) → All (λ x. is_encoded x ≡ true) s → All (λ x. B.is_space x ≡ false) s
  encoded_no_space = All-each (λ x h. B.graphic_law x (ground arith) (ground arith))

pub encoded_no_equals : (s : Bytes) → All (λ x. is_encoded x ≡ true) s → IsFree b'=' s
encoded_no_equals = All-each (λ x h. ground arith)

pub encoded_no_and : (s : Bytes) → All (λ x. is_encoded x ≡ true) s → IsFree b'&' s
encoded_no_and = All-each (λ x h. ground arith)
