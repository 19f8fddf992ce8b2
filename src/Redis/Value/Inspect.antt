-- ===== src/Redis/Value/Inspect.antt =====
-- How a value is shown.
use da4qi.Base.{ℕ, ◌∷◌, ◌++◌, [], append-nil, append_assoc, false, ◌≡◌, refl, ap, ◌∙◌, Bytes, codes}
use da4qi.Redis.Value.{
  RedisValue, redis_value, array, Values, nil, cons, close_with, inspect, inspect_items,
}

-- The elements' texts with `", "` between them.
pub joined : Values → Bytes
joined nil = []
joined (cons v nil) = inspect v
joined (cons v (cons w vs)) = inspect v ++ codes ", " ++ joined (cons w vs)

close_with-append : (c x y : ℕ) (s : Bytes) → close_with c (s ++ x ∷ y ∷ []) ≡ s ++ c ∷ []
close_with-append c x y [] = refl
close_with-append c x y (a ∷ []) = refl
close_with-append c x y (a ∷ b ∷ []) = refl
close_with-append c x y (a ∷ b ∷ d ∷ s) = ap (◌∷◌ a) (close_with-append c x y (b ∷ d ∷ s))

inspect_items-joined :
    (v : RedisValue) (vs : Values) → inspect_items (cons v vs) ≡ joined (cons v vs) ++ codes ", "
unfolding inspect joined
inspect_items-joined v nil = append-nil (inspect v ++ codes ", ")
inspect_items-joined v (cons w vs) = simp (inspect_items-joined w vs, append_assoc)

-- An array is shown as its elements between brackets, with a comma and a space between them: the
-- separator behind the last element is overwritten by the bracket.
pub inspect-joined :
    (vs : Values) → inspect (redis_value (array vs) false) ≡ codes "[" ++ joined vs ++ codes "]"
unfolding inspect joined
inspect-joined nil = refl
inspect-joined (cons v vs) =
    ap (λ s. close_with b']' (b'[' ∷ s)) (inspect_items-joined v vs)
    ∙ close_with-append b']' b',' b' ' (b'[' ∷ joined (cons v vs))
