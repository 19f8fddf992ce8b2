-- ===== src/Application/Intercepter/Order.antt =====
-- The order of the calls: each intercepter encloses the ones behind it and the handler.
use da4qi.Base.{
  ℕ, zero, suc, ◌+◌, ◌-◌, ◌*◌, ◌≤◌, List, [], ◌∷◌, ◌++◌, Bool, true, false, Bool-cases, some,
  if◌then◌else◌, ◌==◌, length, length-append, append-cons, append-nil, get_elem?, ◌≡◌, ◌⊎◌, refl,
  ap, ◌∙◌, arith, inl, inr,
}
use da4qi.Application.Intercepter.{
  Result, pass, stop, On, request, handle, response, Call, intercept, handle_request, end_request,
  Context, calling, call_at, do_intercepter_on_req_dir, do_intercepter_on_res_dir,
  start_intercepter_on_res_dir, next_intercepter_on_req_dir, next_intercepter_on_res_dir, next,
  start, run,
}

abbrev passes : Result → Bool
passes pass = true
passes stop = false

Result-cases : (r : Result) → (r ≡ pass) ⊎ (r ≡ stop)
Result-cases pass = inl refl
Result-cases stop = inr refl

plus-one : (n : ℕ) → n + 1 ≡ suc n
plus-one n = omega arith

length-concat {ℓ} : {B : Type ℓ} (l : List B) (x : B) → length (l ++ x ∷ []) ≡ suc (length l)
length-concat l x = omega (arith, length-append l (x ∷ []))

not_zero : (n : ℕ) → (suc n == 0) ≡ false
not_zero n = ground arith

suc-pred : (n : ℕ) → suc n - 1 ≡ n
suc-pred n = omega arith

-- Fuel for one more call for each element.
abbrev fuel_for {ℓ} : {B : Type ℓ} → List B → ℕ → ℕ
fuel_for [] k = k
fuel_for (x ∷ l) k = suc (fuel_for l k)

fuel_for_lem {ℓ} : {B : Type ℓ} (l : List B) (k : ℕ) → fuel_for l k ≡ length l + k
fuel_for_lem [] k = omega arith
fuel_for_lem (x ∷ l) k = omega (arith, fuel_for_lem l k)

fuel_for-append {ℓ} :
    {B : Type ℓ} (l m : List B) (k : ℕ) → fuel_for (l ++ m) k ≡ fuel_for l (fuel_for m k)
fuel_for-append [] m k = refl
fuel_for-append (x ∷ l) m k = ap suc (fuel_for-append l m k)

abbrev pub onto {ℓ} : {A : Type ℓ} → List A → List A → List A
onto [] m = m
onto (x ∷ l) m = onto l (x ∷ m)

onto-append {ℓ} : {B : Type ℓ} (l m n : List B) → onto (l ++ m) n ≡ onto m (onto l n)
onto-append [] m n = refl
onto-append (x ∷ l) m n = onto-append l m (x ∷ n)

module _ {ℓ} {A : Type ℓ} where
  -- A context at a position, with the calls so far, newest first.
  abbrev st : List A → ℕ → On → List (Call A) → Context A
  st chain i on h = record {
    intercepters = chain;
    intercepter_iter = i;
    intercepter_on = on;
    calls = h;
  }

  -- Where the way back goes on, or the end.
  abbrev back : Bool → List A → ℕ → ℕ → List (Call A) → Context A
  back true chain j i h = do_intercepter_on_res_dir (st chain j response h)
  back false chain j i h = st chain i response (end_request ∷ h)

  get_elem?-middle :
      (pre : List A) (a : A) (l : List A) → get_elem? (pre ++ a ∷ l) (length pre) ≡ some a
  get_elem?-middle [] a l = refl
  get_elem?-middle (x ∷ pre) a l = get_elem?-middle pre a l

  req_dir-inside :
      (pre : List A) (a : A) (l : List A) (h : List (Call A))
      → do_intercepter_on_req_dir (st (pre ++ a ∷ l) (length pre) request h)
        ≡ st (pre ++ a ∷ l) (length pre) request (intercept a request ∷ h)
  unfolding do_intercepter_on_req_dir call_at calling
  req_dir-inside pre a l h = rw (inside, call_at, get_elem?-middle pre a l) refl
    where
      inside : (length pre == length (pre ++ a ∷ l)) ≡ false
      inside = ground (arith, length-append pre (a ∷ l))

  req_dir-end :
      (pre : List A) (h : List (Call A))
      → do_intercepter_on_req_dir (st pre (length pre) request h)
        ≡ st pre (length pre) handle (handle_request ∷ h)
  unfolding do_intercepter_on_req_dir calling
  req_dir-end pre h = ground arith

  res_dir-inside :
      (pre : List A) (a : A) (l : List A) (h : List (Call A))
      → do_intercepter_on_res_dir (st (pre ++ a ∷ l) (suc (length pre)) response h)
        ≡ st (pre ++ a ∷ l) (suc (length pre)) response (intercept a response ∷ h)
  unfolding do_intercepter_on_res_dir call_at calling
  res_dir-inside pre a l h =
      rw (not_zero (length pre), suc-pred (length pre), call_at, get_elem?-middle pre a l) refl

module _ {ℓ} {A : Type ℓ} (decide : Call A → Result) where
  -- The calls for a chain, oldest first, and whether the way back goes on behind them: an
  -- intercepter that stops a request is called for the response all the same.
  abbrev pub tour : List A → List (Call A) × Bool
  tour [] = (handle_request ∷ [], passes (decide handle_request))
  tour (a ∷ l) =
      let (inner, outward) = if passes (decide (intercept a request)) then tour l else ([], true) in
      if outward
      then (
        intercept a request ∷ inner ++ intercept a response ∷ [],
        passes (decide (intercept a response)),
      )
      else (intercept a request ∷ inner, false)

  run-res_dir :
      (pre : List A) (a : A) (l : List A) (h : List (Call A)) (k : ℕ)
      → run decide
          (suc k)
          (do_intercepter_on_res_dir (st (pre ++ a ∷ l) (suc (length pre)) response h))
        ≡ run decide k (
            back
              (passes (decide (intercept a response)))
              (pre ++ a ∷ l)
              (length pre)
              (length pre)
              (intercept a response ∷ h))
  unfolding run next next_intercepter_on_res_dir start_intercepter_on_res_dir calling
  run-res_dir pre a l h k = elim (Result-cases (decide (intercept a response))) [
    | inl e ↦ rw (res_dir-inside pre a l h, e, suc-pred (length pre)) refl
    | inr e ↦ rw (res_dir-inside pre a l h, e, suc-pred (length pre)) refl
  ]

  run-pass :
      (chain : List A) (i : ℕ) (a : A) (h : List (Call A)) (k : ℕ)
      → decide (intercept a request) ≡ pass
      → run decide (suc k) (st chain i request (intercept a request ∷ h))
        ≡ run decide k
            (do_intercepter_on_req_dir (st chain (suc i) request (intercept a request ∷ h)))
  unfolding run next next_intercepter_on_req_dir
  run-pass chain i a h k e =
      ap (λ r. run decide k (next r (st chain i request (intercept a request ∷ h)))) e
      ∙ ap
          (λ n.
            run decide k (do_intercepter_on_req_dir (st chain n request (intercept a request ∷ h))))
          (plus-one i)

  run-stop :
      (chain : List A) (i : ℕ) (a : A) (h : List (Call A)) (k : ℕ)
      → decide (intercept a request) ≡ stop
      → run decide (suc k) (st chain i request (intercept a request ∷ h))
        ≡ run decide k
            (do_intercepter_on_res_dir (st chain (suc i) response (intercept a request ∷ h)))
  unfolding run next next_intercepter_on_req_dir
  run-stop chain i a h k e =
      ap (λ r. run decide k (next r (st chain i request (intercept a request ∷ h)))) e
      ∙ ap
          (λ n.
            run decide k
              (do_intercepter_on_res_dir (st chain n response (intercept a request ∷ h))))
          (plus-one i)

  -- From a position on, the calls are those of the tour of what is left of the chain.
  run-tour :
      (l pre : List A) (h : List (Call A)) (k : ℕ)
      → (i : ℕ) × (run decide
            (fuel_for (tour l).0 k)
            (do_intercepter_on_req_dir (st (pre ++ l) (length pre) request h))
          ≡ run decide k (back (tour l).1 (pre ++ l) (length pre) i (onto (tour l).0 h)))
  unfolding run next next_intercepter_on_req_dir start_intercepter_on_res_dir calling
  run-tour [] pre h k = (
    length pre,
    rw (append-nil, req_dir-end pre h)
        (elim (Result-cases (decide handle_request)) [ inl e ↦ rw e refl | inr e ↦ rw e refl ]),
  )
  run-tour (a ∷ l) pre h k = elim (Result-cases (decide (intercept a request))) [
    | inr e ↦ (
      length pre,
      rw (e, req_dir-inside pre a l h)
          (run-stop _ (length pre) a h (suc k) e ∙ run-res_dir pre a l (intercept a request ∷ h) k),
    )
    | inl e ↦ elim (Bool-cases (tour l).1) [
      | inl out ↦
          let (i, ih) = run-tour l (pre ++ a ∷ []) (intercept a request ∷ h) (suc k) in
          (
            length pre,
            rw
                (
                  e,
                  out,
                  req_dir-inside pre a l h,
                  fuel_for-append (tour l).0,
                  onto-append (tour l).0,
                )
                (run-pass _ (length pre) a h _ e
                  ∙ (rw (← append-cons pre a l, length-concat pre a, out) at ih)
                  ∙ run-res_dir pre a l (onto (tour l).0 (intercept a request ∷ h)) k),
          )
      | inr out ↦
          let (i, ih) = run-tour l (pre ++ a ∷ []) (intercept a request ∷ h) k in
          (
            i,
            rw (e, out, req_dir-inside pre a l h)
                (run-pass _ (length pre) a h _ e
                  ∙ (rw (← append-cons pre a l, length-concat pre a, out) at ih)),
          )
    ]
  ]

  length-tour : (l : List A) → length (tour l).0 ≤ 2 * length l + 1
  length-tour [] = omega arith
  length-tour (a ∷ l) =
      ground (arith, length-tour l, length-append (tour l).0 (intercept a response ∷ []))

  run_ended :
      (k : ℕ) (ctx : Context A) (h : List (Call A))
      → ctx.calls ≡ end_request ∷ h
      → run decide k ctx ≡ ctx
  unfolding run
  run_ended zero ctx h e = refl
  run_ended (suc k) ctx h e = rw e refl

  run-back :
      (b : Bool) (chain : List A) (i : ℕ) (h : List (Call A)) (k : ℕ)
      → (run decide k (back b chain 0 i h)).calls ≡ end_request ∷ h
  unfolding do_intercepter_on_res_dir calling
  run-back true chain i h k = ap (λ (c : Context A). c.calls) (run_ended k _ h refl)
  run-back false chain i h k = ap (λ (c : Context A). c.calls) (run_ended k _ h refl)

  -- Whatever the calls decide, a context that is started comes to its end: as many results as
  -- twice the chain's length and one more are enough. The calls are then those of the tour, in its
  -- order, and the end.
  pub run-start :
      (chain : List A) (fuel : ℕ)
      → 2 * length chain + 1 ≤ fuel
      → (run decide fuel (start chain)).calls ≡ end_request ∷ onto (tour chain).0 []
  unfolding start
  run-start chain fuel enough =
      let (i, e) = run-tour chain [] [] (fuel - length (tour chain).0) in
      let split : fuel ≡ fuel_for (tour chain).0 (fuel - length (tour chain).0) =
        omega
          (arith, length-tour chain, fuel_for_lem (tour chain).0 (fuel - length (tour chain).0)) in
      ap (λ n. (run decide n (start chain)).calls) split
      ∙ ap (λ (c : Context A). c.calls) e
      ∙ run-back (tour chain).1 chain i (onto (tour chain).0 []) (fuel - length (tour chain).0)
