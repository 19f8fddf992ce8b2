-- ===== src/Tests/Context.antt =====
-- The chain of intercepters.
use da4qi.Base.{ℕ, [], ◌∷◌, ◌==◌, if◌then◌else◌, ◌≡◌, arith}
use da4qi.Application.Intercepter.{
  Result, pass, stop, request, Call, intercept, end_request, start, run,
}
use da4qi.Application.Intercepter.Order.{tour, onto, run-start}

-- The second of three intercepters stops the request.
decide : Call ℕ → Result
decide (intercept a request) = if a == 2 then stop else pass
decide _ = pass

run-start_example :
    (run decide 7 (start (1 ∷ 2 ∷ 3 ∷ []))).calls
    ≡ end_request ∷ onto (tour decide (1 ∷ 2 ∷ 3 ∷ [])).0 []
run-start_example = run-start decide (1 ∷ 2 ∷ 3 ∷ []) 7 (omega arith)
