-- ===== src/Application/Intercepter.antt =====
-- intercepter.hpp and the intercepters' part of context.cpp: Start, Pass and Stop. `_intercepter_iter`
-- is a position in the chain, and a reverse iterator made of it stands on the element before it.
-- `calls` is the history of the calls of intercepters, of the application's handler and of `end`,
-- newest first; each of them but `end` is followed by one `Pass` or `Stop`.
pub mod Order
use da4qi.Base.{
  ℕ, zero, suc, ◌+◌, ◌-◌, List, [], ◌∷◌, Option, none, some, if◌then◌else◌, ◌==◌, length, get_elem?,
}

pub data Result : Type 0 where
  pass stop : Result

pub data On : Type 0 where
  request handle response : On

-- What the context calls next.
pub data Call {ℓ} (A : Type ℓ) : Type ℓ where
  intercept : A → On → Call A
  handle_request : Call A
  end_request : Call A

pub record Context {ℓ} (A : Type ℓ) : Type ℓ where
  pub intercepters : List A
  pub intercepter_iter : ℕ
  pub intercepter_on : On
  pub calls : List (Call A)

module _ {ℓ} {A : Type ℓ} where
  pub calling : Call A → Context A → Context A
  calling call ctx = record ctx { calls = call ∷ ctx.calls }

  -- The call of the element at a position; an end is never called.
  pub call_at : ℕ → On → Context A → Context A
  unfolding calling
  call_at i on ctx = elim (get_elem? ctx.intercepters i) [
    | none ↦ ctx
    | some a ↦ calling (intercept a on) ctx
  ]

  pub do_intercepter_on_req_dir : Context A → Context A
  unfolding calling call_at
  do_intercepter_on_req_dir ctx =
      if ctx.intercepter_iter == length ctx.intercepters
      then calling handle_request (record ctx { intercepter_on = handle })
      else call_at ctx.intercepter_iter request ctx

  pub do_intercepter_on_res_dir : Context A → Context A
  unfolding calling call_at
  do_intercepter_on_res_dir ctx =
      if ctx.intercepter_iter == 0
      then calling end_request ctx
      else call_at (ctx.intercepter_iter - 1) response ctx

  pub start_intercepter_on_res_dir : Result → Context A → Context A
  unfolding do_intercepter_on_res_dir calling
  start_intercepter_on_res_dir pass ctx = do_intercepter_on_res_dir ctx
  start_intercepter_on_res_dir stop ctx = calling end_request ctx

  pub next_intercepter_on_req_dir : Result → Context A → Context A
  unfolding do_intercepter_on_req_dir do_intercepter_on_res_dir
  next_intercepter_on_req_dir pass ctx =
      do_intercepter_on_req_dir (record ctx { intercepter_iter = ctx.intercepter_iter + 1 })
  next_intercepter_on_req_dir stop ctx =
      do_intercepter_on_res_dir
        (record ctx { intercepter_iter = ctx.intercepter_iter + 1; intercepter_on = response })

  pub next_intercepter_on_res_dir : Result → Context A → Context A
  unfolding start_intercepter_on_res_dir
  next_intercepter_on_res_dir result ctx =
      start_intercepter_on_res_dir result
        (record ctx { intercepter_iter = ctx.intercepter_iter - 1 })

  unfoldable pub next : Result → Context A → Context A
  unfolding next_intercepter_on_req_dir next_intercepter_on_res_dir start_intercepter_on_res_dir
  next result ctx = elim ctx.intercepter_on [
    | request ↦ next_intercepter_on_req_dir result ctx
    | handle ↦ start_intercepter_on_res_dir result (record ctx { intercepter_on = response })
    | response ↦ next_intercepter_on_res_dir result ctx
  ]

  unfoldable pub start : List A → Context A
  unfolding do_intercepter_on_req_dir
  start chain =
      do_intercepter_on_req_dir (record {
        intercepters = chain;
        intercepter_iter = 0;
        intercepter_on = request;
        calls = [];
      })

  -- Each call decides to pass or to stop; fuel bounds the calls answered.
  unfoldable pub run : (Call A → Result) → ℕ → Context A → Context A
  unfolding next
  run decide zero ctx = ctx
  run decide (suc fuel) ctx = elim ctx.calls [
    | [] ↦ ctx
    | end_request ∷ _ ↦ ctx
    | call ∷ _ ↦ run decide fuel (next (decide call) ctx)
  ]
