-- ===== src/Application/Answers.antt =====
-- application.cpp: what a request is answered.
use da4qi.Base.{
  ℕ, suc, [], Bool, true, false, Bool-cases, ◌||◌, none, some, Option-cases, if◌then◌else◌, Bytes,
  ◌≡◌, refl, ap, sym, ◌∙◌, arith, inl, inr,
}
use da4qi.Router.Order.{Algorithms, iless-IsStrictWeakOrder}
use da4qi.Router.Methods.{unsupport, from_http_method, Mark, is_set, IsPlain, same_method}
use da4qi.Router.Table.{equals_match}
use da4qi.Router.Regex.{Engine}
use da4qi.Router.Add.{handler_at, handler_at-add_methods}
use da4qi.Application.Url.{join_url_path}
use da4qi.Application.Dispatch.{
  Application, Request, Context, Found, several, Answer, handled, not_implemented, without_data,
  add_to, add_equals, find_handler, index_path, try_path, handle_loop, do_handle,
}

module _ (B : Algorithms) {P : Type 0} (E : Engine P) {H : Type 0} (callable : H → Bool)
    (req : Request) (app : Application P H) where
  -- The answer, said without a loop: a handler that was found; else the page for what is not
  -- implemented, if the path or the method is the reason; else `other`.
  abbrev pub answer_or : Found H → Answer H → Answer H
  answer_or f other = elim f.handler [
    | none ↦ if f.url_exists || f.unsupport_method then not_implemented f.context else other
    | some h ↦
        if callable h
        then handled h f.context
        else if f.url_exists || f.unsupport_method
        then not_implemented f.context
        else other
  ]

  second_round :
      (n : ℕ) (f : Found H)
      → handle_loop B E callable req app (suc n) true f
        ≡ some (answer_or f (without_data f.context))
  unfolding handle_loop
  second_round n f = elim (Option-cases f.handler) [
    | inl e ↦ ground arith
    | inr (h, e) ↦ ground arith
  ]

  -- A round that is not the last one.
  first_round :
      (n : ℕ) (f g : Found H) (r : Answer H)
      → (if index_path B E callable req app
          then find_handler B E req (try_path B E callable req app) f.context app
          else f)
        ≡ g
      → handle_loop B E callable req app n true g ≡ some r
      → handle_loop B E callable req app (suc n) false f ≡ some (answer_or f r)
  unfolding handle_loop
  first_round n f g r next h =
      let later = ap (handle_loop B E callable req app n true) next ∙ h in
      elim (Option-cases f.handler) [ inl e ↦ ground arith | inr (x, e) ↦ ground arith ]

  answer_or_twice : (f : Found H) (r : Answer H) → answer_or f (answer_or f r) ≡ answer_or f r
  answer_or_twice f r = elim (Option-cases f.handler) [
    | inl e ↦ ground arith
    | inr (x, e) ↦ ground arith
  ]

  -- Each request is answered: by the handler of its path; else, if the path ends with `/index`, by the
  -- handler of the path without `index`; else by a page, the one for what is not implemented when the
  -- path that was searched last exists or the method is unknown.
  pub do_handle-answer :
      (ctx : Context)
      → let first = find_handler B E req [] ctx app in
        let second = find_handler B E req (try_path B E callable req app) first.context app in
        do_handle B E callable req app ctx
        ≡ some (
            answer_or first (
              if index_path B E callable req app
              then answer_or second (without_data second.context)
              else without_data first.context))
  unfolding do_handle
  do_handle-answer ctx =
      let first = find_handler B E req [] ctx app in
      let second = find_handler B E req (try_path B E callable req app) first.context app in
      elim (Bool-cases (index_path B E callable req app)) [
        | inl index ↦
            first_round 1 first second (answer_or second (without_data second.context))
              (ap (λ b. if b then second else first) index) (second_round 0 second)
            ∙ ap
                (λ b. some (
                  answer_or first (
                    if b
                    then answer_or second (without_data second.context)
                    else without_data first.context)))
                (sym index)
        | inr other ↦
            first_round 1 first first (answer_or first (without_data first.context))
              (ap (λ b. if b then second else first) other) (second_round 0 first)
            ∙ ap some (answer_or_twice first (without_data first.context))
            ∙ ap
                (λ b. some (
                  answer_or first (
                    if b
                    then answer_or second (without_data second.context)
                    else without_data first.context)))
                (sym other)
      ]

module _ (B : Algorithms) {P : Type 0} (E : Engine P) {H : Type 0} (callable : H → Bool)
    (req : Request) (app : Application P H) where
  -- A handler that the first router has is found there, whatever the other routers have.
  find_handler-equals :
      (h : H) (ctx : Context)
      → IsPlain (from_http_method req.method)
      → handler_at B.iless req.path (from_http_method req.method) app.equal_router ≡ some h
      → (find_handler B E req [] ctx app).handler ≡ some h
  unfolding find_handler handler_at equals_match
  find_handler-equals h ctx plain e =
      let supported : same_method (from_http_method req.method) unsupport ≡ false = ground arith in
      rw supported (rw e refl)

  do_handle-found :
      (h : H) (ctx : Context)
      → callable h ≡ true
      → (find_handler B E req [] ctx app).handler ≡ some h
      → do_handle B E callable req app ctx
        ≡ some (handled h (find_handler B E req [] ctx app).context)
  unfolding do_handle handle_loop
  do_handle-found h ctx works e = ground arith

registered_lem :
    (B : Algorithms) {P : Type 0} (E : Engine P) {H : Type 0} (req : Request)
    (app : Application P H) (ms : Mark) (url : Bytes) (h : H) (t : Bytes)
    → app.is_running ≡ false
    → IsPlain (from_http_method req.method)
    → is_set ms (from_http_method req.method) ≡ true
    → req.path ≡ join_url_path app.root_url url
    → handler_at B.iless req.path
        (from_http_method req.method)
        (add_equals B E (several ms) url h t app).0.equal_router
      ≡ some h
unfolding add_equals add_to
registered_lem B E req app ms url h t idle plain marked' path =
    rw (idle, path)
      (handler_at-add_methods B.iless (iless-IsStrictWeakOrder B) true
          (join_url_path app.root_url url) ms h t app.equal_router (from_http_method req.method)
          plain
        ∙ ap
            (λ b.
              if b
              then some h
              else handler_at B.iless (join_url_path app.root_url url) (from_http_method req.method)
                  app.equal_router)
            marked')

-- Once a handler that holds a function is registered for a path and a set of methods, while the
-- application does not run, a request for the path with one of these methods is answered by it,
-- whatever was registered before.
pub do_handle-add_equals :
    (B : Algorithms) {P : Type 0} (E : Engine P) {H : Type 0} (callable : H → Bool) (req : Request)
    (app : Application P H) (ms : Mark) (url : Bytes) (h : H) (t : Bytes) (ctx : Context)
    → app.is_running ≡ false
    → IsPlain (from_http_method req.method)
    → is_set ms (from_http_method req.method) ≡ true
    → req.path ≡ join_url_path app.root_url url
    → callable h ≡ true
    → (c : Context) × (do_handle B E callable req (add_equals B E (several ms) url h t app).0 ctx
        ≡ some (handled h c))
do_handle-add_equals B E callable req app ms url h t ctx idle plain marked' path works =
    let app' = (add_equals B E (several ms) url h t app).0 in
    let registered : handler_at B.iless req.path (from_http_method req.method) app'.equal_router
        ≡ some h =
      registered_lem B E req app ms url h t idle plain marked' path in
    (
      (find_handler B E req [] ctx app').context,
      do_handle-found B E callable req app' h ctx works
          (find_handler-equals B E callable req app' h ctx plain registered),
    )
