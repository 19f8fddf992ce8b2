-- ===== src/Application/Dispatch.antt =====
-- application.cpp: AddHandler, find_handler and do_handle. The handlers are of a type `H` of which
-- `callable` says which ones hold a function; a call of a handler is its being the answer. Of the
-- context the model has what these functions change.
use da4qi.Base.{
  ℕ, suc, zero, ◌-◌, List, [], ◌∷◌, Bool, true, false, not, ◌||◌, Option, none, some, if◌then◌else◌,
  Bytes, codes, is_empty, length, take, drop,
}
use da4qi.Router.Order.{Algorithms, iless_desc, lexicographical_compare}
use da4qi.Router.Map.{insert}
use da4qi.Router.Methods.{
  HandlerMethod, unsupport, LlhttpMethod, from_http_method, Mark, same_method,
}
use da4qi.Router.Table.{Table, Imp, map_imp, add, add_methods, equals_match, starts_match, is_some}
use da4qi.Router.Regex.{Engine, RegexItem, regex_imp, regex_match}
use da4qi.Application.Url.{join_url_path}

pub record Application (P : Type 0) (H : Type 0) : Type 0 where
  pub is_running : Bool
  pub root_url : Bytes
  pub equal_router : Table H
  pub startwiths_router : Table H
  pub regex_router : List (RegexItem P H)

pub record Request : Type 0 where
  pub method : LlhttpMethod
  pub path : Bytes

pub record Context : Type 0 where
  pub template_name : Bytes
  pub path_parameters : List (Bytes × Bytes)

-- RoutingPathParameters::InitParameters.
abbrev init_parameters : List Bytes → List Bytes → List (Bytes × Bytes) → List (Bytes × Bytes)
init_parameters [] values m = m
init_parameters (n ∷ names) [] m = init_parameters names [] (insert lexicographical_compare n [] m)
init_parameters (n ∷ names) (v ∷ values) m =
    init_parameters names values (insert lexicographical_compare n v m)

-- What find_handler gives: the handler, the two flags and the context.
pub record Found (H : Type 0) : Type 0 where
  pub handler : Option H
  pub url_exists : Bool
  pub unsupport_method : Bool
  pub context : Context

-- `AddHandler` and `Add` take one method or a set of them.
pub data Methods : Type 0 where
  one : HandlerMethod → Methods
  several : Mark → Methods

unfoldable pub add_to :
    {T H : Type 0} → Imp T H → Bool → Bytes → Methods → H → Bytes → T → T × Option Bytes
add_to imp auto url (one m) h t table = add imp auto url m h t table
add_to imp auto url (several ms) h t table = add_methods imp auto url ms h t table

-- How a request is answered: by a handler, or by one of the two pages for errors.
pub data Answer (H : Type 0) : Type 0 where
  handled : H → Context → Answer H
  not_implemented : Context → Answer H
  without_data : Context → Answer H

module _ (B : Algorithms) {P : Type 0} (E : Engine P) {H : Type 0} where
  -- `AddHandler` for the three kinds of routers: the application and the value returned.
  unfoldable pub add_equals : Methods → Bytes → H → Bytes → Application P H → Application P H × Bool
  add_equals ms url h t app =
      let (table, error) =
        add_to (map_imp B.iless) true (join_url_path app.root_url url) ms h t app.equal_router in
      if app.is_running
      then (app, false)
      else (record app { equal_router = table }, not (is_some error))

  unfoldable pub add_starts : Methods → Bytes → H → Bytes → Application P H → Application P H × Bool
  add_starts ms url h t app =
      let (table, error) =
        add_to (map_imp (iless_desc B)) false (join_url_path app.root_url url) ms h t
          app.startwiths_router in
      if app.is_running
      then (app, false)
      else (record app { startwiths_router = table }, not (is_some error))

  unfoldable pub add_regex : Methods → Bytes → H → Bytes → Application P H → Application P H × Bool
  add_regex ms url h t app =
      let (table, error) =
        add_to (regex_imp E) false (join_url_path app.root_url url) ms h t app.regex_router in
      if app.is_running
      then (app, false)
      else (record app { regex_router = table }, not (is_some error))

  -- The three searches, each tried where the one before has no handler.
  try_regex : Bytes → HandlerMethod → Bool → Context → Application P H → Found H
  try_regex url m url_exists ctx app =
      let (rrr, url_exists') = regex_match E url m url_exists app.regex_router in
      record {
        handler = rrr.base.handler;
        url_exists = url_exists';
        unsupport_method = false;
        context =
            (if is_some rrr.base.handler
              then record ctx {
                template_name = rrr.base.template_name;
                path_parameters = init_parameters rrr.parameters rrr.values [];
              }
              else ctx);
      }

  try_starts : Bytes → HandlerMethod → Bool → Context → Application P H → Found H
  unfolding try_regex
  try_starts url m url_exists ctx app =
      let (srr, key, url_exists') = starts_match B url m url_exists app.startwiths_router in
      let next = try_regex url m url_exists' ctx app in
      if is_some srr.handler
      then record {
        handler = srr.handler;
        url_exists = url_exists';
        unsupport_method = false;
        context = record ctx {
          template_name = srr.template_name;
          path_parameters = init_parameters ([] ∷ []) (drop (length key) url ∷ []) [];
        };
      }
      else next

  try_equals : Bytes → HandlerMethod → Context → Application P H → Found H
  unfolding try_starts
  try_equals url m ctx app =
      let (rr, url_exists) = equals_match B url m app.equal_router in
      let next = try_starts url m url_exists ctx app in
      if is_some rr.handler
      then record {
        handler = rr.handler;
        url_exists = url_exists;
        unsupport_method = false;
        context = record ctx { template_name = rr.template_name };
      }
      else next

  -- The flags are false before the first call, and a second call is made only if they still are.
  unfoldable pub find_handler : Request → Bytes → Context → Application P H → Found H
  unfolding try_equals from_http_method
  find_handler req retry_path ctx app =
      let m = from_http_method req.method in
      let url = if is_empty retry_path then req.path else retry_path in
      if same_method m unsupport
      then record {
        handler = none;
        url_exists = false;
        unsupport_method = true;
        context = record ctx { template_name = [] };
      }
      else try_equals url m ctx app

  module _ (callable : H → Bool) (req : Request) (app : Application P H) where
    -- `h && *h`.
    abbrev pub ready : Option H → Bool
    ready none = false
    ready (some h) = callable h

    abbrev pub index_path : Bool
    index_path = B.ends_with req.path (codes "/index")

    -- The path without `index` at its end.
    abbrev pub try_path : Bytes
    try_path = take (length req.path - 5) req.path

    abbrev pub answer_with : Option H → Context → Answer H
    answer_with none ctx = without_data ctx
    answer_with (some h) ctx = handled h ctx

    -- The loop of do_handle; `none` when the rounds do not suffice.
    unfoldable pub handle_loop : ℕ → Bool → Found H → Option (Answer H)
    unfolding find_handler
    handle_loop zero retring f = none
    handle_loop (suc fuel) retring f =
        let next = if index_path then find_handler req try_path f.context app else f in
        let rest = handle_loop fuel true next in
        if ready f.handler
        then some (answer_with f.handler f.context)
        else if f.url_exists || f.unsupport_method
        then some (not_implemented f.context)
        else if retring
        then some (without_data f.context)
        else rest

    -- It ends in the second round at the latest.
    unfoldable pub do_handle : Context → Option (Answer H)
    unfolding handle_loop
    do_handle ctx = handle_loop 2 false (find_handler req [] ctx app)
