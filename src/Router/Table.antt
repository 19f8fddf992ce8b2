-- ===== src/Router/Table.antt =====
-- router.hpp and router.cpp: the three routing tables. `H` is the type of the handlers. The pattern
-- engine (std::regex) and Boost's comparisons are parameters.
use da4qi.Base.{
  List, [], ◌∷◌, ◌++◌, Bool, true, false, ◌&&◌, Option, none, some, if◌then◌else◌, ◌==◌, Bytes,
  codes, is_empty,
}
use da4qi.Router.Order.{Algorithms}
use da4qi.Router.Map.{insert, find, modify, assign}
use da4qi.Router.Methods.{HandlerMethod, delete, get, head, post, put, less_method, Mark}

pub record RouterItem (H : Type 0) : Type 0 where
  pub handlers : List (HandlerMethod × H)
  pub template_name : Bytes

pub record RouterResult (H : Type 0) : Type 0 where
  pub handler : Option H
  pub template_name : Bytes
  pub error : Bytes

abbrev pub no_result : {H : Type 0} → RouterResult H
no_result = record { handler = none; template_name = []; error = [] }

-- The constructor from an item, which may be absent, and a method.
unfoldable pub router_result : {H : Type 0} → Option (RouterItem H) → HandlerMethod → RouterResult H
router_result none method = no_result
router_result (some item) method = record {
  handler = find less_method method item.handlers;
  template_name = item.template_name;
  error = [];
}

-- What `RoutingTable` asks of a table. `insert` may fail with an error.
pub record Imp (T : Type 0) (H : Type 0) : Type 0 where
  pub exists : Bytes → T → Bool
  pub update : Bytes → (RouterItem H → RouterItem H) → T → T
  pub insert : Bytes → RouterItem H → T → T × Option Bytes

-- Whether the last character is a slash.
abbrev pub ends_with_slash : Bytes → Bool
ends_with_slash [] = false
ends_with_slash (c ∷ []) = c == 47
ends_with_slash (c ∷ d ∷ s) = ends_with_slash (d ∷ s)

-- The item for a new matcher.
abbrev pub new_item : {H : Type 0} → Bool → Bytes → HandlerMethod → H → Bytes → RouterItem H
new_item auto url method handler template =
    let made = if is_empty template && auto then url else template in
    record {
      handlers = (method, handler) ∷ [];
      template_name = (if ends_with_slash made then made ++ codes "index" else made);
    }

abbrev pub set_handler : {H : Type 0} → HandlerMethod → H → RouterItem H → RouterItem H
set_handler method handler item = record item {
  handlers = assign less_method method handler item.handlers;
}

-- `RoutingTable::Add`: the table and the error with which it fails. `auto` is the template parameter
-- `try_auto_make_template_name`.
unfoldable pub add :
    {T H : Type 0} → Imp T H → Bool → Bytes → HandlerMethod → H → Bytes → T → T × Option Bytes
add imp auto url method handler template t =
    if imp.exists url t
    then (imp.update url (set_handler method handler) t, none)
    else imp.insert url (new_item auto url method handler template) t

-- The loop over the bits of `methods`.
abbrev pub marked : Mark → List (Bool × HandlerMethod)
marked k =
    (k.bit_0, delete) ∷ (k.bit_1, get) ∷ (k.bit_2, head) ∷ (k.bit_3, post) ∷ (k.bit_4, put) ∷ []

-- `return false` where the call before has failed.
abbrev pub unless_failed : {T : Type 0} → Option Bytes → T → T × Option Bytes → T × Option Bytes
unless_failed none t rest = rest
unless_failed (some error) t rest = (t, some error)

abbrev pub add_each :
    {T H : Type 0}
    → Imp T H
    → Bool
    → List (Bool × HandlerMethod)
    → Bytes
    → H
    → Bytes
    → T
    → T × Option Bytes
add_each imp auto [] url handler template t = (t, none)
add_each imp auto ((false, m) ∷ ms) url handler template t =
    add_each imp auto ms url handler template t
add_each imp auto ((true, m) ∷ ms) url handler template t =
    let p_template_name = if is_empty template then url else template in
    let (t', e) = add imp auto url m handler p_template_name t in
    let rest = add_each imp auto ms url handler template t' in unless_failed e t' rest

unfoldable pub add_methods :
    {T H : Type 0} → Imp T H → Bool → Bytes → Mark → H → Bytes → T → T × Option Bytes
unfolding add
add_methods imp auto url methods handler template t =
    add_each imp auto (marked methods) url handler template t

-- The tables of the two first kinds are maps that differ in their comparison.
abbrev pub Table : Type 0 → Type 0
Table H = List (Bytes × RouterItem H)

abbrev pub is_some {ℓ} : {A : Type ℓ} → Option A → Bool
is_some none = false
is_some (some a) = true

unfoldable pub map_imp : {H : Type 0} → (Bytes → Bytes → Bool) → Imp (Table H) H
map_imp less = record {
  exists = λ url t. is_some (find less url t);
  update = λ url f t. modify less url f t;
  insert = λ url item t. (insert less url item t, none);
}

-- A match gives the result and `url_exists` as it leaves it.
module _ (B : Algorithms) {H : Type 0} where
  unfoldable pub equals_match : Bytes → HandlerMethod → Table H → RouterResult H × Bool
  unfolding router_result find
  equals_match url method t =
      let item = find B.iless url t in (router_result item method, is_some item)

  -- StartsRouterResult: the result and its key.
  unfoldable pub starts_match :
      Bytes → HandlerMethod → Bool → Table H → RouterResult H × Bytes × Bool
  unfolding router_result
  starts_match url method url_exists [] = (no_result, [], url_exists)
  starts_match url method url_exists ((key, item) ∷ t) =
      let rest = starts_match url method url_exists t in
      if B.istarts_with url key then (router_result (some item) method, key, true) else rest
