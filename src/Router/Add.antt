-- ===== src/Router/Add.antt =====
-- router.hpp, RoutingTable::Add on the two tables that are maps: what a table answers afterwards.
use da4qi.Base.{
  List, [], ◌∷◌, Bool, true, false, ◌&&◌, ◌||◌, Option, none, some, Option-cases, if◌then◌else◌,
  Bytes, is_empty, ◌≡◌, refl, ap, subst, ◌∙◌, sym, inl, inr, arith,
}
use da4qi.Router.Order.{IsStrictWeakOrder}
use da4qi.Router.Map.{
  Differ, IsSorted, find, insert, modify, assign, find-insert, find-insert_other, find-modify,
  find-modify_other, find-assign, find-assign_other, insert-IsSorted, modify-IsSorted,
}
use da4qi.Router.Methods.{
  HandlerMethod, unsupport, delete, get, head, post, put, any, less_method, same_method, Mark,
  is_set, IsPlain,
}
use da4qi.Router.Table.{
  RouterItem, router_result, Table, is_some, map_imp, set_handler, new_item, marked, add, add_each,
  unless_failed, add_methods,
}

pub less_method-IsStrictWeakOrder : IsStrictWeakOrder less_method
less_method-IsStrictWeakOrder = record {
  irrefl = λ a. ground arith;
  trans = λ a b c h k. ground arith;
  same_left = λ a b c h k. ground arith;
  same_right = λ a b c h k. ground arith;
}

-- Whether a list of marks has the method.
abbrev picks : List (Bool × HandlerMethod) → HandlerMethod → Bool
picks [] m = false
picks ((b, n) ∷ ms) m = picks ms m || (b && same_method m n)

picks-marked : (k : Mark) (m : HandlerMethod) → IsPlain m → picks (marked k) m ≡ is_set k m
unfolding is_set
picks-marked k unsupport p = absurd (omega arith)
picks-marked k any p = absurd (omega arith)
picks-marked k delete p = ground arith
picks-marked k get p = ground arith
picks-marked k head p = ground arith
picks-marked k post p = ground arith
picks-marked k put p = ground arith

-- The handler that a table has for a key and a method.
unfoldable pub handler_at :
    {H : Type 0} → (Bytes → Bytes → Bool) → Bytes → HandlerMethod → Table H → Option H
unfolding router_result find
handler_at less url m t = (router_result (find less url t) m).handler

module _ (less : Bytes → Bytes → Bool) (o : IsStrictWeakOrder less) {H : Type 0} where
  module _ (auto : Bool) (url : Bytes) (handler : H) where
    abbrev added : HandlerMethod → Bytes → Table H → Table H
    added m template t = (add (map_imp less) auto url m handler template t).0

    -- What `add` does where the key is there, and where it is not.
    abbrev outcome : HandlerMethod → Bytes → Table H → Bool → Table H × Option Bytes
    outcome m template t there =
        if there
        then (modify less url (set_handler m handler) t, none)
        else (insert less url (new_item auto url m handler template) t, none)

    added-new :
        (m : HandlerMethod) (template : Bytes) (t : Table H)
        → find less url t ≡ none
        → added m template t ≡ insert less url (new_item auto url m handler template) t
    unfolding add map_imp
    added-new m template t new = ap (λ b. (outcome m template t b).0) (ap is_some new)

    added-known :
        (m : HandlerMethod) (template : Bytes) (t : Table H) (item : RouterItem H)
        → find less url t ≡ some item
        → added m template t ≡ modify less url (set_handler m handler) t
    unfolding add map_imp
    added-known m template t item known = ap (λ b. (outcome m template t b).0) (ap is_some known)

    find-added_other :
        (m : HandlerMethod) (template : Bytes) (t : Table H) (j : Bytes)
        → Differ less j url
        → find less j (added m template t) ≡ find less j t
    find-added_other m template t j d = elim (Option-cases (find less url t)) [
      | inl new ↦
          ap (find less j) (added-new m template t new)
          ∙ find-insert_other less o url j (new_item auto url m handler template) t d
      | inr (item, known) ↦
          ap (find less j) (added-known m template t item known)
          ∙ find-modify_other less o url j (set_handler m handler) t d
    ]

    added-IsSorted :
        (m : HandlerMethod) (template : Bytes) (t : Table H)
        → IsSorted less t
        → IsSorted less (added m template t)
    added-IsSorted m template t sorted = elim (Option-cases (find less url t)) [
      | inl new ↦
          subst (IsSorted less) (sym (added-new m template t new))
            (insert-IsSorted less o url (new_item auto url m handler template) t sorted)
      | inr (item, known) ↦
          subst (IsSorted less) (sym (added-known m template t item known))
            (modify-IsSorted less o url (set_handler m handler) t sorted)
    ]

    -- The handlers of an item before and after one is set.
    find-set_handler :
        (m n : HandlerMethod) (hs : List (HandlerMethod × H))
        → find less_method n (assign less_method m handler hs)
          ≡ (if same_method n m then some handler else find less_method n hs)
    find-set_handler m n hs = ground (
      arith,
      find-assign less_method less_method-IsStrictWeakOrder m n handler hs,
      find-assign_other less_method less_method-IsStrictWeakOrder m n handler hs,
    )

    handler_at-added :
        (m n : HandlerMethod) (template : Bytes) (t : Table H)
        → handler_at less url n (added m template t)
          ≡ (if same_method n m then some handler else handler_at less url n t)
    unfolding handler_at router_result
    handler_at-added m n template t = elim (Option-cases (find less url t)) [
      | inl new ↦
          ap (λ i. (router_result i n).handler)
            (ap (find less url) (added-new m template t new)
              ∙ find-insert less o url (new_item auto url m handler template) t new)
          ∙ (ground (arith, ap (λ i. (router_result i n).handler) new))
      | inr (item, known) ↦
          ap (λ i. (router_result i n).handler)
            (ap (find less url) (added-known m template t item known)
              ∙ find-modify less o url (set_handler m handler) item t known)
          ∙ find-set_handler m n item.handlers
          ∙ ap (λ i. if same_method n m then some handler else (router_result i n).handler)
              (sym known)
    ]

    add_succeeds :
        (m : HandlerMethod) (template : Bytes) (t : Table H)
        → (add (map_imp less) auto url m handler template t).1 ≡ none
    unfolding add map_imp
    add_succeeds m template t = ground arith

    -- After the loop, each marked method has the handler and the others are as before.
    handler_at-add_each :
        (ms : List (Bool × HandlerMethod)) (n : HandlerMethod) (template : Bytes) (t : Table H)
        → handler_at less url n (add_each (map_imp less) auto ms url handler template t).0
          ≡ (if picks ms n then some handler else handler_at less url n t)
    handler_at-add_each [] n template t = refl
    handler_at-add_each ((false, m) ∷ ms) n template t =
        handler_at-add_each ms n template t ∙ ground arith
    handler_at-add_each ((true, m) ∷ ms) n template t =
        let p_template_name = if is_empty template then url else template in
        let t' = added m p_template_name t in
        ap
          (λ e.
            handler_at less url n
              (unless_failed e t' (add_each (map_imp less) auto ms url handler template t')).0)
          (add_succeeds m p_template_name t)
        ∙ handler_at-add_each ms n template t'
        ∙ ground (arith, handler_at-added m n p_template_name t)

    -- What `Add` for one method keeps, the loop keeps.
    add_each-keeps :
        (P : Table H → Type 0)
        → ((m : HandlerMethod) (template : Bytes) (t : Table H) → P t → P (added m template t))
        → (ms : List (Bool × HandlerMethod)) (template : Bytes) (t : Table H) → P t
        → P (add_each (map_imp less) auto ms url handler template t).0
    add_each-keeps P keep [] template t p = p
    add_each-keeps P keep ((false, m) ∷ ms) template t p = add_each-keeps P keep ms template t p
    add_each-keeps P keep ((true, m) ∷ ms) template t p =
        let p_template_name = if is_empty template then url else template in
        let t' = added m p_template_name t in
        subst
          (λ e. P (unless_failed e t' (add_each (map_imp less) auto ms url handler template t')).0)
          (sym (add_succeeds m p_template_name t))
          (add_each-keeps P keep ms template t' (keep m p_template_name t p))

  -- Under a comparison that orders the keys, after Add with a set of methods the path has the
  -- handler for each method of the set, and for the other methods what it had before.
  pub handler_at-add_methods :
      (auto : Bool) (url : Bytes) (methods : Mark) (handler : H) (template : Bytes) (t : Table H)
      (n : HandlerMethod)
      → IsPlain n
      → handler_at less url n (add_methods (map_imp less) auto url methods handler template t).0
        ≡ (if is_set methods n then some handler else handler_at less url n t)
  unfolding add_methods
  handler_at-add_methods auto url methods handler template t n plain =
      handler_at-add_each auto url handler (marked methods) n template t
      ∙ ap (λ b. if b then some handler else handler_at less url n t) (picks-marked methods n plain)

  -- Under a comparison that orders the keys, Add keeps the order of the entries, and what the table
  -- has for a key that differs.
  pub add_methods-keeps :
      (auto : Bool) (url : Bytes) (methods : Mark) (handler : H) (template : Bytes) (t : Table H)
      (j : Bytes)
      → IsSorted less t
      → Differ less j url
      → let t' = (add_methods (map_imp less) auto url methods handler template t).0 in
        IsSorted less t' × (find less j t' ≡ find less j t)
  unfolding add_methods
  add_methods-keeps auto url methods handler template t j sorted d = (
    add_each-keeps auto url handler (IsSorted less) (added-IsSorted auto url handler)
        (marked methods) template t sorted,
    add_each-keeps auto url handler (λ s. find less j s ≡ find less j t)
        (λ m tpl s e. find-added_other auto url handler m tpl s j d ∙ e) (marked methods) template t
        refl,
  )
