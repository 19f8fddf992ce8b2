-- ===== src/Tests/Router.antt =====
-- Routing tables.
use da4qi.Base.{
  ℕ, List, [], ◌∷◌, true, false, Bytes, codes, length, some, if◌then◌else◌, ◌≡◌, refl, arith, All,
  inl,
}
use da4qi.Router.Order.{
  lexicographical_compare, starts_with, iless_desc, iless-IsStrictWeakOrder,
  iless_desc-IsStrictWeakOrder,
}
use da4qi.Router.Map.{IsSorted, find}
use da4qi.Router.Methods.{
  get, post, put, any, unsupport, Mark, is_set, handler_methods, selects, is_set-handler_methods,
  filled,
}
use da4qi.Router.Table.{
  RouterItem, Table, router_result, no_result, starts_match, map_imp, add_methods,
}
use da4qi.Router.Add.{handler_at, handler_at-add_methods, add_methods-keeps}
use da4qi.Router.Longest.{NoLonger, starts_match-longest, starts_match-none}
use da4qi.Router.Pattern.{
  Piece, literal, named, written, pattern_of, names_of, to_parameter_pattern-written,
}
use da4qi.Router.Regex.{to_parameter_pattern}
use da4qi.Tests.Boost.{c_locale}

-- Handlers are numbers here.
abbrev item : ℕ → RouterItem ℕ
item h = record { handlers = (get, h) ∷ []; template_name = [] }

abbrev table : Table ℕ
table = (codes "/user/id", item 1) ∷ (codes "/user", item 2) ∷ (codes "/", item 3) ∷ []

table-IsSorted : IsSorted (iless_desc c_locale) table
unfolding iless_desc lexicographical_compare
table-IsSorted = ((refl, (refl, tt)), ((refl, tt), (tt, tt)))

abbrev user_url : Bytes
user_url = codes "/USER/x"

user_found : (starts_match c_locale user_url get false table).2 ≡ true
unfolding starts_match starts_with
user_found = refl

starts_match-longest_example :
    let (result, key, url_exists) = starts_match c_locale user_url get false table in
    (c_locale.istarts_with user_url key ≡ true)
    × NoLonger c_locale user_url (length key) table
    × (result ≡ router_result (find (iless_desc c_locale) key table) get)
starts_match-longest_example =
    starts_match-longest c_locale user_url get table table-IsSorted user_found

abbrev narrow : Table ℕ
narrow = (codes "/user", item 2) ∷ []

nothing_found : (starts_match c_locale (codes "/a") get false narrow).2 ≡ false
unfolding starts_match starts_with
nothing_found = refl

none_begins :
    All (λ e. c_locale.istarts_with (codes "/a") e.0 ≡ false) narrow
    × ((starts_match c_locale (codes "/a") get false narrow).0 ≡ no_result)
none_begins = starts_match-none c_locale (codes "/a") get narrow nothing_found

abbrev get_and_post : Mark
get_and_post = record (filled false) { bit_1 = true; bit_3 = true }

handler_at-add_methods_example :
    handler_at c_locale.iless
      (codes "/a")
      post
      (add_methods (map_imp c_locale.iless) true (codes "/a") get_and_post 9 [] narrow).0
    ≡ (if is_set get_and_post post
        then some 9
        else handler_at c_locale.iless (codes "/a") post narrow)
handler_at-add_methods_example =
    handler_at-add_methods c_locale.iless (iless-IsStrictWeakOrder c_locale) true (codes "/a")
      get_and_post 9 [] narrow post (omega arith, omega arith)

differ : iless_desc c_locale (codes "/user") (codes "/a") ≡ true
unfolding iless_desc lexicographical_compare
differ = refl

add_methods-keeps_test :
    let t' =
      (add_methods (map_imp (iless_desc c_locale)) false (codes "/a") get_and_post 9 [] narrow).0 in
    IsSorted (iless_desc c_locale) t'
    × (find (iless_desc c_locale) (codes "/user") t'
        ≡ find (iless_desc c_locale) (codes "/user") narrow)
add_methods-keeps_test =
    add_methods-keeps (iless_desc c_locale) (iless_desc-IsStrictWeakOrder c_locale) false
      (codes "/a") get_and_post 9 [] narrow (codes "/user") (tt, tt) (inl differ)

is_set-handler_methods_test :
    is_set (handler_methods (any ∷ unsupport ∷ post ∷ [])) put
    ≡ selects (any ∷ unsupport ∷ post ∷ []) put
is_set-handler_methods_test =
    is_set-handler_methods (any ∷ unsupport ∷ post ∷ []) put (omega arith, omega arith)

abbrev user_matcher : List Piece
user_matcher = literal 47 ∷ named (codes "id") ∷ literal 47 ∷ named (codes "x_1") ∷ []

to_parameter_pattern-written_example :
    to_parameter_pattern (written user_matcher)
    ≡ some (pattern_of user_matcher, names_of user_matcher)
to_parameter_pattern-written_example =
    to_parameter_pattern-written user_matcher
      (refl, ((refl, (refl, (refl, tt))), (refl, ((refl, (refl, (refl, (refl, tt)))), tt))))
