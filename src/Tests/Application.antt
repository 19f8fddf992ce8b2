-- ===== src/Tests/Application.antt =====
-- Applications and their manager.
use da4qi.Base.{
  ℕ, [], ◌∷◌, ◌++◌, Bool, true, false, Bytes, codes, Option, none, some, if◌then◌else◌, ◌≡◌, refl,
  arith,
}
use da4qi.Router.Order.{lexicographical_compare, iless_desc}
use da4qi.Router.Map.{IsSorted, find}
use da4qi.Router.Methods.{filled, Mark, http_get, IsPlain, is_set, from_http_method}
use da4qi.Application.Url.{
  join_url_path, without_last_slash, without_first_slash, join_url_path-slash,
}
use da4qi.Application.Dispatch.{
  Application, Request, Context, handled, without_data, several, add_equals, find_handler,
  do_handle, index_path, try_path,
}
use da4qi.Application.Answers.{answer_or, do_handle-answer, do_handle-add_equals}
use da4qi.Application.Manager.{
  App, Manager, is_exists, mount_application, kept, find_by_url, IsBest, mount_application-find,
  find_by_url-IsBest,
}
use da4qi.Tests.Boost.{c_locale, plain_texts}

app_user_joined :
    join_url_path (codes "/app/") (codes "/user")
    ≡ without_last_slash (codes "/app/") ++ codes "/" ++ without_first_slash (codes "/user")
app_user_joined = join_url_path-slash (codes "/app/") (codes "/user") refl refl

-- Handlers are numbers, and each of them holds a function.
abbrev empty_app : Application Bytes ℕ
empty_app = record {
  is_running = false;
  root_url = codes "/app/";
  equal_router = [];
  startwiths_router = [];
  regex_router = [];
}

abbrev callable : ℕ → Bool
callable h = true

abbrev request : Request
request = record { method = http_get; path = codes "/app/user" }

abbrev context : Context
context = record { template_name = []; path_parameters = [] }

abbrev gets : Mark
gets = record (filled false) { bit_1 = true }

joined_path : codes "/app/user" ≡ join_url_path (codes "/app/") (codes "user")
unfolding join_url_path
joined_path = refl

get-IsPlain : IsPlain (from_http_method http_get)
unfolding from_http_method
get-IsPlain = (omega arith, omega arith)

gets_get : is_set gets (from_http_method http_get) ≡ true
unfolding from_http_method is_set
gets_get = refl

do_handle-add_equals_example :
    (c : Context) × (do_handle c_locale plain_texts callable request
        (add_equals c_locale plain_texts (several gets) (codes "user") 5 [] empty_app).0
        context
      ≡ some (handled 5 c))
do_handle-add_equals_example =
    do_handle-add_equals c_locale plain_texts callable request empty_app gets (codes "user") 5 []
      context refl get-IsPlain gets_get joined_path refl

do_handle-answer_test :
    let first = find_handler c_locale plain_texts request [] context empty_app in
    let second =
      find_handler c_locale plain_texts request
        (try_path c_locale plain_texts callable request empty_app)
        first.context
        empty_app in
    do_handle c_locale plain_texts callable request empty_app context
    ≡ some (
        answer_or c_locale plain_texts callable request empty_app first (
          if index_path c_locale plain_texts callable request empty_app
          then answer_or c_locale plain_texts callable request empty_app second
              (without_data second.context)
          else without_data first.context))
do_handle-answer_test = do_handle-answer c_locale plain_texts callable request empty_app context

abbrev shop : App
shop = record {
  name = codes "shop";
  url_root = codes "/shop";
  disabled = false;
  upload_max_size_limit_kb = 8;
}

abbrev main : App
main = record {
  name = codes "main";
  url_root = codes "/";
  disabled = false;
  upload_max_size_limit_kb = 8;
}

abbrev nobody : Bytes → Option App
nobody name = none

abbrev two_apps : Manager
two_apps = record {
  mounted = false;
  applications = (codes "/shop", shop) ∷ (codes "/", main) ∷ [];
  app_loggers = [];
}

two_apps-IsSorted : IsSorted (iless_desc c_locale) (two_apps.applications)
unfolding iless_desc lexicographical_compare
two_apps-IsSorted = ((refl, tt), (tt, tt))

find_by_url-IsBest_example :
    (e : Option (Bytes × App)) × IsBest c_locale nobody (codes "/Shop/1") two_apps.applications e
    × (find_by_url c_locale nobody none (codes "/Shop/1") two_apps
        ≡ elim e [ none ↦ none | some (root, app) ↦ some app ])
find_by_url-IsBest_example =
    find_by_url-IsBest c_locale nobody none (codes "/Shop/1") two_apps two_apps-IsSorted

-- An application whose root is taken.
abbrev rival : App
rival = record {
  name = codes "rival";
  url_root = codes "/SHOP";
  disabled = false;
  upload_max_size_limit_kb = 8;
}

rival_new : is_exists c_locale nobody (codes "rival") two_apps ≡ false
unfolding is_exists
rival_new = refl

mount_application-find_example :
    let (after, returned) = mount_application c_locale nobody rival two_apps in
    (returned ≡ true)
    × IsSorted (iless_desc c_locale) after.applications
    × (find (iless_desc c_locale) (codes "/SHOP") after.applications
        ≡ kept c_locale nobody rival
            (find (iless_desc c_locale) (codes "/SHOP") two_apps.applications))
mount_application-find_example =
    mount_application-find c_locale nobody rival two_apps refl rival_new two_apps-IsSorted
