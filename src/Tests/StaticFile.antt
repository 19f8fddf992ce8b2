-- ===== src/Tests/StaticFile.antt =====
-- Entries of a site and a file of it.
use da4qi.Base.{[], ◌∷◌, ◌++◌, true, some, codes, ◌≡◌, refl}
use da4qi.Router.Order.{lexicographical_compare, starts_with}
use da4qi.Router.Map.{insert, IsSorted}
use da4qi.StaticFile.{
  StaticFile, is_relative, compare_desc, add_entry, first_entry, Files, chunks, on_response,
}
use da4qi.StaticFile.Entries.{
  add_entries, add_entries-IsSorted, AreExact, IsChosen, first_entry-IsChosen,
}
use da4qi.StaticFile.Chunks.{together, IsChunk, chunks-Sends}
use da4qi.StaticFile.Answers.{bodies, on_response-content}
use da4qi.Base.{All}
use da4qi.Tests.Boost.{c_locale}

abbrev empty_site : StaticFile
empty_site = record {
  cache_max_age = 300;
  url_resolve_type = is_relative;
  dir_resolve_type = is_relative;
  root_entries = [];
  default_filenames = codes "index.html" ∷ [];
}

abbrev site : StaticFile
site =
    add_entries ((codes "/static", []) ∷ (codes "/static/img", codes "/pictures") ∷ []) empty_site

site-IsSorted : IsSorted compare_desc site.root_entries
site-IsSorted =
    add_entries-IsSorted ((codes "/static", []) ∷ (codes "/static/img", codes "/pictures") ∷ [])
      empty_site tt

site_exact : AreExact (codes "/shop") (codes "/shop/static/img/a.png") c_locale site.root_entries
unfolding add_entry insert compare_desc lexicographical_compare starts_with
site_exact = (refl, (refl, tt))

first_entry-IsChosen_example :
    IsChosen (codes "/shop") (codes "/shop/static/img/a.png") site.root_entries (
      first_entry c_locale
        (λ r. codes "/shop" ++ r)
        (codes "/shop/static/img/a.png")
        site.root_entries)
first_entry-IsChosen_example =
    first_entry-IsChosen (codes "/shop") (codes "/shop/static/img/a.png") c_locale site.root_entries
      site-IsSorted site_exact

chunks-Sends_example :
    (together (chunks (codes "abc")) ≡ codes "abc") × All IsChunk (chunks (codes "abc"))
chunks-Sends_example = chunks-Sends (codes "abc")

-- A disk with one file everywhere.
abbrev one_file : Files
one_file = record {
  is_file = λ n. true;
  exists = λ n. some true;
  open_file = λ n. some (codes "abc");
  append = λ a b. a ++ b;
  mime_type = λ n. codes "text/plain";
}

on_response-content_test :
    together (bodies (on_response one_file empty_site (some (codes "a")))) ≡ codes "abc"
on_response-content_test =
    on_response-content one_file empty_site b'a' [] (codes "abc") refl refl refl
