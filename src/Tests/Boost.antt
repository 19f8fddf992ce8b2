-- ===== src/Tests/Boost.antt =====
-- The parameters in a concrete form: Boost's comparisons in the "C" locale, and a pattern engine for
-- patterns that are plain texts.
use da4qi.Base.{ℕ, ◌-◌, ◌&&◌, leb, map, if◌then◌else◌, Bytes, [], none, some, inr, refl}
use da4qi.Router.Order.{Algorithms, lexicographical_compare, starts_with, tail_is, equal}
use da4qi.Router.Regex.{Engine}

abbrev to_upper : ℕ → ℕ
to_upper c = if leb 97 c && leb c 122 then c - 32 else c

abbrev pub c_locale : Algorithms
c_locale = record {
  upper = to_upper;
  iless = λ l r. lexicographical_compare (map to_upper l) (map to_upper r);
  istarts_with = λ m s. starts_with (map to_upper m) (map to_upper s);
  ends_with = tail_is;
  iequals = λ l r. equal (map to_upper l) (map to_upper r);
  iless_law = λ l r. refl;
  istarts_with_law = λ m s. refl;
  ends_with_law = λ m s. refl;
  iequals_law = λ l r. refl;
}

abbrev pub plain_texts : Engine Bytes
plain_texts = record {
  compile = λ s. inr s;
  regex_match = λ p url. inr (if equal p url then some [] else none);
}
