-- ===== src/Tests/Connection.antt =====
-- Headers in pieces.
use da4qi.Base.{List, [], ◌∷◌, ◌++◌, Bytes, codes, some, ◌≡◌, refl}
use da4qi.Router.Order.{lexicographical_compare}
use da4qi.Router.Map.{find, insert, modify}
use da4qi.Connection.Arrivals.{
  Arrival, joined, value_of, clean, pending, receive, receive_all, inserted, AreNew,
  receive_all-inserted, receive-known,
}
use da4qi.Tests.Boost.{c_locale}

-- `Host: a.b` and `Accept: x`, cut in their names and values.
abbrev host : Arrival
host = record {
  first = 72;
  name_start = codes "o";
  name_rest = codes "st" ∷ [];
  value_start = codes "a.";
  value_rest = codes "b" ∷ [];
}

abbrev accept : Arrival
accept = record {
  first = 65;
  name_start = codes "ccept";
  name_rest = [];
  value_start = codes "x";
  value_rest = [];
}

both_new : AreNew c_locale (host ∷ accept ∷ []) []
unfolding find insert lexicographical_compare
both_new = (refl, (refl, tt))

receive_all-inserted_test :
    receive_all c_locale (host ∷ accept ∷ []) (clean [])
    ≡ clean (inserted c_locale (host ∷ accept ∷ []) [])
receive_all-inserted_test = receive_all-inserted c_locale (host ∷ accept ∷ []) both_new

abbrev one_host : List (Bytes × Bytes)
one_host = (codes "Host", codes "a") ∷ []

host_known : find c_locale.iless (codes "host") one_host ≡ some (codes "a")
unfolding find lexicographical_compare
host_known = refl

receive-known_example :
    receive c_locale accept (pending (codes "host") (codes "c") one_host)
    ≡ pending
        (joined (codes "host" ++ 65 ∷ codes "ccept") [])
        (value_of accept)
        (modify c_locale.iless (codes "host") (λ v. codes "c") one_host)
receive-known_example =
    receive-known c_locale accept (codes "host") (codes "c") (codes "a") one_host refl host_known
