-- ===== src/Router/Methods.antt =====
-- handler.hpp and handler.cpp: request methods and sets of them. A `std::bitset<5>` is the record of
-- its bits. The methods of llhttp that the code does not name are `http_other`.
use da4qi.Base.{
  ℕ, ◌<◌, ltb, List, [], ◌∷◌, Bool, true, false, not, ◌&&◌, ◌||◌, Bytes, codes, ◌≡◌, ◌∙◌, arith,
}

pub data HandlerMethod : Type 0 where
  unsupport delete get head post put any : HandlerMethod

-- The order of the enumerators: -1, 0, …, 4 and 999, each increased by 1.
abbrev pub rank : HandlerMethod → ℕ
rank unsupport = 0
rank delete = 1
rank get = 2
rank head = 3
rank post = 4
rank put = 5
rank any = 1000

abbrev pub less_method : HandlerMethod → HandlerMethod → Bool
less_method a b = ltb (rank a) (rank b)

pub handler_method_name : HandlerMethod → Bytes
handler_method_name unsupport = codes "UNSUPPORT"
handler_method_name delete = codes "DELETE"
handler_method_name get = codes "GET"
handler_method_name head = codes "HEAD"
handler_method_name post = codes "POST"
handler_method_name put = codes "PUT"
handler_method_name any = codes "ANY"

pub data LlhttpMethod : Type 0 where
  http_delete http_get http_head http_post http_put : LlhttpMethod
  http_other : ℕ → LlhttpMethod

unfoldable pub from_http_method : LlhttpMethod → HandlerMethod
from_http_method http_delete = delete
from_http_method http_get = get
from_http_method http_head = head
from_http_method http_post = post
from_http_method http_put = put
from_http_method (http_other m) = unsupport

-- HandlerMethodMark.
pub record Mark : Type 0 where
  pub bit_0 : Bool
  pub bit_1 : Bool
  pub bit_2 : Bool
  pub bit_3 : Bool
  pub bit_4 : Bool

abbrev pub filled : Bool → Mark
filled b = record { bit_0 = b; bit_1 = b; bit_2 = b; bit_3 = b; bit_4 = b }

abbrev any_bit : Mark → Bool
any_bit k = k.bit_0 || (k.bit_1 || (k.bit_2 || (k.bit_3 || k.bit_4)))

unfoldable pub is_set : Mark → HandlerMethod → Bool
is_set k delete = k.bit_0
is_set k get = k.bit_1
is_set k head = k.bit_2
is_set k post = k.bit_3
is_set k put = k.bit_4
is_set k any = any_bit k
is_set k unsupport = not (any_bit k)

unfoldable pub set : HandlerMethod → Mark → Mark
set delete k = record k { bit_0 = true }
set get k = record k { bit_1 = true }
set head k = record k { bit_2 = true }
set post k = record k { bit_3 = true }
set put k = record k { bit_4 = true }
set any k = filled true
set unsupport k = filled false

abbrev set_all : List HandlerMethod → Mark → Mark
set_all [] k = k
set_all (m ∷ ms) k = set_all ms (set m k)

-- The constructor from an initializer list.
unfoldable pub handler_methods : List HandlerMethod → Mark
unfolding set
handler_methods ms = set_all ms (filled false)

abbrev pub same_method : HandlerMethod → HandlerMethod → Bool
same_method a b = not (less_method a b) && not (less_method b a)

abbrev contains : HandlerMethod → List HandlerMethod → Bool
contains m [] = false
contains m (x ∷ xs) = same_method m x || contains m xs

-- A list selects a method if it, or ANY, stands behind the last UNSUPPORT.
abbrev pub selects : List HandlerMethod → HandlerMethod → Bool
selects [] m = false
selects (x ∷ xs) m =
    selects xs m || ((same_method m x || same_method any x) && not (contains unsupport xs))

-- The methods that have a bit.
abbrev pub IsPlain : HandlerMethod → Type 0
IsPlain m = (rank unsupport < rank m) × (rank m < rank any)

is_set-set :
    (x : HandlerMethod) (k : Mark) (m : HandlerMethod)
    → IsPlain m
    → is_set (set x k) m
      ≡ ((same_method m x || same_method any x) || (is_set k m && not (same_method unsupport x)))
unfolding is_set set
is_set-set x k unsupport p = absurd (omega arith)
is_set-set x k any p = absurd (omega arith)
is_set-set x k delete p = ground arith
is_set-set x k get p = ground arith
is_set-set x k head p = ground arith
is_set-set x k post p = ground arith
is_set-set x k put p = ground arith

is_set-set_all :
    (ms : List HandlerMethod) (k : Mark) (m : HandlerMethod)
    → IsPlain m
    → is_set (set_all ms k) m ≡ (selects ms m || (is_set k m && not (contains unsupport ms)))
is_set-set_all [] k m p = ground arith
is_set-set_all (x ∷ ms) k m p = is_set-set_all ms (set x k) m p ∙ ground (arith, is_set-set x k m p)

-- A method with a bit of its own is in the set made from a list if it, or ANY, stands in the list
-- behind the last UNSUPPORT.
pub is_set-handler_methods :
    (ms : List HandlerMethod) (m : HandlerMethod)
    → IsPlain m
    → is_set (handler_methods ms) m ≡ selects ms m
unfolding handler_methods is_set
is_set-handler_methods ms m p = is_set-set_all ms (filled false) m p ∙ ground arith
