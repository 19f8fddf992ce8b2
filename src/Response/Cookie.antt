-- ===== src/Response/Cookie.antt =====
-- cookie.hpp and cookie.cpp: Cookie and its text in a header. `std::string::find` and the replacement
-- of Boost are used on a quote only. The time of a GMT text that many seconds from now is a parameter.
use da4qi.Base.{
  ℕ, ◌^◌, ◌-◌, [], ◌∷◌, ◌++◌, Bool, true, false, not, ◌&&◌, ◌||◌, if◌then◌else◌, ltb, ◌==◌, Bytes,
  codes, is_empty,
}
use da4qi.Base.Int.{ℤ, pos, negsuc}
use da4qi.Base.Decimal.{to_string_ℤ}
use da4qi.Router.Order.{starts_with}

pub data HttpOnly : Type 0 where
  for_http_and_js for_http_only : HttpOnly

pub data Secure : Type 0 where
  for_http_and_https for_https_only : Secure

pub data SameSite : Type 0 where
  none lax strict : SameSite

pub record Cookie : Type 0 where
  pub old_version : Bool
  pub name : Bytes
  pub value : Bytes
  pub domain : Bytes
  pub path : Bytes
  pub max_age : ℤ
  pub http_only : Bool
  pub secure : Bool
  pub samesite : SameSite

-- The smallest `int`, and the next one.
abbrev pub expires_after_brower_close : ℤ
expires_after_brower_close = negsuc (2 ^ 31 - 1)

abbrev pub expires_immediately : ℤ
expires_immediately = negsuc (2 ^ 31 - 2)

abbrev pub same_age : ℤ → ℤ → Bool
same_age (pos a) (pos b) = a == b
same_age (negsuc a) (negsuc b) = a == b
same_age _ _ = false

abbrev pub new_cookie : Bytes → Bytes → Bytes → Bytes → Cookie
new_cookie name value domain path = record {
  old_version = false;
  name = name;
  value = value;
  domain = domain;
  path = path;
  max_age = expires_after_brower_close;
  http_only = false;
  secure = false;
  samesite = none;
}

-- The body assigns the name.
unfoldable pub set_value : Bytes → Cookie → Cookie
set_value value c = record c { name = value }

abbrev pub set_expired_immediately : Cookie → Cookie
set_expired_immediately c = record c { max_age = expires_immediately }

abbrev pub set_expired_after_brower_close : Cookie → Cookie
set_expired_after_brower_close c = record c { max_age = expires_after_brower_close }

abbrev pub set_max_age : ℤ → Cookie → Cookie
set_max_age (pos seconds) c = record c { max_age = pos seconds }
set_max_age (negsuc n) c = record c { max_age = pos 0 }

abbrev pub apply_http_version : ℕ → ℕ → Cookie → Cookie
apply_http_version major minor c = record c {
  old_version = ltb major 1 || (major == 1 && minor == 0);
}

abbrev is_http_only : HttpOnly → Bool
is_http_only for_http_only = true
is_http_only for_http_and_js = false

abbrev pub set_http_only : HttpOnly → Cookie → Cookie
set_http_only only c = record c { http_only = is_http_only only }

abbrev is_https_only : Secure → Bool
is_https_only for_https_only = true
is_https_only for_http_and_https = false

abbrev pub set_secure : Secure → Cookie → Cookie
set_secure secure c = record c { secure = is_https_only secure }

-- Whether a text stands somewhere in another one.
abbrev contains : Bytes → Bytes → Bool
contains s [] = starts_with [] s
contains s (x ∷ m) = let later = contains s m in starts_with (x ∷ m) s || later

module _ (replace_all : Bytes → Bytes → Bytes → Bytes) where
  -- The output of QV: a value between quotes, if there are any.
  unfoldable pub quoted : Bytes → Bytes → Bytes
  quoted v q =
      if is_empty q
      then v
      else if not (contains q v)
      then q ++ v ++ q
      else q ++ replace_all v q (b'\\' ∷ q) ++ q

  abbrev field_text : Bytes → Bytes → Bytes → Bytes
  field_text label v q = if is_empty v then [] else label ++ quoted v q

  abbrev same_site_text : SameSite → Bytes → Bytes
  same_site_text none q = []
  same_site_text lax q = codes "; SameSite=" ++ quoted (codes "Lax") q
  same_site_text strict q = codes "; SameSite=" ++ quoted (codes "Strict") q

  module _ (gmt_after : ℤ → Bytes) where
    abbrev age_text : Cookie → Bytes → Bytes
    age_text c q =
        if same_age c.max_age expires_immediately
        then (if not c.old_version
            then codes "; Max-Age=-1"
            else codes "; Expires=Thu, 01 Jan 1970 00:00:00 GMT")
        else if not (same_age c.max_age expires_after_brower_close)
        then (if not c.old_version
            then codes "; Max-Age=" ++ quoted (to_string_ℤ c.max_age) q
            else codes "; Expires=" ++ quoted (gmt_after c.max_age) q)
        else []

    unfoldable pub cookie_text : Cookie → Bytes
    unfolding quoted
    cookie_text c =
        let q = if c.old_version then codes "\"" else [] in
        c.name
        ++ b'=' ∷ quoted c.value q
        ++ age_text c q
        ++ field_text (codes "; Domain=") c.domain q
        ++ field_text (codes "; Path=") c.path q
        ++ (if not c.old_version then same_site_text c.samesite q else [])
        ++ (if c.secure then codes "; Secure" else [])
        ++ (if c.http_only then codes "; HttpOnly" else [])
