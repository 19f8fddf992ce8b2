-- ===== src/Response/Cookies.antt =====
-- response.cpp, SetCookie and SetCookieExpiredImmediately: the cookies of a response.
use da4qi.Base.{
  List, [], ◌∷◌, ◌++◌, map, Bool, true, false, Bool-cases, ◌&&◌, if◌then◌else◌, Option, none, some,
  Bytes, All, ◌≡◌, refl, sym, ap, ◌∙◌, inl, inr, arith,
}
use da4qi.Router.Order.{Algorithms, equal, equal_refl, equal→eq}
use da4qi.Response.Cookie.{
  Cookie, new_cookie, set_value, set_expired_immediately, expires_immediately,
}

replaced {ℓ} :
    {T : Type ℓ} (x y : Bool) (s t r : T)
    → y ≡ x
    → (if x then s else r) ≡ (if x then s else if y then t else r)
replaced true y s t r h = refl
replaced false y s t r h = ap (λ b. if b then t else r) (sym h)

swapped {ℓ} :
    {T : Type ℓ} (x y z : Bool) (s t r : T)
    → (x ≡ true → y ≡ true → z ≡ true)
    → z ≡ false
    → (if y then t else if x then s else r) ≡ (if x then s else if y then t else r)
swapped true true z s t r h e = cc (h refl refl, e)
swapped true false z s t r h e = refl
swapped false y z s t r h e = refl

module _ (A : Algorithms) where
  abbrev pub has_key : Bytes → Bytes → Bytes → Cookie → Bool
  has_key name domain path c =
      A.iequals c.name name && A.iequals c.domain domain && A.iequals c.path path

  unfoldable pub set_cookie : Cookie → List Cookie → List Cookie
  set_cookie cookie [] = cookie ∷ []
  set_cookie cookie (c ∷ cookies) =
      let rest = set_cookie cookie cookies in
      if has_key cookie.name cookie.domain cookie.path c then cookie ∷ cookies else c ∷ rest

  unfoldable pub set_cookie_expired_immediately : Bytes → Bytes → Bytes → List Cookie → List Cookie
  unfolding set_value
  set_cookie_expired_immediately name domain path [] =
      set_expired_immediately (new_cookie name [] domain path) ∷ []
  set_cookie_expired_immediately name domain path (c ∷ cookies) =
      let rest = set_cookie_expired_immediately name domain path cookies in
      if has_key name domain path c
      then set_expired_immediately (set_value [] c) ∷ cookies
      else c ∷ rest

  -- Texts that differ in case at most, and cookies that agree in name, domain and path in that way: what
  -- makes two cookies the same one, whatever the program compares.
  abbrev pub same_text : Bytes → Bytes → Bool
  same_text x y = equal (map A.upper x) (map A.upper y)

  abbrev pub is_at : Bytes → Bytes → Bytes → Cookie → Bool
  is_at name domain path c =
      same_text c.name name && same_text c.domain domain && same_text c.path path

  has_key-is_at :
      (name domain path : Bytes) (c : Cookie)
      → has_key name domain path c ≡ is_at name domain path c
  has_key-is_at name domain path c =
      rw (A.iequals_law c.name name, A.iequals_law c.domain domain, A.iequals_law c.path path) refl

  -- The first cookie with a name, a domain and a path.
  unfoldable pub cookie_of : Bytes → Bytes → Bytes → List Cookie → Option Cookie
  cookie_of name domain path [] = none
  cookie_of name domain path (c ∷ cookies) =
      let rest = cookie_of name domain path cookies in
      if is_at name domain path c then some c else rest

  same_text_same : (l r x : Bytes) → same_text l r ≡ true → same_text l x ≡ same_text r x
  same_text_same l r x h =
      ap (λ t. equal t (map A.upper x)) (equal→eq (map A.upper l) (map A.upper r) h)

  is_at_same :
      (c d : Cookie) (name domain path : Bytes)
      → is_at d.name d.domain d.path c ≡ true
      → is_at name domain path c ≡ is_at name domain path d
  is_at_same c d name domain path h = ground (
    arith,
    same_text_same c.name d.name name,
    same_text_same c.domain d.domain domain,
    same_text_same c.path d.path path,
  )

  same_text_joined :
      (l r x : Bytes) → same_text l x ≡ true → same_text r x ≡ true → same_text l r ≡ true
  same_text_joined l r x h k =
      same_text_same l x r h ∙ sym (same_text_same r x r k) ∙ equal_refl (map A.upper r)

  is_at_joined :
      (c d : Cookie) (name domain path : Bytes)
      → is_at name domain path d ≡ true
      → is_at name domain path c ≡ true
      → is_at d.name d.domain d.path c ≡ true
  is_at_joined c d name domain path h k = ground (
    arith,
    same_text_joined c.name d.name name,
    same_text_joined c.domain d.domain domain,
    same_text_joined c.path d.path path,
  )

  -- After SetCookie, its name, domain and path, case ignored in all three, find the cookie that was set,
  -- and any others, with a name, a domain or a path that differs, find what they found before.
  pub cookie_of-set_cookie :
      (cookie : Cookie) (cookies : List Cookie) (name domain path : Bytes)
      → cookie_of name domain path (set_cookie cookie cookies) ≡ (
          if is_at name domain path cookie then some cookie else cookie_of name domain path cookies)
  unfolding set_cookie cookie_of
  cookie_of-set_cookie cookie [] name domain path = refl
  cookie_of-set_cookie cookie (c ∷ cookies) name domain path =
      let key = has_key-is_at cookie.name cookie.domain cookie.path c in
      elim (Bool-cases (is_at cookie.name cookie.domain cookie.path c)) [
        | inl same ↦
            ap
              (λ b.
                cookie_of name domain path
                  (if b then cookie ∷ cookies else c ∷ set_cookie cookie cookies))
              (key ∙ same)
            ∙ replaced (is_at name domain path cookie) (is_at name domain path c) (some cookie)
                (some c) (cookie_of name domain path cookies)
                (is_at_same c cookie name domain path same)
        | inr other ↦
            ap
              (λ b.
                cookie_of name domain path
                  (if b then cookie ∷ cookies else c ∷ set_cookie cookie cookies))
              (key ∙ other)
            ∙ ap (λ o. if is_at name domain path c then some c else o)
                (cookie_of-set_cookie cookie cookies name domain path)
            ∙ swapped (is_at name domain path cookie) (is_at name domain path c) _ (some cookie)
                (some c) (cookie_of name domain path cookies)
                (is_at_joined c cookie name domain path) other
      ]

  -- SetCookieExpiredImmediately on a cookie that the response has takes the cookie's name away and
  -- leaves its value, in the first cookie with that name, domain and path.
  pub set_cookie_expired_immediately-known :
      (name domain path : Bytes) (before after : List Cookie) (c : Cookie)
      → All (λ d. has_key name domain path d ≡ false) before
      → has_key name domain path c ≡ true
      → set_cookie_expired_immediately name domain path (before ++ c ∷ after)
        ≡ before ++ (record c { name = []; max_age = expires_immediately }) ∷ after
  unfolding set_cookie_expired_immediately set_value
  set_cookie_expired_immediately-known name domain path [] after c h same =
      ap
        (λ b.
          if b
          then (record c { name = []; max_age = expires_immediately }) ∷ after
          else c ∷ set_cookie_expired_immediately name domain path after)
        same
  set_cookie_expired_immediately-known name domain path (d ∷ before) after c (h, hs) same =
      ap
        (λ b.
          if b
          then set_expired_immediately (set_value [] d) ∷ (before ++ c ∷ after)
          else d ∷ set_cookie_expired_immediately name domain path (before ++ c ∷ after))
        h
      ∙ ap (λ l. d ∷ l)
          (set_cookie_expired_immediately-known name domain path before after c hs same)
