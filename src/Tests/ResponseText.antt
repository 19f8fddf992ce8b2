-- ===== src/Tests/ResponseText.antt =====
-- The text of a response and its cookies.
use da4qi.Base.{[], ◌∷◌, ◌++◌, some, Bytes, codes, ◌≡◌, refl}
use da4qi.Base.Decimal.{to_string}
use da4qi.Response.Cookie.{Cookie, new_cookie, cookie_text, expires_immediately}
use da4qi.Response.Cookies.{
  set_cookie, set_cookie_expired_immediately, cookie_of, cookie_of-set_cookie,
  set_cookie_expired_immediately-known,
}
use da4qi.Response.Text.{
  Response, new_response, response_text, status_line, is_chunked, length_line,
}
use da4qi.Response.Status.{http_status_summary_getter}
use da4qi.Router.Order.{lexicographical_compare}
use da4qi.Router.Map.{find}
use da4qi.Response.Text.Reader.{read_head, all-IsFree}
use da4qi.Response.Text.Head.{read_head-response_text}
use da4qi.Tests.Boost.{c_locale}

-- No value of these runs holds a quote, and none expires at a time.
abbrev as_text : Cookie → Bytes
as_text = cookie_text (λ text old new. text) (λ seconds. [])

abbrev id : Cookie
id = new_cookie (codes "id") (codes "17") [] (codes "/")

abbrev other_id : Cookie
other_id = new_cookie (codes "ID") (codes "18") [] (codes "/")

id_text : as_text id ≡ codes "id=17; Path=/"
unfolding cookie_text
id_text = refl

-- A name in other letters is the same name.
cookie_of-set_cookie_example :
    cookie_of c_locale (codes "id") [] (codes "/") (set_cookie c_locale other_id (id ∷ []))
    ≡ some other_id
cookie_of-set_cookie_example =
    cookie_of-set_cookie c_locale other_id (id ∷ []) (codes "id") [] (codes "/")

set_cookie_expired_immediately-known_test :
    set_cookie_expired_immediately c_locale (codes "id") [] (codes "/") (id ∷ [])
    ≡ (record id { name = []; max_age = expires_immediately }) ∷ []
set_cookie_expired_immediately-known_test =
    set_cookie_expired_immediately-known c_locale (codes "id") [] (codes "/") [] [] id tt refl

abbrev hello : Response
hello = record (new_response (codes "da4qi4/1")) { body = codes "hello"; cookies = id ∷ [] }

hello_text :
    response_text c_locale as_text hello
    ≡ codes
        "HTTP/1.1 200 OK\r\nServer:da4qi4/1\r\nSet-Cookie:id=17; Path=/\r\nContent-Length:5\r\n\r\nhello"
unfolding response_text cookie_text to_string http_status_summary_getter find
    lexicographical_compare
hello_text = refl

read_head-response_text_example :
    read_head [] (response_text c_locale as_text hello ++ codes "HTTP/")
    ≡ some (
      codes "HTTP/1.1 200 OK"
          ∷ codes "Server:da4qi4/1"
          ∷ codes "Set-Cookie:id=17; Path=/"
          ∷ codes "Content-Length:5"
          ∷ [],
      codes "helloHTTP/",
    )
unfolding status_line cookie_text is_chunked to_string find http_status_summary_getter
    lexicographical_compare length_line
read_head-response_text_example =
    read_head-response_text as_text c_locale hello (codes "HTTP/")
      ((all-IsFree (codes "Server") refl, all-IsFree (codes "da4qi4/1") refl), tt)
      (all-IsFree (as_text id) refl, tt)
