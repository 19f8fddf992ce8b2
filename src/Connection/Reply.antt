-- ===== src/Connection/Reply.antt =====
-- connection.cpp: what a connection makes of a response before it is written.
use da4qi.Base.{
  ℕ, Bool, Bool-cases, true, false, not, ◌&&◌, ◌||◌, if◌then◌else◌, ltb, ◌==◌, none, codes, inl,
  inr, ◌≡◌, refl,
}
use da4qi.Router.Order.{Algorithms}
use da4qi.Response.Text.{
  Response, try_get_header, is_keep_alive, is_chunked, mark_keep_alive, mark_close, mark_chunked,
}
use da4qi.Response.KeepAlive.{is_keep_alive-marked}

abbrev is_old : ℕ → ℕ → Bool
is_old major minor = ltb major 1 || (major == 1 && minor == 0)

module _ (A : Algorithms) where
  -- The version of the request, and whether its connection is to be kept.
  unfoldable pub prepare_response_headers_about_connection : ℕ → ℕ → Bool → Response → Response
  prepare_response_headers_about_connection major minor keepalive r =
      let old = record r { version_major = 1; version_minor = 0 } in
      let new = record r { version_major = 1; version_minor = 1 } in
      if is_old major minor
      then (if keepalive then mark_keep_alive A old else old)
      else if not keepalive
      then mark_close A new
      else new

  unfoldable pub prepare_response_headers_for_chunked_write : Response → Response
  prepare_response_headers_for_chunked_write r =
      let marked = if not (is_chunked A r) then mark_chunked A r else r in
      let new =
        if is_old marked.version_major marked.version_minor
        then record marked { version_major = 1; version_minor = 1 }
        else marked in
      if is_keep_alive A new then mark_keep_alive A new else new

  unmarked :
      (r : Response)
      → try_get_header A (codes "Connection") r ≡ none
      → (is_keep_alive A (record r { version_major = 1; version_minor = 0 }) ≡ false)
        × (is_keep_alive A (record r { version_major = 1; version_minor = 1 }) ≡ true)
  unfolding is_keep_alive try_get_header
  unmarked r h = (rw h refl, rw h refl)

  -- A response that says nothing of the connection keeps it, in the version in which it is written, exactly
  -- if the request asked for that, whatever the version of the request.
  pub is_keep_alive-prepared :
      (major minor : ℕ) (keepalive : Bool) (r : Response)
      → try_get_header A (codes "Connection") r ≡ none
      → is_keep_alive A (prepare_response_headers_about_connection major minor keepalive r)
        ≡ keepalive
  unfolding prepare_response_headers_about_connection
  is_keep_alive-prepared major minor true r h = elim (Bool-cases (is_old major minor)) [
    | inl old ↦
        rw old ((is_keep_alive-marked A (record r { version_major = 1; version_minor = 0 })).0)
    | inr new ↦ rw new ((unmarked r h).1)
  ]
  is_keep_alive-prepared major minor false r h = elim (Bool-cases (is_old major minor)) [
    | inl old ↦ rw old ((unmarked r h).0)
    | inr new ↦
        rw new ((is_keep_alive-marked A (record r { version_major = 1; version_minor = 1 })).1)
  ]
