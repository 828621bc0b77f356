-- ===== src/Ack/Laws.antt =====
-- What a normalised acknowledgement promises: when it is no failure, and that its ICE servers can be used.
use Prim.Native.String.{String}
use text.Mathlib.TextEquality.{eq_iff}
use uurc_web_new.Prelude.{
  ◌≡◌, ◌≢◌, ◌↔◌, ◌⊎◌, inl, inr, refl, true, false, Option, none, some, List, [], ◌∷◌, All, arith,
  Bool-cases, Option-cases, subst,
}
use uurc_web_new.Prelude.Int.{pos, negsuc}
use uurc_web_new.Json.{
  JsNumber, whole, fraction, not_finite, Json, Fields, str, arr, prop, as_record, is_full,
  full_string_of, items,
}
use uurc_web_new.Ack.{
  IceUrls, one_url, many_urls, ControlIceServer, ControlResult, ControlAck, full_strings,
  urls_unless_none, ice_server_urls, ice_server_with, ice_server, keep_some, ice_servers_of,
  control_result, entries_of, first_record, normalize_ack, code_of, status_failed, code_failed,
  control_failure,
}

-- A URL with text in it, or some of them.
abbrev pub IsUsable : IceUrls → Type 0
IsUsable (one_url url) = url ≢ ""
IsUsable (many_urls urls) = (urls ≢ []) × All (λ url. url ≢ "") urls

is_full-ne : (s : String) → is_full s ≡ true → s ≢ ""
is_full-ne s full empty = ground (arith, (eq_iff s "").1 empty)

full_string_of-ne : (v : Json) (s : String) → full_string_of v ≡ some s → s ≢ ""
full_string_of-ne (str u) s e = elim (Bool-cases (is_full u)) [
  | inl y ↦ ground (arith, is_full-ne u y)
  | inr n ↦ ground arith
]
full_string_of-ne _ s e = ground arith

full_strings-full : (vs : List Json) → All (λ url. url ≢ "") (full_strings vs)
full_strings-full [] = tt
full_strings-full (v ∷ vs) = elim (Option-cases (full_string_of v)) [
  | inl e ↦ rw (e, All) (full_strings-full vs)
  | inr (s, e) ↦ rw (e, All) (full_string_of-ne v s e, full_strings-full vs)
]

status_failed-false_iff :
    (status : Option String)
    → (status_failed status ≡ false) ↔ ((status ≡ none) ⊎ (status ≡ some "success"))
status_failed-false_iff none = ground arith
status_failed-false_iff (some s) = ground (arith, eq_iff s "success")

code_failed-false_iff :
    (code : Option JsNumber)
    → (code_failed code ≡ false) ↔ ((code ≡ none) ⊎ (code ≡ some (whole (pos 0))))
code_failed-false_iff none = ground arith
code_failed-false_iff (some (whole (pos n))) = ground arith
code_failed-false_iff (some (whole (negsuc n))) = ground arith
code_failed-false_iff (some (fraction n)) = ground arith
code_failed-false_iff (some not_finite) = ground arith

-- An acknowledgement is no failure exactly when its status is missing or `success` and its code is
-- missing or 0.
pub control_failure-none_iff :
    (ack : ControlAck)
    → (control_failure ack ≡ none) ↔ (
        ((ack.ack_status ≡ none) ⊎ (ack.ack_status ≡ some "success"))
        × ((code_of ack.result ≡ none) ⊎ (code_of ack.result ≡ some (whole (pos 0)))))
unfolding control_failure
control_failure-none_iff ack =
    ground
      (arith, status_failed-false_iff ack.ack_status, code_failed-false_iff (code_of ack.result))

full_string_of-IsUsable : (v : Json) (s : String) → full_string_of v ≡ some s → IsUsable (one_url s)
full_string_of-IsUsable v s e = full_string_of-ne v s e

urls_unless_none-IsUsable :
    (texts : List String) (urls : IceUrls)
    → urls_unless_none texts ≡ some urls
    → All (λ url. url ≢ "") texts
    → IsUsable urls
urls_unless_none-IsUsable [] urls e full = ground arith
urls_unless_none-IsUsable (s ∷ ss) urls e full =
    let path : many_urls (s ∷ ss) ≡ urls = ground arith in
    subst IsUsable path (λ empty. ground arith, full)

ice_server_urls-IsUsable :
    (v : Json) (urls : IceUrls) → ice_server_urls v ≡ some urls → IsUsable urls
unfolding ice_server_urls
ice_server_urls-IsUsable (str s) urls e = elim (Option-cases (full_string_of (str s))) [
  | inl n ↦ ground arith
  | inr (u, y) ↦
      let path : one_url u ≡ urls = ground arith in
      subst IsUsable path (full_string_of-ne (str s) u y)
]
ice_server_urls-IsUsable (arr vs) urls e =
    urls_unless_none-IsUsable (full_strings (items vs)) urls e (full_strings-full (items vs))
ice_server_urls-IsUsable _ urls e = ground arith

ice_server_with-IsUsable :
    (fields : Fields) (urls : Option IceUrls) (server : ControlIceServer)
    → ice_server_with fields urls ≡ some server
    → ((u : IceUrls) → urls ≡ some u → IsUsable u)
    → IsUsable server.urls
ice_server_with-IsUsable fields none server e h = ground arith
ice_server_with-IsUsable fields (some u) server e h =
    let path : u ≡ server.urls = ground arith in subst IsUsable path (h u refl)

ice_server-IsUsable :
    (v : Json) (server : ControlIceServer) → ice_server v ≡ some server → IsUsable server.urls
unfolding ice_server
ice_server-IsUsable v server e = elim (Option-cases (as_record v)) [
  | inl n ↦ ground arith
  | inr (fields, y) ↦
      ice_server_with-IsUsable fields (ice_server_urls (prop "urls" fields)) server (ground arith)
        (ice_server_urls-IsUsable (prop "urls" fields))
]

keep_some-All :
    {A : Type 0} {P : A → Type 0} (f : Json → Option A)
    → ((v : Json) (a : A) → f v ≡ some a → P a)
    → (vs : List Json) → All P (keep_some f vs)
keep_some-All f h [] = tt
keep_some-All f h (v ∷ vs) = elim (Option-cases (f v)) [
  | inl e ↦ rw (e, All) (keep_some-All f h vs)
  | inr (a, e) ↦ rw (e, All) (h v a e, keep_some-All f h vs)
]

ice_servers_of-IsUsable : (v : Json) → All (λ server. IsUsable server.urls) (ice_servers_of v)
unfolding ice_servers_of
ice_servers_of-IsUsable (arr vs) = keep_some-All ice_server ice_server-IsUsable (items vs)
ice_servers_of-IsUsable _ = tt

-- Whatever a server acknowledges with, each ICE server of the normalised result has a URL, and
-- none of its URLs is empty.
pub normalize_ack-IsUsable :
    (ack : Json) (result : ControlResult)
    → (normalize_ack ack).result ≡ some result
    → All (λ server. IsUsable server.urls) result.ice_servers
unfolding normalize_ack control_result
normalize_ack-IsUsable ack result e = elim (Option-cases (first_record (entries_of ack))) [
  | inl n ↦ ground arith
  | inr (fields, y) ↦
      let path : control_result fields ≡ result = ground arith in
      subst (λ r. All (λ server. IsUsable server.urls) r.ice_servers) path
        (ice_servers_of-IsUsable (prop "iceServers" fields))
]
