-- ===== src/Ack/Tests.antt =====
-- A refused control request, and an acknowledgement with ICE servers of which one cannot be used.
use uurc_web_new.Prelude.{◌≡◌, ◌↔◌, refl, none, All, arith}
use uurc_web_new.Prelude.Int.{pos}
use uurc_web_new.Json.{Json, Fields, str, num, whole, obj, arr, field, end, nil, cons}
use uurc_web_new.Ack.{normalize_ack, control_failure, control_result}
use uurc_web_new.Ack.Laws.{IsUsable, normalize_ack-IsUsable}
use uurc_web_new.Ack.Refused.{IsRefusal, IsBad, control_failure-normalize_ack_iff}

abbrev server : Json → Json
server urls = obj (field "urls" urls end)

-- `["success", {code: 0, iceServers: [{urls: "stun:a"}, {urls: ""}]}]`
abbrev accepted : Json
accepted = arr (
    cons (str "success") (
      cons
        (obj (
          field "code" (num (whole (pos 0))) (
            field "iceServers" (arr (cons (server (str "stun:a")) (cons (server (str "")) nil)))
              end)))
        nil))

abbrev refused : Json
refused = obj (field "code" (num (whole (pos 100001))) end)

no_failure : control_failure (normalize_ack accepted) ≡ none
unfolding control_failure normalize_ack control_result
no_failure = refl

refused_badly : IsBad refused
refused_badly = (whole (pos 100001), refl, λ e. ground (arith, e), λ e. ground (arith, e))

-- The first entry is `success`, and only the first of its objects counts.
abbrev twice : Json
twice = arr (cons (str "success") (cons (obj end) (cons refused nil)))

control_failure-normalize_ack_iff_example :
    (control_failure (normalize_ack twice) ≡ none) ↔ ((¬ (IsRefusal twice)) × (¬ (IsBad twice)))
control_failure-normalize_ack_iff_example = control_failure-normalize_ack_iff twice

abbrev two_servers : Fields
two_servers =
    field "iceServers" (arr (cons (server (str "stun:a")) (cons (server (str "")) nil))) end

normalize_ack-IsUsable_example : All (λ s. IsUsable s.urls) (control_result two_servers).ice_servers
unfolding normalize_ack
normalize_ack-IsUsable_example =
    normalize_ack-IsUsable (obj two_servers) (control_result two_servers) refl
