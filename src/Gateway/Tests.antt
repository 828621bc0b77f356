-- ===== src/Gateway/Tests.antt =====
-- A start that is refused once and then accepted, and a stop while a start still waits.
use uurc_web_new.Prelude.{◌≡◌, refl, false, none, some, List, [], ◌∷◌}
use uurc_web_new.Requests.{RoomConfig, JoinContext, empty_start}
use uurc_web_new.Servers.{order_servers}
use uurc_web_new.Gateway.{
  Helpers, got_config, got_context, got_connection, connect_next, take_over, start, connected,
}
use uurc_web_new.Gateway.World.{Move, do_start, do_stop, resume, move, moves, go_on, new_world}
use uurc_web_new.Gateway.Tidy.{IsTidy}
use uurc_web_new.Gateway.Runs.{moves-IsTidy}
use uurc_web_new.Gateway.Stopped.{IsOff, moves-stop-IsOff}
use uurc_web_new.Gateway.Reached.{IsConnected, refusals, start-IsConnected}

abbrev helpers : Helpers
helpers = record {
  redact_token = λ message token. message;
  size_of = λ event. 100;
  inbound_events = λ event payload. [];
  normalize_payload = λ value. value;
  can_clear = false;
}

abbrev room : RoomConfig
room = record {
  token = "t";
  signal_servers = "wss://a" ∷ "wss://b" ∷ [];
  timeout = none;
  signal_reconnect_delay = none;
  report_token = none;
  report_url = none;
  report_server_address = none;
  app_data = none;
}

abbrev context : JoinContext
context = record { captured_at = "now"; device_id = "d"; force_join = false }

-- The first start waits for its configuration, a second one overtakes it.
abbrev overtaken : List Move
overtaken =
    do_start 1 empty_start
    ∷ do_start 2 (record empty_start { room_config = some room; join_context = some context })
    ∷ resume 3 1 (got_config (some room))
    ∷ resume 4 0 (got_connection (some "x"))
    ∷ resume 5 0 (got_context none)
    ∷ []

overtaken_alive : (moves helpers overtaken (new_world 0)).alive ≡ 0 ∷ []
unfolding moves move go_on start take_over connect_next connected order_servers
overtaken_alive = refl

moves-IsTidy_example : IsTidy (moves helpers overtaken (new_world 0))
moves-IsTidy_example = moves-IsTidy helpers 0 overtaken

-- After the stop, the start that waited gets its configuration, and a server's answer.
abbrev too_late : List Move
too_late =
    resume 7 1 (got_config (some room))
    ∷ resume 8 1 (got_context (some context))
    ∷ resume 9 1 (got_connection none)
    ∷ []

moves-stop-IsOff_example : IsOff (
    moves helpers too_late
      (move helpers (do_stop 6) (moves helpers (do_start 1 empty_start ∷ []) (new_world 0))))
moves-stop-IsOff_example =
    moves-stop-IsOff helpers 0 6 (do_start 1 empty_start ∷ []) too_late (tt, (tt, (tt, tt)))

start-IsConnected_example : IsConnected (moves helpers [] (new_world 0)).made "wss://b" (
    move helpers (resume 1 0 (got_connection (some "x"))) (
      moves helpers (refusals 1 (("wss://a", "refused") ∷ [])) (
        move helpers
          (do_start 1 (record empty_start { room_config = some room; join_context = some context }))
          (moves helpers [] (new_world 0)))))
unfolding order_servers
start-IsConnected_example =
    start-IsConnected helpers 0 1 [] empty_start room context (("wss://a", "refused") ∷ [])
      "wss://b" [] (some "x") refl
