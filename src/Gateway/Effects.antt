-- ===== src/Gateway/Effects.antt =====
-- What each piece of an operation may do to the connection, the generation and the sequence numbers: it
-- keeps them, or it takes over and closes the connection that there was.
use Prim.Native.String.{String}
use text.Mathlib.Text.{◌==◌ as str_eq}
use uurc_web_new.Prelude.{
  ℕ, suc, ◌≤◌, ◌≡◌, ◌⊎◌, inl, inr, refl, ◌&&◌, not, Option, none, some, List, [], ◌∷◌, arith,
  Bool-cases, ltb, ◌==◌, ==_iff, if◌then◌else◌,
}
use uurc_web_new.Json.{Json, arr, to_items}
use uurc_web_new.EventLog.{Direction, inbound, outbound}
use uurc_web_new.Readiness.{state_error}
use uurc_web_new.Requests.{RoomConfig, JoinContext, StartRequest}
use uurc_web_new.Gateway.{
  Helpers, Service, Attempt, Task, Step, awaiting_config, awaiting_context, connecting,
  awaiting_ack, awaiting_emit, awaiting_stop_context, awaiting_clear, return_now, wait,
  server_index, taken, stopped, connect_next, take_over, with_config, start, connect_error,
  clear_room, stop, stop_context, room_cleared, room_clear_failed, create_status, with_context,
  clear_after, send_control_on, send_soac_on, record_signal, is_current, send_control, control_ack,
  send_soac, connection_restored, signal_event, soac_ack, record_all, as_array,
}

-- A task of a request that was made, and of a generation that there was.
abbrev pub Before : ℕ → ℕ → Task → Type 0
Before n g (awaiting_config k input) = k ≤ n
Before n g (awaiting_context k input config) = k ≤ n
Before n g (connecting attempt) = attempt.of_generation ≤ g
Before n g _ = Unit {0}

abbrev pub NextBefore : ℕ → ℕ → Option Task → Type 0
NextBefore n g none = Unit {0}
NextBefore n g (some task) = Before n g task

-- The tasks that are about to hold a connection for a generation.
abbrev pub pending_of : ℕ → Task → ℕ
pending_of g (connecting attempt) = if attempt.of_generation == g then 1 else 0
pending_of g _ = 0

abbrev pub pending_next : ℕ → Option Task → ℕ
pending_next g none = 0
pending_next g (some task) = pending_of g task

pub record Keeps (s : Service) (pending : ℕ) (step : Step) : Type 0 where
  pub connection : step.service.connection ≡ s.connection
  pub generation : step.service.generation ≡ s.generation
  pub authority : step.service.authoritative ≡ s.authoritative
  pub requests : s.next_request ≤ step.service.next_request
  pub closed : step.closed ≡ none
  pub next_pending : pending_next s.generation step.next ≤ pending
  pub next_before : NextBefore step.service.next_request s.generation step.next

pub record Takes (s : Service) (step : Step) : Type 0 where
  pub connection : step.service.connection ≡ none
  pub generation : step.service.generation ≡ suc s.generation
  pub authority : step.service.authoritative ≤ step.service.next_request
  pub requests : s.next_request ≤ step.service.next_request
  pub closed : step.closed ≡ s.connection
  pub next_pending : pending_next (suc s.generation) step.next ≤ 1
  pub next_before : NextBefore step.service.next_request (suc s.generation) step.next

abbrev pub Effect : Service → ℕ → Step → Type 0
Effect s pending step = Keeps s pending step ⊎ Takes s step

-- The service differs in its status and its log at most.
pub record IsSame (s t : Service) : Type 0 where
  pub connection : t.connection ≡ s.connection
  pub generation : t.generation ≡ s.generation
  pub authority : t.authoritative ≡ s.authoritative
  pub requests : t.next_request ≡ s.next_request

abbrev pub same : (s : Service) → IsSame s s
same s = record { connection = refl; generation = refl; authority = refl; requests = refl }

Keeps-return_now : (s t : Service) (n : ℕ) → IsSame s t → Keeps s n (return_now t)
Keeps-return_now s t n i = record {
  connection = i.connection;
  generation = i.generation;
  authority = i.authority;
  requests = omega (arith, i.requests);
  closed = refl;
  next_pending = omega arith;
  next_before = tt;
}

pub Keeps-return : (s : Service) (n : ℕ) → Keeps s n (return_now s)
Keeps-return s n = Keeps-return_now s s n (same s)

Keeps-wait :
    (s t : Service) (n : ℕ) (task : Task)
    → IsSame s t
    → pending_of s.generation task ≤ n
    → Before t.next_request s.generation task
    → Keeps s n (wait t task)
Keeps-wait s t n task i p b = record {
  connection = i.connection;
  generation = i.generation;
  authority = i.authority;
  requests = omega (arith, i.requests);
  closed = refl;
  next_pending = p;
  next_before = b;
}

module _ (helpers : Helpers) where
  connect_next-Keeps :
      (now g : ℕ) (config : RoomConfig) (at : ℕ) (servers : List String) (message : String)
      (s : Service)
      → g ≡ s.generation
      → Keeps s 1 (connect_next helpers now g config at servers message s)
  unfolding connect_next
  connect_next-Keeps now g config at [] message s e = elim (Bool-cases (g == s.generation)) [
    | inl y ↦ rw y (
        Keeps-return_now s
          (record s {
            gateway =
                create_status state_error config at now none
                  (some (helpers.redact_token message config.token)) none;
          })
          1 (record { connection = refl; generation = refl; authority = refl; requests = refl }))
    | inr n ↦ rw n (Keeps-return_now s s 1 (same s))
  ]
  connect_next-Keeps now g config at (server ∷ rest) message s e =
      Keeps-wait s s 1
        (connecting (record {
          of_generation = g;
          config = config;
          begun_at = at;
          server = server;
          rest = rest;
        }))
        (same s) (ground arith) (omega (arith, e))

  pub take_over-Effect :
      (now k : ℕ) (input : StartRequest) (config : RoomConfig) (context : Option JoinContext)
      (s : Service)
      → k ≤ s.next_request
      → Effect s 0 (take_over helpers now k input config context s)
  unfolding take_over
  take_over-Effect now k input config context s le = elim (Bool-cases (ltb k s.authoritative)) [
    | inl y ↦ inl (rw y (Keeps-return_now s s 0 (same s)))
    | inr n ↦
        let K =
          connect_next-Keeps now (suc s.generation) config now
            (server_index input config.signal_servers) "undefined" (taken now k config context s)
            refl in
        inr (
          rw n (record {
            connection = K.connection;
            generation = K.generation;
            authority = omega (arith, K.authority, K.requests, le);
            requests = K.requests;
            closed = refl;
            next_pending = K.next_pending;
            next_before = K.next_before;
          }))
  ]

  pub with_context-Effect :
      (now k : ℕ) (input : StartRequest) (config : RoomConfig) (context : Option JoinContext)
      (s : Service)
      → k ≤ s.next_request
      → Effect s 0 (with_context helpers now k input config context s)
  with_context-Effect now k input config none s le =
      inl (Keeps-wait s s 0 (awaiting_context k input config) (same s) (omega arith) le)
  with_context-Effect now k input config (some context) s le =
      take_over-Effect now k input config (some context) s le

  with_config-Effect :
      (now k : ℕ) (input : StartRequest) (config : Option RoomConfig) (s : Service)
      → k ≤ s.next_request
      → Effect s 0 (with_config helpers now k input config s)
  with_config-Effect now k input none s le =
      inl (Keeps-wait s s 0 (awaiting_config k input) (same s) (omega arith) le)
  with_config-Effect now k input (some config) s le =
      with_context-Effect now k input config input.join_context s le

  pub start-Effect :
      (now : ℕ) (input : StartRequest) (s : Service) → Effect s 0 (start helpers now input s)
  unfolding start
  start-Effect now input s =
      elim (with_config-Effect now (suc s.next_request) input input.room_config
        (record s { next_request = suc s.next_request }) (omega arith)) [
          | inl K ↦ inl (record {
            connection = K.connection;
            generation = K.generation;
            authority = K.authority;
            requests = omega (arith, K.requests);
            closed = K.closed;
            next_pending = K.next_pending;
            next_before = K.next_before;
          })
          | inr T ↦ inr (record {
            connection = T.connection;
            generation = T.generation;
            authority = T.authority;
            requests = omega (arith, T.requests);
            closed = T.closed;
            next_pending = T.next_pending;
            next_before = T.next_before;
          })
        ]

  pub connect_error-Keeps :
      (now : ℕ) (message : String) (attempt : Attempt) (s : Service)
      → Keeps s
          (pending_of s.generation (connecting attempt))
          (connect_error helpers now message attempt s)
  unfolding connect_error
  connect_error-Keeps now message attempt s =
      elim (Bool-cases (attempt.of_generation == s.generation)) [
        | inl y ↦ rw y (
            connect_next-Keeps now attempt.of_generation attempt.config attempt.begun_at
              attempt.rest message s ((==_iff attempt.of_generation s.generation).0 y))
        | inr n ↦ rw n (Keeps-return_now s s 0 (same s))
      ]

  clear_room-Keeps :
      (g : ℕ) (context : Option JoinContext) (s : Service)
      → Keeps s 0 (clear_room helpers g context s)
  unfolding clear_room
  clear_room-Keeps g none s = Keeps-return_now s s 0 (same s)
  clear_room-Keeps g (some context) s =
      elim (Bool-cases (helpers.can_clear && not (str_eq context.device_id ""))) [
        | inl y ↦ rw y (Keeps-wait s s 0 (awaiting_clear g) (same s) (omega arith) tt)
        | inr n ↦ rw n (Keeps-return_now s s 0 (same s))
      ]

  clear_after-Keeps :
      (g : ℕ) (context : Option JoinContext) (s : Service)
      → Keeps s 0 (clear_after helpers g context s)
  clear_after-Keeps g none s = Keeps-wait s s 0 (awaiting_stop_context g) (same s) (omega arith) tt
  clear_after-Keeps g (some context) s = clear_room-Keeps g (some context) s

  pub stop-Takes : (now : ℕ) (s : Service) → Takes s (stop helpers now s)
  unfolding stop
  stop-Takes now s =
      let K = clear_after-Keeps (suc s.generation) s.join_context (stopped now s) in
      record {
        connection = K.connection;
        generation = K.generation;
        authority = omega (arith, K.authority, K.requests);
        requests = omega (arith, K.requests);
        closed = refl;
        next_pending = omega (arith, K.next_pending);
        next_before = K.next_before;
      }

  pub stop_context-Keeps :
      (g : ℕ) (context : Option JoinContext) (s : Service)
      → Keeps s 0 (stop_context helpers g context s)
  unfolding stop_context
  stop_context-Keeps g context s = elim (Bool-cases (g == s.generation)) [
    | inl y ↦ rw y (clear_room-Keeps g context s)
    | inr n ↦ rw n (Keeps-return_now s s 0 (same s))
  ]

  pub room_cleared-Keeps :
      (now g : ℕ) (summary : Json) (s : Service) → Keeps s 0 (room_cleared helpers now g summary s)
  unfolding room_cleared
  room_cleared-Keeps now g summary s = elim (Bool-cases (g == s.generation)) [
    | inl y ↦ rw y (
        Keeps-return_now s
          (record s {
            gateway = record (s.gateway) { room_clear = some summary; updated_at = now };
          })
          0 (record { connection = refl; generation = refl; authority = refl; requests = refl }))
    | inr n ↦ rw n (Keeps-return_now s s 0 (same s))
  ]

  pub room_clear_failed-Keeps :
      (now g : ℕ) (message : String) (s : Service)
      → Keeps s 0 (room_clear_failed helpers now g message s)
  unfolding room_clear_failed
  room_clear_failed-Keeps now g message s = elim (Bool-cases (g == s.generation)) [
    | inl y ↦ rw y (
        Keeps-return_now s
          (record s {
            gateway = record (s.gateway) { room_clear_error = some message; updated_at = now };
          })
          0 (record { connection = refl; generation = refl; authority = refl; requests = refl }))
    | inr n ↦ rw n (Keeps-return_now s s 0 (same s))
  ]

  record_signal-IsSame :
      (now : ℕ) (d : Direction) (event : String) (payload : Json) (s : Service)
      → IsSame s (record_signal helpers now d event payload s)
  record_signal-IsSame now d event payload s = record {
    connection = refl;
    generation = refl;
    authority = refl;
    requests = refl;
  }

  send_control_on-Keeps :
      (now : ℕ) (payload : Json) (c : Option ℕ) (s : Service)
      → Keeps s 0 (send_control_on helpers now payload c s)
  send_control_on-Keeps now payload none s = Keeps-return_now s s 0 (same s)
  send_control_on-Keeps now payload (some c) s =
      Keeps-wait s (record_signal helpers now outbound "control" payload s) 0
        (awaiting_ack c s.generation) (record_signal-IsSame now outbound "control" payload s)
        (omega arith) tt

  pub send_control-Keeps :
      (now : ℕ) (payload : Json) (s : Service) → Keeps s 0 (send_control helpers now payload s)
  unfolding send_control
  send_control-Keeps now payload s = send_control_on-Keeps now payload s.connection s

  send_soac_on-Keeps :
      (now : ℕ) (payload : Json) (c : Option ℕ) (s : Service)
      → Keeps s 0 (send_soac_on helpers now payload c s)
  send_soac_on-Keeps now payload none s = Keeps-return_now s s 0 (same s)
  send_soac_on-Keeps now payload (some c) s =
      Keeps-wait s (record_signal helpers now outbound "soac" payload s) 0
        (awaiting_emit c s.generation) (record_signal-IsSame now outbound "soac" payload s)
        (omega arith) tt

  pub send_soac-Keeps :
      (now : ℕ) (payload : Json) (s : Service) → Keeps s 0 (send_soac helpers now payload s)
  unfolding send_soac
  send_soac-Keeps now payload s = send_soac_on-Keeps now payload s.connection s

  pub control_ack-Keeps :
      (now c g : ℕ) (ack : List Json) (s : Service) → Keeps s 0 (control_ack helpers now c g ack s)
  unfolding control_ack
  control_ack-Keeps now c g ack s = elim (Bool-cases (is_current c g s)) [
    | inl y ↦ rw y (
        Keeps-return_now s
          (record_signal helpers now inbound "control:ack"
            (as_array (helpers.normalize_payload (arr (to_items ack)))) s)
          0
          (record_signal-IsSame now inbound "control:ack"
            (as_array (helpers.normalize_payload (arr (to_items ack)))) s))
    | inr n ↦ rw n (Keeps-return_now s s 0 (same s))
  ]

  pub restored-IsSame :
      (now : ℕ) (attempt : Attempt) (id : Option String) (s : Service)
      → IsSame s (connection_restored helpers now attempt id s)
  unfolding connection_restored
  restored-IsSame now attempt id s = elim (Bool-cases (attempt.of_generation == s.generation)) [
    | inl y ↦
        rw y (record { connection = refl; generation = refl; authority = refl; requests = refl })
    | inr n ↦ rw n (same s)
  ]

  record_all-IsSame :
      (now : ℕ) (events : List (String × Json)) (s t : Service)
      → IsSame s t
      → IsSame s (record_all helpers now events t)
  record_all-IsSame now [] s t i = i
  record_all-IsSame now ((event, payload) ∷ events) s t i =
      record_all-IsSame now events s (record_signal helpers now inbound event payload t) (record {
        connection = i.connection;
        generation = i.generation;
        authority = i.authority;
        requests = i.requests;
      })

  pub signal_event-IsSame :
      (now : ℕ) (attempt : Attempt) (event : String) (payload : List Json) (s : Service)
      → IsSame s (signal_event helpers now attempt event payload s)
  unfolding signal_event
  signal_event-IsSame now attempt event payload s =
      elim (Bool-cases (attempt.of_generation == s.generation)) [
        | inl y ↦ rw y (record_all-IsSame now (helpers.inbound_events event payload) s s (same s))
        | inr n ↦ rw n (same s)
      ]

  pub soac_ack-IsSame :
      (now c g : ℕ) (ack : List Json) (s : Service) → IsSame s (soac_ack helpers now c g ack s)
  unfolding soac_ack
  soac_ack-IsSame now c g ack s = elim (Bool-cases (is_current c g s)) [
    | inl y ↦ rw y (record_signal-IsSame now inbound "soac:ack" (arr (to_items ack)) s)
    | inr n ↦ rw n (same s)
  ]
