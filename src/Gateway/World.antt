-- ===== src/Gateway/World.antt =====
-- A control service and what surrounds it: the operations that wait, the calls of `connect` that were
-- made, whose callbacks may come at any time, and the connections that are open (`alive`). A move is one piece
-- of code between two awaits, in any order.
use Prim.Native.String.{String}
use uurc_web_new.Prelude.{
  ℕ, zero, suc, not, Option, none, some, List, [], ◌∷◌, select, get_elem?, if◌then◌else◌, ◌==◌,
}
use uurc_web_new.Json.{Json}
use uurc_web_new.Requests.{StartRequest}
use uurc_web_new.Gateway.{
  Helpers, Service, Attempt, Task, Result, LostState, Step, awaiting_config, awaiting_context,
  connecting, awaiting_ack, awaiting_emit, awaiting_stop_context, awaiting_clear, got_config,
  got_context, got_connection, connect_failed, got_ack, ack_failed, emitted, cleared, clear_failed,
  return_now, new_service, start, with_context, take_over, connected, connect_error, stop,
  stop_context, room_cleared, room_clear_failed, send_control, control_ack, send_soac, soac_ack,
  signal_event, connection_restored, connection_lost, for_good,
}

pub record World : Type 0 where
  pub service : Service
  pub tasks : List Task
  pub attempts : List Attempt
  pub alive : List ℕ
  pub made : ℕ

abbrev pub new_world : ℕ → World
new_world now = record {
  service = new_service now;
  tasks = [];
  attempts = [];
  alive = [];
  made = 0;
}

-- The time of a move is its first argument. The second one of `resume`, `restore`, `lose` and `hear` says which task or
-- which call of `connect`.
pub data Move : Type 0 where
  do_start : ℕ → StartRequest → Move
  do_stop : ℕ → Move
  do_control : ℕ → Json → Move
  do_soac : ℕ → Json → Move
  resume : ℕ → ℕ → Result → Move
  restore : ℕ → ℕ → Option String → Move
  lose : ℕ → ℕ → LostState → Option String → Move
  hear : ℕ → ℕ → String → List Json → Move
  late_ack : ℕ → ℕ → ℕ → List Json → Move

abbrev pub without : Option ℕ → List ℕ → List ℕ
without none alive = alive
without (some c) alive = select (λ d. not (d == c)) alive

-- The task in place of the one that was resumed.
abbrev pub replace_at : ℕ → Option Task → List Task → List Task
replace_at i next [] = []
replace_at zero none (task ∷ tasks) = tasks
replace_at zero (some next) (task ∷ tasks) = next ∷ tasks
replace_at (suc i) next (task ∷ tasks) = task ∷ replace_at i next tasks

abbrev pub add_task : Option Task → List Task → List Task
add_task none tasks = tasks
add_task (some task) tasks = task ∷ tasks

abbrev pub add_attempt : Option Task → List Attempt → List Attempt
add_attempt (some (connecting attempt)) attempts = attempt ∷ attempts
add_attempt _ attempts = attempts

-- An operation was called.
abbrev pub begin : Step → World → World
begin step w = record w {
  service = step.service;
  tasks = add_task step.next w.tasks;
  attempts = add_attempt step.next w.attempts;
  alive = without step.closed w.alive;
}

-- The task `i` went on.
abbrev pub continue : ℕ → Step → World → World
continue i step w = record w {
  service = step.service;
  tasks = replace_at i step.next w.tasks;
  attempts = add_attempt step.next w.attempts;
  alive = without step.closed w.alive;
}

-- A connection that is gone for good is not open any more. What a connector reports as closed or
-- failed under the current generation is the connection that is held, as
-- backend/src/services/socketIoSignalGatewayConnector.ts has it: it reports either only of a socket
-- that has connected and is not active any more.
abbrev pub gone : Attempt → LostState → Service → Option ℕ
gone attempt lost s =
    if attempt.of_generation == s.generation
    then (if for_good lost then s.connection else none)
    else none

-- A task or a call that there is not does nothing.
abbrev pub when_there {ℓ} : {A : Type ℓ} → Option A → (A → World) → World → World
when_there none act w = w
when_there (some a) act w = act a

module _ (helpers : Helpers) where
  -- What a task does with a result; another result is not for it.
  unfoldable pub go_on : ℕ → ℕ → Task → Result → World → World
  go_on now i (awaiting_config sequence input) (got_config none) w =
      continue i (return_now w.service) w
  go_on now i (awaiting_config sequence input) (got_config (some config)) w =
      continue i (with_context helpers now sequence input config input.join_context w.service) w
  go_on now i (awaiting_context sequence input config) (got_context context) w =
      continue i (take_over helpers now sequence input config context w.service) w
  go_on now i (connecting attempt) (got_connection id) w =
      continue i (connected helpers now w.made id attempt w.service)
        (record w { alive = w.made ∷ w.alive; made = suc w.made })
  go_on now i (connecting attempt) (connect_failed message) w =
      continue i (connect_error helpers now message attempt w.service) w
  go_on now i (awaiting_ack c g) (got_ack ack) w =
      continue i (control_ack helpers now c g ack w.service) w
  go_on now i (awaiting_ack c g) ack_failed w = continue i (return_now w.service) w
  go_on now i (awaiting_emit c g) emitted w = continue i (return_now w.service) w
  go_on now i (awaiting_stop_context g) (got_context context) w =
      continue i (stop_context helpers g context w.service) w
  go_on now i (awaiting_clear g) (cleared summary) w =
      continue i (room_cleared helpers now g summary w.service) w
  go_on now i (awaiting_clear g) (clear_failed message) w =
      continue i (room_clear_failed helpers now g message w.service) w
  go_on now i _ _ w = w

  unfoldable pub move : Move → World → World
  move (do_start now input) w = begin (start helpers now input w.service) w
  move (do_stop now) w = begin (stop helpers now w.service) w
  move (do_control now payload) w = begin (send_control helpers now payload w.service) w
  move (do_soac now payload) w = begin (send_soac helpers now payload w.service) w
  move (resume now i result) w =
      when_there (get_elem? w.tasks i) (λ task. go_on now i task result w) w
  move (restore now j id) w =
      when_there (get_elem? w.attempts j)
        (λ attempt. record w { service = connection_restored helpers now attempt id w.service }) w
  move (lose now j lost reason) w =
      when_there (get_elem? w.attempts j)
        (λ attempt. record w {
          service = connection_lost helpers now attempt lost reason w.service;
          alive = without (gone attempt lost w.service) w.alive;
        })
        w
  move (hear now j event payload) w =
      when_there (get_elem? w.attempts j)
        (λ attempt. record w { service = signal_event helpers now attempt event payload w.service })
        w
  move (late_ack now c g ack) w = record w { service = soac_ack helpers now c g ack w.service }

  unfoldable pub moves : List Move → World → World
  moves [] w = w
  moves (m ∷ ms) w = moves ms (move m w)
