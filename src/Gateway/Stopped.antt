-- ===== src/Gateway/Stopped.antt =====
-- A stop wins over every operation that was called before it, wherever that operation waits.
use Prim.Native.String.{String}
use uurc_web_new.Prelude.{
  ℕ, suc, ◌<◌, ◌≡◌, refl, sym, subst, ap, ◌∙◌, false, Option, none, some, List, [], ◌∷◌, All,
  get_elem?, arith, ◌==◌,
}
use uurc_web_new.Readiness.{state_closed}
use uurc_web_new.Gateway.{
  Helpers, Attempt, Task, Result, Step, awaiting_config, awaiting_context, connecting, awaiting_ack,
  awaiting_emit, awaiting_stop_context, awaiting_clear, got_config, got_context, got_connection,
  connect_failed, got_ack, ack_failed, emitted, cleared, clear_failed, return_now, connected,
  connection_restored, connection_lost, signal_event, soac_ack, stopped, stop, with_context,
  take_over, connect_error, stop_context, room_cleared, room_clear_failed, send_control, send_soac,
  control_ack,
}
use uurc_web_new.Gateway.World.{
  World, Move, do_start, do_stop, do_control, do_soac, resume, restore, lose, hear, late_ack,
  without, replace_at, add_task, add_attempt, begin, continue, when_there, go_on, move, moves,
  new_world,
}
use uurc_web_new.Gateway.Tasks.{
  All-replace_at, All-add_task, All-imp, All-get, All-without-none, nothing_alive, without_self,
}
use uurc_web_new.Gateway.Tidy.{IsTidy}
use uurc_web_new.Gateway.Runs.{move-IsTidy, moves-IsTidy}
use uurc_web_new.Gateway.Closing.{
  Old, StaysOff, IsClosed, Old-mono, Before-Old, NextOld-some, attempts-old, not_current,
  is_current-none, StaysOff-return_now, take_over-StaysOff, clear_after-StaysOff,
  with_context-StaysOff, connect_error-StaysOff, stop-StaysOff, stop_context-StaysOff,
  room_cleared-StaysOff, room_clear_failed-StaysOff, send_control-StaysOff, send_soac-StaysOff,
  control_ack-StaysOff,
}

-- The connection is closed, and nothing that waits can open one.
pub record IsOff (w : World) : Type 0 where
  pub connection : w.service.connection ≡ none
  pub status : w.service.gateway.status ≡ state_closed
  pub alive : w.alive ≡ []
  pub tasks : All (Old w.service.authoritative w.service.generation) w.tasks
  pub attempts : All (λ a. a.of_generation < w.service.generation) w.attempts

abbrev pub IsNoStart : Move → Type 0
IsNoStart (do_start now input) = ⊥
IsNoStart _ = Unit {0}

stays-IsOff :
    (w : World) (step : Step) (tasks : List Task)
    → IsOff w
    → StaysOff w.service step
    → All (Old step.service.authoritative step.service.generation) tasks
    → IsOff (record w {
      service = step.service;
      tasks = tasks;
      attempts = add_attempt step.next w.attempts;
      alive = without step.closed w.alive;
    })
stays-IsOff w step tasks o s all = record {
  connection = s.connection;
  status = s.status;
  alive = subst (λ c. without c w.alive ≡ []) (sym s.closed) o.alive;
  tasks = all;
  attempts =
      attempts-old step.service.authoritative w.service.generation step.service.generation step.next
        w.attempts s.generation s.next o.attempts;
}

tasks-Old :
    (w : World) (step : Step)
    → IsOff w
    → StaysOff w.service step
    → All (Old step.service.authoritative step.service.generation) w.tasks
tasks-Old w step o s =
    All-imp w.tasks
      (λ t.
        Old-mono w.service.authoritative step.service.authoritative w.service.generation
          step.service.generation t s.authority s.generation)
      o.tasks

begin-IsOff : (w : World) (step : Step) → IsOff w → StaysOff w.service step → IsOff (begin step w)
begin-IsOff w step o s = stays-IsOff w step (add_task step.next w.tasks) o s (
    All-add_task step.next w.tasks
      (NextOld-some step.service.authoritative step.service.generation step.next s.next)
      (tasks-Old w step o s))

continue-IsOff :
    (w : World) (i : ℕ) (step : Step)
    → IsOff w
    → StaysOff w.service step
    → IsOff (continue i step w)
continue-IsOff w i step o s = stays-IsOff w step (replace_at i step.next w.tasks) o s (
    All-replace_at i step.next w.tasks
      (NextOld-some step.service.authoritative step.service.generation step.next s.next)
      (tasks-Old w step o s))

is_closed : (w : World) → IsOff w → IsClosed w.service
is_closed w o = record { none_held = o.connection; says_closed = o.status }

when_there-IsOff {ℓ} :
    {A : Type ℓ} (o : Option A) (act : A → World) (w : World)
    → IsOff w
    → ((a : A) → o ≡ some a → IsOff (act a))
    → IsOff (when_there o act w)
when_there-IsOff none act w off h = off
when_there-IsOff (some a) act w off h = h a refl

module _ (helpers : Helpers) where
  connected-IsOff :
      (w : World) (now i : ℕ) (id : Option String) (attempt : Attempt)
      → attempt.of_generation < w.service.generation
      → IsOff w
      → IsOff (
          continue i
            (connected helpers now w.made id attempt w.service)
            (record w { alive = w.made ∷ w.alive; made = suc w.made }))
  unfolding connected
  connected-IsOff w now i id attempt lt o =
      rw (not_current attempt.of_generation w.service.generation lt) (record {
        connection = o.connection;
        status = o.status;
        alive = without_self w.made w.alive ∙ ap (without (some w.made)) o.alive;
        tasks = All-replace_at i none w.tasks (λ u p. ground arith) o.tasks;
        attempts = o.attempts;
      })

  go_on-IsOff :
      (now i : ℕ) (task : Task) (result : Result) (w : World)
      → Old w.service.authoritative w.service.generation task
      → IsOff w
      → IsOff (go_on helpers now i task result w)
  unfolding go_on
  go_on-IsOff now i (awaiting_config k input) (got_config none) w lt o =
      continue-IsOff w i (return_now w.service) o
        (StaysOff-return_now w.service w.service (is_closed w o) refl refl)
  go_on-IsOff now i (awaiting_config k input) (got_config (some config)) w lt o =
      continue-IsOff w i (with_context helpers now k input config input.join_context w.service) o (
        with_context-StaysOff helpers now k input config input.join_context w.service
          (is_closed w o) lt)
  go_on-IsOff now i (awaiting_context k input config) (got_context context) w lt o =
      continue-IsOff w i (take_over helpers now k input config context w.service) o
        (take_over-StaysOff helpers now k input config context w.service (is_closed w o) lt)
  go_on-IsOff now i (connecting attempt) (got_connection id) w lt o =
      connected-IsOff w now i id attempt lt o
  go_on-IsOff now i (connecting attempt) (connect_failed message) w lt o =
      continue-IsOff w i (connect_error helpers now message attempt w.service) o
        (connect_error-StaysOff helpers now message attempt w.service (is_closed w o) lt)
  go_on-IsOff now i (awaiting_ack c g) (got_ack ack) w lt o =
      continue-IsOff w i (control_ack helpers now c g ack w.service) o
        (control_ack-StaysOff helpers now c g ack w.service (is_closed w o))
  go_on-IsOff now i (awaiting_ack c g) ack_failed w lt o =
      continue-IsOff w i (return_now w.service) o
        (StaysOff-return_now w.service w.service (is_closed w o) refl refl)
  go_on-IsOff now i (awaiting_emit c g) emitted w lt o =
      continue-IsOff w i (return_now w.service) o
        (StaysOff-return_now w.service w.service (is_closed w o) refl refl)
  go_on-IsOff now i (awaiting_stop_context g) (got_context context) w lt o =
      continue-IsOff w i (stop_context helpers g context w.service) o
        (stop_context-StaysOff helpers g context w.service (is_closed w o))
  go_on-IsOff now i (awaiting_clear g) (cleared summary) w lt o =
      continue-IsOff w i (room_cleared helpers now g summary w.service) o
        (room_cleared-StaysOff helpers now g summary w.service (is_closed w o))
  go_on-IsOff now i (awaiting_clear g) (clear_failed message) w lt o =
      continue-IsOff w i (room_clear_failed helpers now g message w.service) o
        (room_clear_failed-StaysOff helpers now g message w.service (is_closed w o))
  go_on-IsOff now i _ _ w lt o = o

  attempt-stale :
      (w : World) (j : ℕ) (attempt : Attempt)
      → IsOff w
      → get_elem? w.attempts j ≡ some attempt
      → (attempt.of_generation == w.service.generation) ≡ false
  attempt-stale w j attempt o y =
      not_current attempt.of_generation w.service.generation
        (All-get (λ a. a.of_generation < w.service.generation) w.attempts j attempt y o.attempts)

  move-IsOff : (m : Move) (w : World) → IsNoStart m → IsTidy w → IsOff w → IsOff (move helpers m w)
  unfolding move connection_restored connection_lost signal_event soac_ack
  move-IsOff (do_start now input) w no_start t o = elim no_start [ ]
  move-IsOff (do_stop now) w no_start t o =
      begin-IsOff w (stop helpers now w.service) o
        (stop-StaysOff helpers now w.service (is_closed w o) t.authority)
  move-IsOff (do_control now payload) w no_start t o =
      begin-IsOff w (send_control helpers now payload w.service) o
        (send_control-StaysOff helpers now payload w.service (is_closed w o))
  move-IsOff (do_soac now payload) w no_start t o =
      begin-IsOff w (send_soac helpers now payload w.service) o
        (send_soac-StaysOff helpers now payload w.service (is_closed w o))
  move-IsOff (resume now i result) w no_start t o =
      when_there-IsOff (get_elem? w.tasks i) (λ task. go_on helpers now i task result w) w o
        (λ task y.
          go_on-IsOff now i task result w
            (All-get (Old w.service.authoritative w.service.generation) w.tasks i task y o.tasks) o)
  move-IsOff (restore now j id) w no_start t o =
      when_there-IsOff (get_elem? w.attempts j)
        (λ attempt. record w { service = connection_restored helpers now attempt id w.service }) w o
        (λ attempt y. rw (attempt-stale w j attempt o y) o)
  move-IsOff (lose now j lost reason) w no_start t o =
      when_there-IsOff (get_elem? w.attempts j) _ w o
        (λ attempt y. rw (attempt-stale w j attempt o y) o)
  move-IsOff (hear now j event payload) w no_start t o =
      when_there-IsOff (get_elem? w.attempts j)
        (λ attempt. record w { service = signal_event helpers now attempt event payload w.service })
        w o (λ attempt y. rw (attempt-stale w j attempt o y) o)
  move-IsOff (late_ack now c g ack) w no_start t o =
      rw (is_current-none c g w.service o.connection) o

  moves-IsOff :
      (ms : List Move) (w : World)
      → All IsNoStart ms
      → IsTidy w
      → IsOff w
      → IsOff (moves helpers ms w)
  unfolding moves
  moves-IsOff [] w no_start t o = o
  moves-IsOff (m ∷ ms) w no_start t o =
      moves-IsOff ms (move helpers m w) no_start.1 (move-IsTidy helpers m w t)
        (move-IsOff m w no_start.0 t o)

  stop-IsOff : (now : ℕ) (w : World) → IsTidy w → IsOff (move helpers (do_stop now) w)
  unfolding move stop
  stop-IsOff now w t =
      let s = w.service in
      let k =
        clear_after-StaysOff helpers (suc s.generation) s.join_context (stopped now s)
          (record { none_held = refl; says_closed = refl }) in
      let step = stop helpers now s in
      let tasks' : All (Old (suc s.next_request) (suc s.generation)) w.tasks =
        All-imp w.tasks (Before-Old s.next_request s.generation) t.tasks in
      record {
        connection = k.connection;
        status = k.status;
        alive =
            nothing_alive (without s.connection w.alive)
              (All-without-none s.connection w.alive t.alive);
        tasks =
            All-add_task step.next w.tasks
              (NextOld-some step.service.authoritative step.service.generation step.next k.next)
              (All-imp w.tasks
                (λ u.
                  Old-mono (suc s.next_request) step.service.authoritative (suc s.generation)
                    step.service.generation u k.authority k.generation)
                tasks');
        attempts =
            attempts-old step.service.authoritative (suc s.generation) step.service.generation
              step.next w.attempts k.generation k.next
              (All-imp w.attempts (λ a le. omega (arith, le)) t.attempts);
      }

  -- After a stop, whatever ran before it and whatever goes on after it, as long as no new start is
  -- called: the service holds no connection, its status is closed, no connection is open, and
  -- every start that was called earlier has lost its authority or its generation.
  pub moves-stop-IsOff :
      (now later : ℕ) (before after : List Move)
      → All IsNoStart after
      → IsOff (
          moves helpers after (move helpers (do_stop later) (moves helpers before (new_world now))))
  moves-stop-IsOff now later before after no_start =
      let w = moves helpers before (new_world now) in
      let t = moves-IsTidy helpers now before in
      moves-IsOff after (move helpers (do_stop later) w) no_start
        (move-IsTidy helpers (do_stop later) w t) (stop-IsOff later w t)
