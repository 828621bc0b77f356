-- ===== src/Gateway/Runs.antt =====
-- In whatever order the pieces run, no connection is left open that the service does not hold.
use Prim.Native.String.{String}
use uurc_web_new.Prelude.{
  ℕ, suc, ◌+◌, ◌≡◌, inl, inr, refl, sym, subst, Option, none, some, List, [], ◌∷◌, All, get_elem?,
  arith, Bool-cases, ◌==◌,
}
use uurc_web_new.Gateway.{
  Helpers, Attempt, Task, Result, LostState, awaiting_config, awaiting_context, connecting,
  awaiting_ack, awaiting_emit, awaiting_stop_context, awaiting_clear, got_config, got_context,
  got_connection, connect_failed, got_ack, ack_failed, emitted, cleared, clear_failed, return_now,
  connected, for_good, connection_restored, connection_lost, signal_event, soac_ack, start, stop,
  with_context, take_over, connect_error, stop_context, room_cleared, room_clear_failed,
  send_control, send_soac, control_ack,
}
use uurc_web_new.Gateway.World.{
  World, Move, do_start, do_stop, do_control, do_soac, resume, restore, lose, hear, late_ack,
  without, replace_at, continue, gone, go_on, move, moves, new_world, when_there,
}
use uurc_web_new.Gateway.Effects.{
  Before, Keeps-return, with_context-Effect, take_over-Effect, start-Effect, stop-Takes,
  connect_error-Keeps, stop_context-Keeps, room_cleared-Keeps, room_clear_failed-Keeps,
  send_control-Keeps, send_soac-Keeps, control_ack-Keeps, restored-IsSame, signal_event-IsSame,
  soac_ack-IsSame,
}
use uurc_web_new.Gateway.Tasks.{
  pending, All-replace_at, All-get, pending-replace_at, All-without-none, nothing_alive,
  All-without, without_self,
}
use uurc_web_new.Gateway.Tidy.{
  IsTidy, begin-IsTidy, continue-IsTidy, same-IsTidy, pending_of-connecting, held-none,
}

when_there-IsTidy {ℓ} :
    {A : Type ℓ} (o : Option A) (act : A → World) (w : World)
    → IsTidy w
    → ((a : A) → o ≡ some a → IsTidy (act a))
    → IsTidy (when_there o act w)
when_there-IsTidy none act w t h = t
when_there-IsTidy (some a) act w t h = h a refl

module _ (helpers : Helpers) where
  connected-IsTidy :
      (w : World) (now i : ℕ) (id : Option String) (attempt : Attempt)
      → get_elem? w.tasks i ≡ some (connecting attempt)
      → IsTidy w
      → IsTidy (
          continue i
            (connected helpers now w.made id attempt w.service)
            (record w { alive = w.made ∷ w.alive; made = suc w.made }))
  unfolding connected
  connected-IsTidy w now i id attempt e t =
      elim (Bool-cases (attempt.of_generation == w.service.generation)) [
        | inl y ↦
            let gone_before : pending w.service.generation (replace_at i none w.tasks) + 1
                ≡ pending w.service.generation w.tasks =
              omega (
                arith,
                pending-replace_at w.service.generation i (connecting attempt) none w.tasks e,
                pending_of-connecting w.service.generation attempt y,
              ) in
            let free : w.service.connection ≡ none =
              held-none w.service.connection (omega (arith, gone_before, t.single)) in
            let empty : w.alive ≡ [] =
              nothing_alive w.alive (subst (λ c. All (λ d. c ≡ some d) w.alive) free t.alive) in
            rw y (record {
              alive = (refl, subst (λ l. All (λ d. some w.made ≡ some d) l) (sym empty) tt);
              single = omega (arith, gone_before, t.single);
              tasks = All-replace_at i none w.tasks (λ u p. ground arith) t.tasks;
              attempts = t.attempts;
              authority = t.authority;
            })
        | inr n ↦ rw n (record {
          alive =
              subst (λ l. All (λ d. w.service.connection ≡ some d) l)
                (sym (without_self w.made w.alive))
                (All-without (λ d. w.service.connection ≡ some d) (some w.made) w.alive t.alive);
          single = omega (
            arith,
            pending-replace_at w.service.generation i (connecting attempt) none w.tasks e,
            t.single,
          );
          tasks = All-replace_at i none w.tasks (λ u p. ground arith) t.tasks;
          attempts = t.attempts;
          authority = t.authority;
        })
      ]

  lost-IsTidy :
      (w : World) (now : ℕ) (attempt : Attempt) (lost : LostState) (reason : Option String)
      → IsTidy w
      → IsTidy (record w {
        service = connection_lost helpers now attempt lost reason w.service;
        alive = without (gone attempt lost w.service) w.alive;
      })
  unfolding connection_lost
  lost-IsTidy w now attempt lost reason t =
      elim (Bool-cases (attempt.of_generation == w.service.generation)) [
        | inl y ↦ rw y (elim (Bool-cases (for_good lost)) [
          | inl yes' ↦ rw yes' (record {
            alive = All-without-none w.service.connection w.alive t.alive;
            single = omega (arith, t.single);
            tasks = t.tasks;
            attempts = t.attempts;
            authority = t.authority;
          })
          | inr no' ↦ rw no' (record {
            alive = t.alive;
            single = t.single;
            tasks = t.tasks;
            attempts = t.attempts;
            authority = t.authority;
          })
        ])
        | inr n ↦ rw n t
      ]

  go_on-IsTidy :
      (now i : ℕ) (task : Task) (result : Result) (w : World)
      → get_elem? w.tasks i ≡ some task
      → IsTidy w
      → IsTidy (go_on helpers now i task result w)
  unfolding go_on
  go_on-IsTidy now i (awaiting_config k input) (got_config none) w e t =
      continue-IsTidy w i (awaiting_config k input) (return_now w.service) e t
        (inl (Keeps-return w.service 0))
  go_on-IsTidy now i (awaiting_config k input) (got_config (some config)) w e t =
      continue-IsTidy w i (awaiting_config k input)
        (with_context helpers now k input config input.join_context w.service) e t
        (with_context-Effect helpers now k input config input.join_context w.service (
          All-get (Before w.service.next_request w.service.generation) w.tasks i
            (awaiting_config k input) e t.tasks))
  go_on-IsTidy now i (awaiting_context k input config) (got_context context) w e t =
      continue-IsTidy w i (awaiting_context k input config)
        (take_over helpers now k input config context w.service) e t
        (take_over-Effect helpers now k input config context w.service (
          All-get (Before w.service.next_request w.service.generation) w.tasks i
            (awaiting_context k input config) e t.tasks))
  go_on-IsTidy now i (connecting attempt) (got_connection id) w e t =
      connected-IsTidy w now i id attempt e t
  go_on-IsTidy now i (connecting attempt) (connect_failed message) w e t =
      continue-IsTidy w i (connecting attempt) (connect_error helpers now message attempt w.service)
        e t (inl (connect_error-Keeps helpers now message attempt w.service))
  go_on-IsTidy now i (awaiting_ack c g) (got_ack ack) w e t =
      continue-IsTidy w i (awaiting_ack c g) (control_ack helpers now c g ack w.service) e t
        (inl (control_ack-Keeps helpers now c g ack w.service))
  go_on-IsTidy now i (awaiting_ack c g) ack_failed w e t =
      continue-IsTidy w i (awaiting_ack c g) (return_now w.service) e t
        (inl (Keeps-return w.service 0))
  go_on-IsTidy now i (awaiting_emit c g) emitted w e t =
      continue-IsTidy w i (awaiting_emit c g) (return_now w.service) e t
        (inl (Keeps-return w.service 0))
  go_on-IsTidy now i (awaiting_stop_context g) (got_context context) w e t =
      continue-IsTidy w i (awaiting_stop_context g) (stop_context helpers g context w.service) e t
        (inl (stop_context-Keeps helpers g context w.service))
  go_on-IsTidy now i (awaiting_clear g) (cleared summary) w e t =
      continue-IsTidy w i (awaiting_clear g) (room_cleared helpers now g summary w.service) e t
        (inl (room_cleared-Keeps helpers now g summary w.service))
  go_on-IsTidy now i (awaiting_clear g) (clear_failed message) w e t =
      continue-IsTidy w i (awaiting_clear g) (room_clear_failed helpers now g message w.service) e t
        (inl (room_clear_failed-Keeps helpers now g message w.service))
  go_on-IsTidy now i _ _ w e t = t

  pub move-IsTidy : (m : Move) (w : World) → IsTidy w → IsTidy (move helpers m w)
  unfolding move
  move-IsTidy (do_start now input) w t =
      begin-IsTidy w (start helpers now input w.service) t
        (start-Effect helpers now input w.service)
  move-IsTidy (do_stop now) w t =
      begin-IsTidy w (stop helpers now w.service) t (inr (stop-Takes helpers now w.service))
  move-IsTidy (do_control now payload) w t =
      begin-IsTidy w (send_control helpers now payload w.service) t
        (inl (send_control-Keeps helpers now payload w.service))
  move-IsTidy (do_soac now payload) w t =
      begin-IsTidy w (send_soac helpers now payload w.service) t
        (inl (send_soac-Keeps helpers now payload w.service))
  move-IsTidy (resume now i result) w t =
      when_there-IsTidy (get_elem? w.tasks i) (λ task. go_on helpers now i task result w) w t
        (λ task y. go_on-IsTidy now i task result w y t)
  move-IsTidy (restore now j id) w t =
      when_there-IsTidy (get_elem? w.attempts j)
        (λ attempt. record w { service = connection_restored helpers now attempt id w.service }) w t
        (λ attempt y.
          same-IsTidy w (connection_restored helpers now attempt id w.service) t
            (restored-IsSame helpers now attempt id w.service))
  move-IsTidy (lose now j lost reason) w t =
      when_there-IsTidy (get_elem? w.attempts j) _ w t
        (λ attempt y. lost-IsTidy w now attempt lost reason t)
  move-IsTidy (hear now j event payload) w t =
      when_there-IsTidy (get_elem? w.attempts j)
        (λ attempt. record w { service = signal_event helpers now attempt event payload w.service })
        w t
        (λ attempt y.
          same-IsTidy w (signal_event helpers now attempt event payload w.service) t
            (signal_event-IsSame helpers now attempt event payload w.service))
  move-IsTidy (late_ack now c g ack) w t =
      same-IsTidy w (soac_ack helpers now c g ack w.service) t
        (soac_ack-IsSame helpers now c g ack w.service)

  pub moves-IsTidy_of : (ms : List Move) (w : World) → IsTidy w → IsTidy (moves helpers ms w)
  unfolding moves
  moves-IsTidy_of [] w t = t
  moves-IsTidy_of (m ∷ ms) w t = moves-IsTidy_of ms (move helpers m w) (move-IsTidy m w t)

  -- From a new service, whatever is called, whatever the servers answer and in whatever order the
  -- waiting pieces go on: every connection that is open is the one that the service holds; the
  -- tasks that may still bring one for the generation in force, and the one that is held, are
  -- together at most one; and no task or callback is of a request or a generation that has not
  -- begun.
  pub moves-IsTidy : (now : ℕ) (ms : List Move) → IsTidy (moves helpers ms (new_world now))
  moves-IsTidy now ms = moves-IsTidy_of ms (new_world now) (record {
    alive = tt;
    single = omega arith;
    tasks = tt;
    attempts = tt;
    authority = omega arith;
  })
