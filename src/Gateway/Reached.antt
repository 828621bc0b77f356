-- ===== src/Gateway/Reached.antt =====
-- A start tries its servers in order, and the service ends on the first one that accepts.
use Prim.Native.String.{String}
use uurc_web_new.Prelude.{
  ℕ, suc, ◌≤◌, ◌≡◌, refl, sym, subst, ap, ◌∙◌, Option, some, List, [], ◌∷◌, arith, ==_iff,
  le→ltb-false,
}
use uurc_web_new.Readiness.{state_connected}
use uurc_web_new.Requests.{RoomConfig, JoinContext, StartRequest}
use uurc_web_new.Gateway.{
  Helpers, Service, Attempt, Task, Step, connecting, connect_failed, got_connection, wait,
  server_index, connect_next, connect_error, connected, taken, take_over, with_context, start,
}
use uurc_web_new.Gateway.World.{
  World, Move, do_start, resume, begin, continue, go_on, move, moves, new_world, without,
}
use uurc_web_new.Gateway.Tasks.{All-without-none, nothing_alive}
use uurc_web_new.Gateway.Tidy.{IsTidy}
use uurc_web_new.Gateway.Runs.{moves-IsTidy}

-- The servers that refuse, each with its error, then the one that accepts, and the others.
abbrev pub servers_of : List (String × String) → String → List String → List String
servers_of [] good rest = good ∷ rest
servers_of ((server, message) ∷ refused) good rest = server ∷ servers_of refused good rest

abbrev attempt_for : ℕ → RoomConfig → ℕ → List (String × String) → String → List String → Attempt
attempt_for g config at [] good rest = record {
  of_generation = g;
  config = config;
  begun_at = at;
  server = good;
  rest = rest;
}
attempt_for g config at ((server, message) ∷ refused) good rest = record {
  of_generation = g;
  config = config;
  begun_at = at;
  server = server;
  rest = servers_of refused good rest;
}

-- The refusals, one after another, of the task that was called last.
abbrev pub refusals : ℕ → List (String × String) → List Move
refusals now [] = []
refusals now ((server, message) ∷ refused) =
    resume now 0 (connect_failed message) ∷ refusals now refused

-- The service is connected to the server by the connection `made`, and no other is open.
pub record IsConnected (made : ℕ) (server : String) (w : World) : Type 0 where
  pub connection : w.service.connection ≡ some made
  pub status : w.service.gateway.status ≡ state_connected
  pub selected : w.service.gateway.selected_signal_server ≡ some server
  pub alive : w.alive ≡ made ∷ []

abbrev closing : Option ℕ → Step → Step
closing c step = record step { closed = c }

module _ (helpers : Helpers) where
  connect_next-attempt :
      (now g : ℕ) (config : RoomConfig) (at : ℕ) (refused : List (String × String)) (good : String)
      (rest : List String) (last : String) (s : Service)
      → connect_next helpers now g config at (servers_of refused good rest) last s
        ≡ wait s (connecting (attempt_for g config at refused good rest))
  unfolding connect_next
  connect_next-attempt now g config at [] good rest last s = refl
  connect_next-attempt now g config at ((server, message) ∷ refused) good rest last s = refl

  connect_error-attempt :
      (now g : ℕ) (config : RoomConfig) (at : ℕ) (server message : String)
      (refused : List (String × String)) (good : String) (rest : List String) (s : Service)
      → g ≡ s.generation
      → connect_error helpers now message
          (attempt_for g config at ((server, message) ∷ refused) good rest)
          s
        ≡ wait s (connecting (attempt_for g config at refused good rest))
  unfolding connect_error
  connect_error-attempt now g config at server message refused good rest s e =
      rw ((==_iff g s.generation).1 e)
        (connect_next-attempt now g config at refused good rest message s)

  refused-next :
      (now g : ℕ) (config : RoomConfig) (at : ℕ) (server message : String)
      (refused : List (String × String)) (good : String) (rest : List String) (v : World)
      (ts : List Task)
      → g ≡ v.service.generation
      → move helpers (resume now 0 (connect_failed message)) (record v {
        tasks = connecting (attempt_for g config at ((server, message) ∷ refused) good rest) ∷ ts;
      })
        ≡ record v {
          tasks = connecting (attempt_for g config at refused good rest) ∷ ts;
          attempts = attempt_for g config at refused good rest ∷ v.attempts;
        }
  unfolding move go_on
  refused-next now g config at server message refused good rest v ts e =
      ap
        (λ step. continue 0 step (record v {
          tasks = connecting (attempt_for g config at ((server, message) ∷ refused) good rest) ∷ ts;
        }))
        (connect_error-attempt now g config at server message refused good rest v.service e)

  reach :
      (now g : ℕ) (id : Option String) (config : RoomConfig) (at : ℕ)
      (refused : List (String × String)) (good : String) (rest : List String) (v : World)
      (ts : List Task)
      → g ≡ v.service.generation
      → v.alive ≡ []
      → IsConnected v.made good (
          move helpers (resume now 0 (got_connection id)) (
            moves helpers
              (refusals now refused)
              (record v { tasks = connecting (attempt_for g config at refused good rest) ∷ ts })))
  unfolding move moves go_on connected
  reach now g id config at [] good rest v ts e empty =
      rw ((==_iff g v.service.generation).1 e) (record {
        connection = refl;
        status = refl;
        selected = refl;
        alive = ap (λ l. v.made ∷ l) empty;
      })
  reach now g id config at ((server, message) ∷ refused) good rest v ts e empty =
      let next = attempt_for g config at refused good rest in
      subst
        (λ w. IsConnected v.made good (
          move helpers (resume now 0 (got_connection id)) (moves helpers (refusals now refused) w)))
        (sym (refused-next now g config at server message refused good rest v ts e))
        (reach now g id config at refused good rest (record v { attempts = next ∷ v.attempts }) ts e
          empty)

  take_over-attempt :
      (now : ℕ) (input : StartRequest) (config : RoomConfig) (context : JoinContext)
      (refused : List (String × String)) (good : String) (rest : List String) (s : Service)
      → s.authoritative ≤ s.next_request
      → server_index input config.signal_servers ≡ servers_of refused good rest
      → with_context helpers now
          (suc s.next_request)
          input
          config
          (some context)
          (record s { next_request = suc s.next_request })
        ≡ record {
          service =
              taken now
                (suc s.next_request)
                config
                (some context)
                (record s { next_request = suc s.next_request });
          next = some (connecting (attempt_for (suc s.generation) config now refused good rest));
          closed = s.connection;
        }
  unfolding take_over
  take_over-attempt now input config context refused good rest s le e =
      let t =
        taken now (suc s.next_request) config (some context)
          (record s { next_request = suc s.next_request }) in
      rw (le→ltb-false (suc s.next_request) s.authoritative (omega (arith, le))) (
        ap (closing s.connection) (
          ap (λ l. connect_next helpers now (suc s.generation) config now l "undefined" t) e
          ∙ connect_next-attempt now (suc s.generation) config now refused good rest "undefined" t))

  started :
      (later : ℕ) (w : World) (input : StartRequest) (config : RoomConfig) (context : JoinContext)
      (refused : List (String × String)) (good : String) (rest : List String) (id : Option String)
      → IsTidy w
      → server_index input config.signal_servers ≡ servers_of refused good rest
      → IsConnected w.made good (
          move helpers (resume later 0 (got_connection id)) (
            moves helpers (refusals later refused) (
              move helpers
                (do_start later
                  (record input { room_config = some config; join_context = some context }))
                w)))
  unfolding move start
  started later w input config context refused good rest id t e =
      let s = w.service in
      let begun =
        take_over-attempt later
          (record input { room_config = some config; join_context = some context }) config context
          refused good rest s t.authority e in
      let attempt = attempt_for (suc s.generation) config later refused good rest in
      subst
        (λ step. IsConnected w.made good (
          move helpers (resume later 0 (got_connection id))
            (moves helpers (refusals later refused) (begin step w))))
        (sym begun)
        (reach later (suc s.generation) id config later refused good rest
          (record w {
            service =
                taken later (suc s.next_request) config (some context)
                  (record s { next_request = suc s.next_request });
            attempts = attempt ∷ w.attempts;
            alive = without s.connection w.alive;
          })
          w.tasks refl
          (nothing_alive (without s.connection w.alive)
            (All-without-none s.connection w.alive t.alive)))

  -- After any history, a start that is given a room and a join context, and whose servers refuse
  -- one after another until one accepts, ends with the service connected, if the start, the
  -- refusals in the order of the servers and the acceptance run one right after another, with no
  -- other move between them: the service holds the new connection, the status is connected and
  -- names that server, and no other connection is open.
  pub start-IsConnected :
      (now later : ℕ) (before : List Move) (input : StartRequest) (config : RoomConfig)
      (context : JoinContext) (refused : List (String × String)) (good : String)
      (rest : List String) (id : Option String)
      → server_index input config.signal_servers ≡ servers_of refused good rest
      → IsConnected (moves helpers before (new_world now)).made good (
          move helpers (resume later 0 (got_connection id)) (
            moves helpers (refusals later refused) (
              move helpers
                (do_start later
                  (record input { room_config = some config; join_context = some context }))
                (moves helpers before (new_world now)))))
  start-IsConnected now later before input config context refused good rest id e =
      started later (moves helpers before (new_world now)) input config context refused good rest id
        (moves-IsTidy helpers now before) e
