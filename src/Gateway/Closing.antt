-- ===== src/Gateway/Closing.antt =====
-- What keeps a stopped service closed: each piece of an operation whose request or generation is over.
use Prim.Native.String.{String}
use text.Mathlib.Text.{◌==◌ as str_eq}
use uurc_web_new.Prelude.{
  ℕ, suc, ◌≤◌, ◌<◌, ◌≡◌, refl, subst, inl, inr, false, ◌&&◌, not, Option, none, some, List, All,
  arith, Bool-cases, ◌==◌, ne→==-false, lt→ltb,
}
use uurc_web_new.Json.{Json}
use uurc_web_new.Readiness.{state_closed}
use uurc_web_new.Requests.{RoomConfig, JoinContext, StartRequest}
use uurc_web_new.Gateway.{
  Helpers, Service, Attempt, Task, Step, awaiting_config, awaiting_context, connecting,
  awaiting_stop_context, awaiting_clear, return_now, wait, is_current, stopped, clear_room,
  clear_after, send_control_on, send_soac_on, stop, with_context, take_over, connect_error,
  stop_context, room_cleared, room_clear_failed, send_control, send_soac, control_ack,
}
use uurc_web_new.Gateway.World.{add_attempt}
use uurc_web_new.Gateway.Effects.{Before}
use uurc_web_new.Gateway.Tasks.{All-imp}

-- A task of a request that lost its authority, or of a generation that is over.
abbrev pub Old : ℕ → ℕ → Task → Type 0
Old k g (awaiting_config n input) = n < k
Old k g (awaiting_context n input config) = n < k
Old k g (connecting attempt) = attempt.of_generation < g
Old k g _ = Unit {0}

abbrev pub NextOld : ℕ → ℕ → Option Task → Type 0
NextOld k g none = Unit {0}
NextOld k g (some task) = Old k g task

pub record StaysOff (s : Service) (step : Step) : Type 0 where
  pub connection : step.service.connection ≡ none
  pub status : step.service.gateway.status ≡ state_closed
  pub authority : s.authoritative ≤ step.service.authoritative
  pub generation : s.generation ≤ step.service.generation
  pub closed : step.closed ≡ none
  pub next : NextOld step.service.authoritative step.service.generation step.next

pub Old-mono : (k l g h : ℕ) (t : Task) → k ≤ l → g ≤ h → Old k g t → Old l h t
Old-mono k l g h (awaiting_config n input) p q o = omega (arith, o, p)
Old-mono k l g h (awaiting_context n input config) p q o = omega (arith, o, p)
Old-mono k l g h (connecting a) p q o = omega (arith, o, q)
Old-mono k l g h _ p q o = tt

pub Before-Old : (n g : ℕ) (t : Task) → Before n g t → Old (suc n) (suc g) t
Before-Old n g (awaiting_config k input) b = omega (arith, b)
Before-Old n g (awaiting_context k input config) b = omega (arith, b)
Before-Old n g (connecting a) b = omega (arith, b)
Before-Old n g _ b = tt

pub NextOld-some :
    (k g : ℕ) (next : Option Task) → NextOld k g next → (t : Task) → next ≡ some t → Old k g t
NextOld-some k g none o t e = ground arith
NextOld-some k g (some u) o t e = let path : u ≡ t = ground arith in subst (Old k g) path o

pub attempts-old :
    (k g h : ℕ) (next : Option Task) (attempts : List Attempt)
    → g ≤ h
    → NextOld k h next
    → All (λ a. a.of_generation < g) attempts
    → All (λ a. a.of_generation < h) (add_attempt next attempts)
attempts-old k g h (some (connecting a)) attempts le o all =
    (o, All-imp attempts (λ b lt. omega (arith, lt, le)) all)
attempts-old k g h (some (awaiting_config n input)) attempts le o all =
    All-imp attempts (λ b lt. omega (arith, lt, le)) all
attempts-old k g h (some (awaiting_context n input config)) attempts le o all =
    All-imp attempts (λ b lt. omega (arith, lt, le)) all
attempts-old k g h _ attempts le o all = All-imp attempts (λ b lt. omega (arith, lt, le)) all

-- The connection is closed, and the status says so.
pub record IsClosed (s : Service) : Type 0 where
  pub none_held : s.connection ≡ none
  pub says_closed : s.gateway.status ≡ state_closed

pub StaysOff-return_now :
    (s t : Service)
    → IsClosed t
    → s.authoritative ≡ t.authoritative
    → s.generation ≡ t.generation
    → StaysOff s (return_now t)
StaysOff-return_now s t c a g = record {
  connection = c.none_held;
  status = c.says_closed;
  authority = omega (arith, a);
  generation = omega (arith, g);
  closed = refl;
  next = tt;
}

StaysOff-wait :
    (s : Service) (task : Task)
    → IsClosed s
    → Old s.authoritative s.generation task
    → StaysOff s (wait s task)
StaysOff-wait s task c o = record {
  connection = c.none_held;
  status = c.says_closed;
  authority = omega arith;
  generation = omega arith;
  closed = refl;
  next = o;
}

pub is_current-none : (c g : ℕ) (s : Service) → s.connection ≡ none → is_current c g s ≡ false
unfolding is_current
is_current-none c g s e = ground arith

pub not_current : (g h : ℕ) → g < h → (g == h) ≡ false
not_current g h lt = ne→==-false g h (λ e. omega (arith, e, lt))

module _ (helpers : Helpers) where
  pub take_over-StaysOff :
      (now k : ℕ) (input : StartRequest) (config : RoomConfig) (context : Option JoinContext)
      (s : Service)
      → IsClosed s
      → k < s.authoritative
      → StaysOff s (take_over helpers now k input config context s)
  unfolding take_over
  take_over-StaysOff now k input config context s c lt =
      rw (lt→ltb k s.authoritative lt) (StaysOff-return_now s s c refl refl)

  pub with_context-StaysOff :
      (now k : ℕ) (input : StartRequest) (config : RoomConfig) (context : Option JoinContext)
      (s : Service)
      → IsClosed s
      → k < s.authoritative
      → StaysOff s (with_context helpers now k input config context s)
  with_context-StaysOff now k input config none s c lt =
      StaysOff-wait s (awaiting_context k input config) c lt
  with_context-StaysOff now k input config (some context) s c lt =
      take_over-StaysOff now k input config (some context) s c lt

  pub connect_error-StaysOff :
      (now : ℕ) (message : String) (attempt : Attempt) (s : Service)
      → IsClosed s
      → attempt.of_generation < s.generation
      → StaysOff s (connect_error helpers now message attempt s)
  unfolding connect_error
  connect_error-StaysOff now message attempt s c lt =
      rw (not_current attempt.of_generation s.generation lt) (StaysOff-return_now s s c refl refl)

  clear_room-StaysOff :
      (g : ℕ) (context : Option JoinContext) (s : Service)
      → IsClosed s
      → StaysOff s (clear_room helpers g context s)
  unfolding clear_room
  clear_room-StaysOff g none s c = StaysOff-return_now s s c refl refl
  clear_room-StaysOff g (some context) s c =
      elim (Bool-cases (helpers.can_clear && not (str_eq context.device_id ""))) [
        | inl y ↦ rw y (StaysOff-wait s (awaiting_clear g) c tt)
        | inr n ↦ rw n (StaysOff-return_now s s c refl refl)
      ]

  pub clear_after-StaysOff :
      (g : ℕ) (context : Option JoinContext) (s : Service)
      → IsClosed s
      → StaysOff s (clear_after helpers g context s)
  clear_after-StaysOff g none s c = StaysOff-wait s (awaiting_stop_context g) c tt
  clear_after-StaysOff g (some context) s c = clear_room-StaysOff g (some context) s c

  pub stop-StaysOff :
      (now : ℕ) (s : Service)
      → IsClosed s
      → s.authoritative ≤ s.next_request
      → StaysOff s (stop helpers now s)
  unfolding stop
  stop-StaysOff now s c le =
      let o =
        clear_after-StaysOff (suc s.generation) s.join_context (stopped now s)
          (record { none_held = refl; says_closed = refl }) in
      record {
        connection = o.connection;
        status = o.status;
        authority = omega (arith, o.authority, le);
        generation = omega (arith, o.generation);
        closed = c.none_held;
        next = o.next;
      }

  pub stop_context-StaysOff :
      (g : ℕ) (context : Option JoinContext) (s : Service)
      → IsClosed s
      → StaysOff s (stop_context helpers g context s)
  unfolding stop_context
  stop_context-StaysOff g context s c = elim (Bool-cases (g == s.generation)) [
    | inl y ↦ rw y (clear_room-StaysOff g context s c)
    | inr n ↦ rw n (StaysOff-return_now s s c refl refl)
  ]

  pub room_cleared-StaysOff :
      (now g : ℕ) (summary : Json) (s : Service)
      → IsClosed s
      → StaysOff s (room_cleared helpers now g summary s)
  unfolding room_cleared
  room_cleared-StaysOff now g summary s c = elim (Bool-cases (g == s.generation)) [
    | inl y ↦ rw y (
        StaysOff-return_now s
          (record s {
            gateway = record (s.gateway) { room_clear = some summary; updated_at = now };
          })
          (record { none_held = c.none_held; says_closed = c.says_closed }) refl refl)
    | inr n ↦ rw n (StaysOff-return_now s s c refl refl)
  ]

  pub room_clear_failed-StaysOff :
      (now g : ℕ) (message : String) (s : Service)
      → IsClosed s
      → StaysOff s (room_clear_failed helpers now g message s)
  unfolding room_clear_failed
  room_clear_failed-StaysOff now g message s c = elim (Bool-cases (g == s.generation)) [
    | inl y ↦ rw y (
        StaysOff-return_now s
          (record s {
            gateway = record (s.gateway) { room_clear_error = some message; updated_at = now };
          })
          (record { none_held = c.none_held; says_closed = c.says_closed }) refl refl)
    | inr n ↦ rw n (StaysOff-return_now s s c refl refl)
  ]

  send_control_on-StaysOff :
      (now : ℕ) (payload : Json) (o : Option ℕ) (s : Service)
      → o ≡ none
      → IsClosed s
      → StaysOff s (send_control_on helpers now payload o s)
  send_control_on-StaysOff now payload none s e c = StaysOff-return_now s s c refl refl
  send_control_on-StaysOff now payload (some o) s e c = ground arith

  pub send_control-StaysOff :
      (now : ℕ) (payload : Json) (s : Service)
      → IsClosed s
      → StaysOff s (send_control helpers now payload s)
  unfolding send_control
  send_control-StaysOff now payload s c =
      send_control_on-StaysOff now payload s.connection s c.none_held c

  send_soac_on-StaysOff :
      (now : ℕ) (payload : Json) (o : Option ℕ) (s : Service)
      → o ≡ none
      → IsClosed s
      → StaysOff s (send_soac_on helpers now payload o s)
  send_soac_on-StaysOff now payload none s e c = StaysOff-return_now s s c refl refl
  send_soac_on-StaysOff now payload (some o) s e c = ground arith

  pub send_soac-StaysOff :
      (now : ℕ) (payload : Json) (s : Service)
      → IsClosed s
      → StaysOff s (send_soac helpers now payload s)
  unfolding send_soac
  send_soac-StaysOff now payload s c =
      send_soac_on-StaysOff now payload s.connection s c.none_held c

  pub control_ack-StaysOff :
      (now k g : ℕ) (ack : List Json) (s : Service)
      → IsClosed s
      → StaysOff s (control_ack helpers now k g ack s)
  unfolding control_ack
  control_ack-StaysOff now k g ack s c =
      rw (is_current-none k g s c.none_held) (StaysOff-return_now s s c refl refl)
