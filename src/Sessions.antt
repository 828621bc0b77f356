-- ===== src/Sessions.antt =====
-- The remote sessions of the backend (backend/src/services/remoteControlSessionRegistry.ts): one
-- control service per session, a bounded number of sessions, and eviction of idle ones.
--
-- A service is the number of its creation; `stopped` records the calls of `stopSignalGateway` in
-- order. A session's timer fires at some time of the runtime's choosing: `timer_fired`.
pub mod Prune
pub mod Valid
pub mod Access
pub mod Runs
pub mod Tests
use uurc_web_new.Prelude.{
  ℕ, ◌+◌, ◌*◌, suc, Bool, true, false, Option, none, some, List, [], ◌∷◌, ◌++◌, if◌then◌else◌, leb,
  length, Outcome, ok, throw, plain_error,
}
use uurc_web_new.Prelude.OrderedMap

-- `SignalRoomAuthorization` (shared/src/signalGateway/authorization.ts)
pub record RoomAuthorization : Type 0 where
  pub token : List ℕ
  pub servers : List (List ℕ)
  pub expires_at : ℕ

pub record SessionEntry : Type 0 where
  pub service : ℕ
  pub last_accessed_at : ℕ
  pub granted : Option RoomAuthorization

pub record Registry (K : Type 0) : Type 0 where
  pub max_sessions : ℕ
  pub idle_ttl_ms : ℕ
  pub sessions : List (K × SessionEntry)
  pub next_service : ℕ
  pub stopped : List ℕ

-- `DEFAULT_MAX_REMOTE_SESSIONS`, `REMOTE_SESSION_IDLE_MS`
abbrev pub default_max_sessions : ℕ
default_max_sessions = 64

abbrev pub default_idle_ttl_ms : ℕ
default_idle_ttl_ms = 2 * 60000

-- `Math.max(1, option ?? fallback)`
abbrev pub at_least_one : ℕ → Option ℕ → ℕ
at_least_one fallback none = if leb fallback 1 then 1 else fallback
at_least_one fallback (some n) = if leb n 1 then 1 else n

unfoldable pub new_registry : {K : Type 0} → Option ℕ → Option ℕ → Registry K
new_registry max ttl = record {
  max_sessions = at_least_one default_max_sessions max;
  idle_ttl_ms = at_least_one default_idle_ttl_ms ttl;
  sessions = [];
  next_service = 0;
  stopped = [];
}

-- `now - entry.lastAccessedAt >= this.idleTtlMs`
abbrev pub is_expired : ℕ → ℕ → SessionEntry → Bool
is_expired now ttl e = leb (e.last_accessed_at + ttl) now

-- `entry?.authorization`
abbrev pub granted_of : Option SessionEntry → Option RoomAuthorization
granted_of none = none
granted_of (some e) = e.granted

module _ {K : Type 0} (dec : Discrete K) where
  unfoldable pub lookup : K → Registry K → Option SessionEntry
  lookup k r = OrderedMap.get dec k r.sessions

  unfoldable pub release : K → Registry K → Registry K
  release k r = record r { sessions = OrderedMap.delete dec k r.sessions }

  unfoldable pub evict : K → SessionEntry → Registry K → Registry K
  unfolding release
  evict k e r =
      let released = release k r in record released { stopped = released.stopped ++ e.service ∷ [] }

  -- The loop of `pruneExpired` over the entries that the map had when it began: it deletes no entry
  -- but the one it is at.
  unfoldable pub prune_loop : ℕ → List (K × SessionEntry) → Registry K → Registry K
  prune_loop now [] r = r
  prune_loop now ((k, e) ∷ rest) r =
      prune_loop now rest (if is_expired now r.idle_ttl_ms e then evict k e r else r)

  unfoldable pub prune_expired : ℕ → Registry K → Registry K
  prune_expired now r = prune_loop now r.sessions r

  -- `existing.lastAccessedAt = now`, with the timer restarted.
  unfoldable pub touch : ℕ → K → SessionEntry → Registry K → Registry K
  touch now k e r = record r {
    sessions = OrderedMap.set dec k (record e { last_accessed_at = now }) r.sessions;
  }

  unfoldable pub create : ℕ → K → Registry K → Registry K
  create now k r = record r {
    sessions =
        OrderedMap.set dec k
          (record { service = r.next_service; last_accessed_at = now; granted = none }) r.sessions;
    next_service = suc r.next_service;
  }

  -- `getOrCreate` after `pruneExpired`, on what `sessions.get` returns.
  unfoldable pub get_or_create_in :
      ℕ → K → Option SessionEntry → Registry K → Registry K × Outcome ℕ
  get_or_create_in now k (some e) r = (touch now k e r, ok e.service)
  get_or_create_in now k none r =
      if leb r.max_sessions (length r.sessions)
      then (r, throw plain_error)
      else (create now k r, ok r.next_service)

  unfoldable pub get_or_create : ℕ → K → Registry K → Registry K × Outcome ℕ
  get_or_create now k r =
      let pruned = prune_expired now r in get_or_create_in now k (lookup k pruned) pruned

  unfoldable pub get_in : ℕ → K → Option SessionEntry → Registry K → Registry K × Option ℕ
  get_in now k none r = (r, none)
  get_in now k (some e) r = (touch now k e r, some e.service)

  -- `get`, which reads the clock twice.
  unfoldable pub get : ℕ → ℕ → K → Registry K → Registry K × Option ℕ
  get now later k r = let pruned = prune_expired now r in get_in later k (lookup k pruned) pruned

  unfoldable pub grant : K → RoomAuthorization → Option SessionEntry → Registry K → Registry K
  grant k a none r = r
  grant k a (some e) r = record r {
    sessions = OrderedMap.set dec k (record e { granted = some a }) r.sessions;
  }

  unfoldable pub authorize_in :
      K → RoomAuthorization → Registry K × Outcome ℕ → Registry K × Outcome (Unit {0})
  authorize_in k a (r, throw e) = (r, throw e)
  authorize_in k a (r, ok _) = (grant k a (lookup k r) r, ok tt)

  unfoldable pub authorize :
      ℕ → K → RoomAuthorization → Registry K → Registry K × Outcome (Unit {0})
  authorize now k a r = authorize_in k a (get_or_create now k r)

  unfoldable pub authorization : K → Registry K → Option RoomAuthorization
  authorization k r = granted_of (lookup k r)

  unfoldable pub timer_fired_in : K → Option SessionEntry → Registry K → Registry K
  timer_fired_in k none r = r
  timer_fired_in k (some e) r = evict k e r

  -- The callback of the session's `setTimeout`.
  unfoldable pub timer_fired : K → Registry K → Registry K
  timer_fired k r = timer_fired_in k (lookup k r) r

  unfoldable pub size : Registry K → ℕ
  size r = length r.sessions
