-- ===== src/Sessions/Tests.antt =====
-- The registry with two places and ten milliseconds, on sessions that are numbers.
use mathlib.Core.Logic.{◌↔◌}
use uurc_web_new.Prelude.{
  ℕ, ◌≤◌, ◌≡◌, refl, subst, none, some, List, [], ◌∷◌, ◌++◌, length, ok, throw, plain_error, arith,
  ℕ_discrete,
}
use uurc_web_new.Prelude.OrderedMap
use uurc_web_new.Sessions.{
  Registry, SessionEntry, RoomAuthorization, new_registry, lookup, prune_expired, prune_loop,
  get_or_create, get_or_create_in, get, authorize, authorize_in, authorization, release, evict,
  touch, create, grant,
}
use uurc_web_new.Sessions.Valid.{IsValid}
use uurc_web_new.Sessions.Prune.{live, expired_services, prune_expired-live}
use uurc_web_new.Sessions.Access.{
  live_entry, get_or_create_throw_iff, get_or_create_own, get_or_create_others, get-service,
  authorize-authorization, authorize-throw_iff,
}
use uurc_web_new.Sessions.Runs.{
  Operation, get_or_create_op, authorize_op, perform, run, run-IsValid,
}

abbrev pass : RoomAuthorization
pass = record { token = 1 ∷ []; servers = []; expires_at = 99 }

abbrev opened : SessionEntry
opened = record { service = 0; last_accessed_at = 5; granted = none }

abbrev busy : Registry ℕ
busy = record {
  max_sessions = 2;
  idle_ttl_ms = 10;
  sessions =
      (7, opened) ∷ (8, record { service = 1; last_accessed_at = 12; granted = some pass }) ∷ [];
  next_service = 2;
  stopped = [];
}

abbrev opening : List (Operation ℕ)
opening = get_or_create_op 5 7 ∷ authorize_op 12 8 pass ∷ []

run-opening : run ℕ_discrete opening (new_registry (some 2) (some 10)) ≡ busy
unfolding run perform get_or_create get_or_create_in prune_expired prune_loop lookup touch create
    new_registry authorize authorize_in grant OrderedMap.get OrderedMap.set ℕ_discrete
run-opening = refl

busy-IsValid : IsValid ℕ_discrete busy
busy-IsValid =
    subst (IsValid ℕ_discrete) run-opening (run-IsValid ℕ_discrete (some 2) (some 10) opening)

prune_expired-live_example : prune_expired ℕ_discrete 15 busy ≡ record busy {
  sessions = live ℕ_discrete 15 10 busy.sessions;
  stopped = [] ++ expired_services ℕ_discrete 15 10 busy.sessions;
}
prune_expired-live_example = prune_expired-live ℕ_discrete 15 busy busy-IsValid.distinct

get_or_create_throw_iff_example : ((get_or_create ℕ_discrete 14 9 busy).1 ≡ throw plain_error) ↔ (
    (live_entry ℕ_discrete 14 9 busy ≡ none) × (2 ≤ length (live ℕ_discrete 14 10 busy.sessions)))
get_or_create_throw_iff_example = get_or_create_throw_iff ℕ_discrete 14 9 busy busy-IsValid

get_at_15 : (get_or_create ℕ_discrete 15 7 busy).1 ≡ ok 2
unfolding get_or_create get_or_create_in prune_expired prune_loop lookup evict release
    OrderedMap.get OrderedMap.delete ℕ_discrete
get_at_15 = refl

get_or_create_own_example :
    lookup ℕ_discrete 7 (get_or_create ℕ_discrete 15 7 busy).0
    ≡ some (record { service = 2; last_accessed_at = 15; granted = none })
unfolding lookup OrderedMap.get ℕ_discrete
get_or_create_own_example = get_or_create_own ℕ_discrete 15 7 2 busy busy-IsValid get_at_15

get_or_create_others_example :
    lookup ℕ_discrete 8 (get_or_create ℕ_discrete 15 7 busy).0 ≡ live_entry ℕ_discrete 15 8 busy
get_or_create_others_example =
    get_or_create_others ℕ_discrete 15 7 8 busy busy-IsValid (ground arith)

get-service_example : (get ℕ_discrete 15 16 8 busy).1 ≡ some 1
unfolding lookup OrderedMap.get ℕ_discrete
get-service_example = get-service ℕ_discrete 15 16 8 busy busy-IsValid

authorize_at_15 : (authorize ℕ_discrete 15 7 pass busy).1 ≡ ok tt
unfolding authorize authorize_in get_or_create get_or_create_in prune_expired prune_loop lookup
    evict release OrderedMap.get OrderedMap.delete ℕ_discrete
authorize_at_15 = refl

authorize-authorization_example :
    authorization ℕ_discrete 7 (authorize ℕ_discrete 15 7 pass busy).0 ≡ some pass
authorize-authorization_example =
    authorize-authorization ℕ_discrete 15 7 pass busy busy-IsValid authorize_at_15

authorize-throw_iff_example : ((authorize ℕ_discrete 14 9 pass busy).1 ≡ throw plain_error) ↔ (
    (live_entry ℕ_discrete 14 9 busy ≡ none) × (2 ≤ length (live ℕ_discrete 14 10 busy.sessions)))
authorize-throw_iff_example = authorize-throw_iff ℕ_discrete 14 9 pass busy busy-IsValid

run-IsValid_example : IsValid ℕ_discrete (run ℕ_discrete opening (new_registry (some 2) (some 10)))
run-IsValid_example = run-IsValid ℕ_discrete (some 2) (some 10) opening
