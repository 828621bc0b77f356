-- ===== src/Sessions/Runs.antt =====
-- Every sequence of operations keeps a registry valid.
use uurc_web_new.Prelude.{
  ℕ, ◌≤◌, ◌≡◌, refl, sym, ap, ◌∙◌, subst, Option, none, some, List, [], ◌∷◌, ◌++◌, length, leb,
  arith, Bool-cases, Option-cases, inl, inr, Outcome, ok, throw, append_assoc,
}
use uurc_web_new.Prelude.OrderedMap
use uurc_web_new.Prelude.OrderedMap.{Distinct}
use uurc_web_new.Sessions.{
  at_least_one, default_idle_ttl_ms, default_max_sessions, Registry, SessionEntry,
  RoomAuthorization, new_registry, lookup, release, is_expired, evict, prune_loop, prune_expired,
  get_or_create_in, get_or_create, get_in, get, authorize_in, authorize, timer_fired_in,
  timer_fired,
}
use uurc_web_new.Sessions.Valid.{
  IsValid, touch-IsValid, grant-IsValid, release-IsValid, evict-IsValid, create-IsValid,
}
use uurc_web_new.Sessions.Prune.{delete-middle, middle-ne}

at_least_one-le : (fallback : ℕ) (o : Option ℕ) → 1 ≤ at_least_one fallback o
at_least_one-le fallback none = ground arith
at_least_one-le fallback (some n) = ground arith

-- What the backend does to the registry.
pub data Operation (K : Type 0) : Type 0 where
  get_or_create_op : ℕ → K → Operation K
  get_op : ℕ → ℕ → K → Operation K
  authorize_op : ℕ → K → RoomAuthorization → Operation K
  release_op : K → Operation K
  timer_op : K → Operation K

module _ {K : Type 0} (dec : Discrete K) where
  unfoldable pub perform : Operation K → Registry K → Registry K
  perform (get_or_create_op now k) r = (get_or_create dec now k r).0
  perform (get_op now later k) r = (get dec now later k r).0
  perform (authorize_op now k a) r = (authorize dec now k a r).0
  perform (release_op k) r = release dec k r
  perform (timer_op k) r = timer_fired dec k r

  unfoldable pub run : List (Operation K) → Registry K → Registry K
  run [] r = r
  run (o ∷ os) r = run os (perform o r)

  get-middle :
      (k : K) (e : SessionEntry) (kept rest : List (K × SessionEntry))
      → Distinct dec (kept ++ (k, e) ∷ rest)
      → OrderedMap.get dec k (kept ++ (k, e) ∷ rest) ≡ some e
  unfolding OrderedMap.get
  get-middle k e [] rest d = ground arith
  get-middle k e ((j, f) ∷ kept) rest d =
      ground (arith, get-middle k e kept rest d.1, middle-ne dec k j e kept rest d.0)

  prune_loop-IsValid :
      (now : ℕ) (kept rest : List (K × SessionEntry)) (r : Registry K)
      → IsValid dec r
      → r.sessions ≡ kept ++ rest
      → IsValid dec (prune_loop dec now rest r)
  unfolding prune_loop evict release lookup
  prune_loop-IsValid now kept [] r v h = v
  prune_loop-IsValid now kept ((k, e) ∷ rest) r v h =
      let d : Distinct dec (kept ++ (k, e) ∷ rest) = subst (Distinct dec) h v.distinct in
      elim (Bool-cases (is_expired now r.idle_ttl_ms e)) [
        | inl y ↦ rw y (
            prune_loop-IsValid now kept rest (evict dec k e r)
              (evict-IsValid dec k e r v (ap (OrderedMap.get dec k) h ∙ get-middle k e kept rest d))
              (ap (OrderedMap.delete dec k) h ∙ delete-middle dec k e kept rest d))
        | inr n ↦ rw n (
            prune_loop-IsValid now (kept ++ (k, e) ∷ []) rest r v
              (h ∙ sym (append_assoc kept ((k, e) ∷ []) rest)))
      ]

  prune_expired-IsValid :
      (now : ℕ) (r : Registry K) → IsValid dec r → IsValid dec (prune_expired dec now r)
  unfolding prune_expired
  prune_expired-IsValid now r v = prune_loop-IsValid now [] r.sessions r v refl

  pub get_or_create-IsValid :
      (now : ℕ) (k : K) (r : Registry K) → IsValid dec r → IsValid dec (get_or_create dec now k r).0
  unfolding get_or_create get_or_create_in
  get_or_create-IsValid now k r v =
      let p : Registry K = prune_expired dec now r in
      let w : IsValid dec p = prune_expired-IsValid now r v in
      elim (Option-cases (lookup dec k p)) [
        | inl n ↦ rw n (elim (Bool-cases (leb p.max_sessions (length p.sessions))) [
          | inl full ↦ rw full w
          | inr room ↦ rw room (create-IsValid dec now k p w n (ground arith))
        ])
        | inr (e, s) ↦ rw s (touch-IsValid dec now k e p w s)
      ]

  get-IsValid :
      (now later : ℕ) (k : K) (r : Registry K)
      → IsValid dec r
      → IsValid dec (get dec now later k r).0
  unfolding get get_in
  get-IsValid now later k r v =
      let p : Registry K = prune_expired dec now r in
      let w : IsValid dec p = prune_expired-IsValid now r v in
      elim (Option-cases (lookup dec k p)) [
        | inl n ↦ rw n w
        | inr (e, s) ↦ rw s (touch-IsValid dec later k e p w s)
      ]

  authorize_in-IsValid :
      (k : K) (a : RoomAuthorization) (x : Registry K × Outcome ℕ)
      → IsValid dec x.0
      → IsValid dec (authorize_in dec k a x).0
  unfolding authorize_in
  authorize_in-IsValid k a (r, throw e) v = v
  authorize_in-IsValid k a (r, ok s) v = grant-IsValid dec k a r v

  timer_fired-IsValid : (k : K) (r : Registry K) → IsValid dec r → IsValid dec (timer_fired dec k r)
  unfolding timer_fired timer_fired_in
  timer_fired-IsValid k r v = elim (Option-cases (lookup dec k r)) [
    | inl n ↦ rw n v
    | inr (e, s) ↦ rw s (evict-IsValid dec k e r v s)
  ]

  perform-IsValid : (o : Operation K) (r : Registry K) → IsValid dec r → IsValid dec (perform o r)
  unfolding perform authorize
  perform-IsValid (get_or_create_op now k) r v = get_or_create-IsValid now k r v
  perform-IsValid (get_op now later k) r v = get-IsValid now later k r v
  perform-IsValid (authorize_op now k a) r v =
      authorize_in-IsValid k a (get_or_create dec now k r) (get_or_create-IsValid now k r v)
  perform-IsValid (release_op k) r v = release-IsValid dec k r v
  perform-IsValid (timer_op k) r v = timer_fired-IsValid k r v

  new_registry-IsValid : (max ttl : Option ℕ) → IsValid dec (new_registry max ttl)
  unfolding new_registry lookup OrderedMap.get
  new_registry-IsValid max ttl = record {
    distinct = tt;
    bounded = omega (arith, at_least_one-le default_max_sessions max);
    has_room = at_least_one-le default_max_sessions max;
    has_time = at_least_one-le default_idle_ttl_ms ttl;
    made = λ k e h. ground arith;
    apart = λ k j e f h i q. ground arith;
    running = λ k e h. tt;
    stopped_made = tt;
  }

  run-IsValid_of :
      (os : List (Operation K)) (r : Registry K) → IsValid dec r → IsValid dec (run os r)
  unfolding run
  run-IsValid_of [] r v = v
  run-IsValid_of (o ∷ os) r v = run-IsValid_of os (perform o r) (perform-IsValid o r v)

  -- After every sequence of operations on a new registry, whatever its options and the times: each
  -- session has one entry, there are at most as many as the registry may hold, no two sessions
  -- share a service, and no session's service has been stopped.
  pub run-IsValid :
      (max ttl : Option ℕ) (os : List (Operation K)) → IsValid dec (run os (new_registry max ttl))
  run-IsValid max ttl os = run-IsValid_of os (new_registry max ttl) (new_registry-IsValid max ttl)
