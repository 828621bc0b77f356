-- ===== src/Sessions/Access.antt =====
-- What the sessions' operations return, and what they leave of each session.
use uurc_web_new.Prelude.{
  ℕ, ◌≤◌, ◌≡◌, ◌≢◌, ◌↔◌, refl, sym, ap, ◌∙◌, Bool, true, false, not, Option, none, some, length,
  leb, if◌then◌else◌, arith, Bool-cases, Option-cases, inl, inr, Outcome, ok, throw, plain_error,
}
use uurc_web_new.Prelude.OrderedMap
use uurc_web_new.Sessions.{
  Registry, SessionEntry, RoomAuthorization, lookup, is_expired, prune_expired, touch, create,
  grant, get_or_create_in, get_or_create, get_in, get, authorize_in, authorize, authorization,
  granted_of,
}
use uurc_web_new.Sessions.Valid.{IsValid}
use uurc_web_new.Sessions.Prune.{live, prune_expired-live}

abbrev pub service_of : Option SessionEntry → Option ℕ
service_of none = none
service_of (some e) = some e.service

abbrev pub unless_expired : ℕ → ℕ → Option SessionEntry → Option SessionEntry
unless_expired now ttl none = none
unless_expired now ttl (some e) = if is_expired now ttl e then none else some e

if-not : {A : Type 0} (b : Bool) (x y : A) → (if not b then x else y) ≡ (if b then y else x)
if-not true x y = refl
if-not false x y = refl

module _ {K : Type 0} (dec : Discrete K) where
  -- The entry of a session that is not expired.
  abbrev pub live_entry : ℕ → K → Registry K → Option SessionEntry
  live_entry now k r = unless_expired now r.idle_ttl_ms (lookup dec k r)

  pub lookup-prune_expired :
      (now : ℕ) (k : K) (r : Registry K)
      → IsValid dec r
      → lookup dec k (prune_expired dec now r) ≡ live_entry now k r
  unfolding lookup
  lookup-prune_expired now k r v =
      let kept : SessionEntry → Bool = λ e. not (is_expired now r.idle_ttl_ms e) in
      rw (prune_expired-live dec now r v.distinct)
        (elim (Option-cases (OrderedMap.get dec k r.sessions)) [
          | inl n ↦ rw n (OrderedMap.get-select-none dec kept k r.sessions n)
          | inr (e, s) ↦ rw s (
              OrderedMap.get-select dec kept k e r.sessions v.distinct s
              ∙ if-not (is_expired now r.idle_ttl_ms e) (some e) none)
        ])

  get_or_create_in-throw_iff :
      (now : ℕ) (k : K) (o : Option SessionEntry) (p : Registry K)
      → ((get_or_create_in dec now k o p).1 ≡ throw plain_error)
        ↔ ((o ≡ none) × (p.max_sessions ≤ length p.sessions))
  unfolding get_or_create_in
  get_or_create_in-throw_iff now k none p = ground arith
  get_or_create_in-throw_iff now k (some e) p = ground arith

  get_or_create_in-own :
      (now : ℕ) (k : K) (s : ℕ) (o : Option SessionEntry) (p : Registry K)
      → (get_or_create_in dec now k o p).1 ≡ ok s
      → lookup dec k (get_or_create_in dec now k o p).0
        ≡ some (record { service = s; last_accessed_at = now; granted = granted_of o })
  unfolding get_or_create_in touch create lookup
  get_or_create_in-own now k s none p h =
      elim (Bool-cases (leb p.max_sessions (length p.sessions))) [
        | inl full ↦ ground (arith, full)
        | inr room ↦ rw room (
            OrderedMap.get-set_self dec k _ p.sessions
            ∙ ap (λ x. some (record { service = x; last_accessed_at = now; granted = none }))
                (ground (arith, room)))
      ]
  get_or_create_in-own now k s (some e) p h =
      OrderedMap.get-set_self dec k _ p.sessions
      ∙ ap (λ x. some (record { service = x; last_accessed_at = now; granted = e.granted }))
          (ground arith)

  get_or_create_in-others :
      (now : ℕ) (k j : K) (o : Option SessionEntry) (p : Registry K)
      → k ≢ j
      → lookup dec j (get_or_create_in dec now k o p).0 ≡ lookup dec j p
  unfolding get_or_create_in touch create lookup
  get_or_create_in-others now k j none p n =
      elim (Bool-cases (leb p.max_sessions (length p.sessions))) [
        | inl full ↦ rw full refl
        | inr room ↦ rw room (OrderedMap.get-set_ne dec k j _ p.sessions n)
      ]
  get_or_create_in-others now k j (some e) p n = OrderedMap.get-set_ne dec k j _ p.sessions n

  -- In a valid registry, `getOrCreate` throws exactly when the session has no live entry and at
  -- least as many others are live as the registry may hold.
  pub get_or_create_throw_iff :
      (now : ℕ) (k : K) (r : Registry K)
      → IsValid dec r
      → ((get_or_create dec now k r).1 ≡ throw plain_error) ↔ (
          (live_entry now k r ≡ none)
          × (r.max_sessions ≤ length (live dec now r.idle_ttl_ms r.sessions)))
  unfolding get_or_create get_or_create_in
  get_or_create_throw_iff now k r v =
      let p : Registry K = prune_expired dec now r in
      let entry : lookup dec k p ≡ live_entry now k r = lookup-prune_expired now k r v in
      let same : p.max_sessions ≡ r.max_sessions =
        ap (λ x. x.max_sessions) (prune_expired-live dec now r v.distinct) in
      let left : length p.sessions ≡ length (live dec now r.idle_ttl_ms r.sessions) =
        ap (λ x. length x.sessions) (prune_expired-live dec now r v.distinct) in
      let (to, from) = get_or_create_in-throw_iff now k (lookup dec k p) p in
      (
        λ h. let (a, b) = to h in (sym entry ∙ a, omega (arith, b, same, left)),
        λ h. from (entry ∙ h.0, omega (arith, h.1, same, left)),
      )

  -- In a valid registry, when `getOrCreate` returns a service, it is the session's, accessed now,
  -- with the authorization that the session had when it was live, and with none otherwise.
  pub get_or_create_own :
      (now : ℕ) (k : K) (s : ℕ) (r : Registry K)
      → IsValid dec r
      → (get_or_create dec now k r).1 ≡ ok s
      → lookup dec k (get_or_create dec now k r).0
        ≡ some (record {
          service = s;
          last_accessed_at = now;
          granted = granted_of (live_entry now k r);
        })
  unfolding get_or_create get_or_create_in touch create lookup
  get_or_create_own now k s r v h =
      get_or_create_in-own now k s (lookup dec k (prune_expired dec now r))
        (prune_expired dec now r) h
      ∙ ap (λ o. some (record { service = s; last_accessed_at = now; granted = granted_of o }))
          (lookup-prune_expired now k r v)

  -- In a valid registry, `getOrCreate`, whether it returns or throws, leaves each other session's
  -- live entry as it was, and no expired one.
  pub get_or_create_others :
      (now : ℕ) (k j : K) (r : Registry K)
      → IsValid dec r
      → k ≢ j
      → lookup dec j (get_or_create dec now k r).0 ≡ live_entry now j r
  unfolding get_or_create get_or_create_in touch create lookup
  get_or_create_others now k j r v n =
      get_or_create_in-others now k j (lookup dec k (prune_expired dec now r))
        (prune_expired dec now r) n
      ∙ lookup-prune_expired now j r v

  get_in-service :
      (later : ℕ) (k : K) (o : Option SessionEntry) (p : Registry K)
      → (get_in dec later k o p).1 ≡ service_of o
  unfolding get_in
  get_in-service later k none p = refl
  get_in-service later k (some e) p = refl

  -- In a valid registry, `get` returns the service of the session's live entry, and nothing when
  -- it has none.
  pub get-service :
      (now later : ℕ) (k : K) (r : Registry K)
      → IsValid dec r
      → (get dec now later k r).1 ≡ service_of (live_entry now k r)
  unfolding get
  get-service now later k r v =
      get_in-service later k (lookup dec k (prune_expired dec now r)) (prune_expired dec now r)
      ∙ ap service_of (lookup-prune_expired now k r v)

  grant-authorization :
      (k : K) (a : RoomAuthorization) (e : SessionEntry) (r : Registry K)
      → authorization dec k (grant dec k a (some e) r) ≡ some a
  unfolding authorization grant lookup
  grant-authorization k a e r =
      ap granted_of (OrderedMap.get-set_self dec k (record e { granted = some a }) r.sessions)

  authorize_in-authorization :
      (k : K) (a : RoomAuthorization) (x : Registry K × Outcome ℕ)
      → ((s : ℕ) → x.1 ≡ ok s → (e : SessionEntry) × (lookup dec k x.0 ≡ some e))
      → (authorize_in dec k a x).1 ≡ ok tt
      → authorization dec k (authorize_in dec k a x).0 ≡ some a
  unfolding authorize_in
  authorize_in-authorization k a (r, throw e) f h = ground (arith, h)
  authorize_in-authorization k a (r, ok s) f h =
      let (e, q) = f s refl in rw q (grant-authorization k a e r)

  authorize_in-throw_iff :
      (k : K) (a : RoomAuthorization) (x : Registry K × Outcome ℕ)
      → ((authorize_in dec k a x).1 ≡ throw plain_error) ↔ (x.1 ≡ throw plain_error)
  unfolding authorize_in
  authorize_in-throw_iff k a (r, throw e) = ground arith
  authorize_in-throw_iff k a (r, ok s) = ground arith

  -- In a valid registry, when `authorize` returns, the session has the authorization.
  pub authorize-authorization :
      (now : ℕ) (k : K) (a : RoomAuthorization) (r : Registry K)
      → IsValid dec r
      → (authorize dec now k a r).1 ≡ ok tt
      → authorization dec k (authorize dec now k a r).0 ≡ some a
  unfolding authorize
  authorize-authorization now k a r v h =
      authorize_in-authorization k a (get_or_create dec now k r)
        (λ s g. (_, get_or_create_own now k s r v g)) h

  -- In a valid registry, `authorize` throws exactly when the session has no live entry and at
  -- least as many others are live as the registry may hold.
  pub authorize-throw_iff :
      (now : ℕ) (k : K) (a : RoomAuthorization) (r : Registry K)
      → IsValid dec r
      → ((authorize dec now k a r).1 ≡ throw plain_error) ↔ (
          (live_entry now k r ≡ none)
          × (r.max_sessions ≤ length (live dec now r.idle_ttl_ms r.sessions)))
  unfolding authorize
  authorize-throw_iff now k a r v =
      let (to, from) = authorize_in-throw_iff k a (get_or_create dec now k r) in
      let (to', from') = get_or_create_throw_iff now k r v in (λ h. to' (to h), λ h. from (from' h))
