-- ===== src/Sessions/Valid.antt =====
-- What holds of a registry between operations, and what keeps it.
use uurc_web_new.Prelude.{
  ℕ, ◌<◌, ◌≤◌, suc, ◌≡◌, ◌≢◌, refl, sym, ap, ◌∙◌, subst, none, some, List, [], ◌∷◌, ◌++◌, All,
  length, arith, Option-cases, inl, inr, ◌⊎◌,
}
use uurc_web_new.Prelude.OrderedMap
use uurc_web_new.Prelude.OrderedMap.{Distinct}
use uurc_web_new.Sessions.{
  Registry, SessionEntry, RoomAuthorization, lookup, release, evict, touch, create, grant,
}

-- Each session has one entry; the map is within the capacity; every service is of its own session,
-- made by this registry, and not stopped.
pub record IsValid {K : Type 0} (dec : Discrete K) (r : Registry K) : Type 0 where
  pub distinct : Distinct dec r.sessions
  pub bounded : length r.sessions ≤ r.max_sessions
  pub has_room : 1 ≤ r.max_sessions
  pub has_time : 1 ≤ r.idle_ttl_ms
  pub made : (k : K) (e : SessionEntry) → lookup dec k r ≡ some e → e.service < r.next_service
  pub apart :
      (k j : K) (e f : SessionEntry)
      → lookup dec k r ≡ some e
      → lookup dec j r ≡ some f
      → e.service ≡ f.service
      → k ≡ j
  pub running :
      (k : K) (e : SessionEntry) → lookup dec k r ≡ some e → All (λ s. s ≢ e.service) r.stopped
  pub stopped_made : All (λ s. s < r.next_service) r.stopped

All-snoc :
    {A : Type 0} (P : A → Type 0) (xs : List A) (x : A) → All P xs → P x → All P (xs ++ x ∷ [])
All-snoc P [] x h p = (p, tt)
All-snoc P (y ∷ ys) x h p = (h.0, All-snoc P ys x h.1 p)

All-mono :
    {A : Type 0} (P Q : A → Type 0) → ((x : A) → P x → Q x) → (xs : List A) → All P xs → All Q xs
All-mono P Q f [] h = tt
All-mono P Q f (x ∷ xs) h = (f x h.0, All-mono P Q f xs h.1)

module _ {K : Type 0} (dec : Discrete K) where
  -- `sessions` keeps only services that `r` has, each at its session.
  abbrev pub Narrows : List (K × SessionEntry) → Registry K → Type 0
  Narrows sessions r =
      (k : K) (e : SessionEntry)
      → OrderedMap.get dec k sessions ≡ some e
      → (f : SessionEntry) × (lookup dec k r ≡ some f) × (e.service ≡ f.service)

  narrowed :
      (r : Registry K) (sessions : List (K × SessionEntry))
      → IsValid dec r
      → Distinct dec sessions
      → length sessions ≤ length r.sessions
      → Narrows sessions r
      → IsValid dec (record r { sessions = sessions })
  unfolding lookup
  narrowed r sessions v d l n = record {
    distinct = d;
    bounded = omega (arith, l, v.bounded);
    has_room = v.has_room;
    has_time = v.has_time;
    made = λ k e h. let (f, g, s) = n k e h in omega (arith, s, v.made k f g);
    apart = λ k j e f h i q.
        let (e', g, s) = n k e h in
        let (f', g', s') = n j f i in v.apart k j e' f' g g' (omega (arith, s, s', q));
    running = λ k e h.
        let (f, g, s) = n k e h in
        subst (λ x. All (λ y. y ≢ x) r.stopped) (sym s) (v.running k f g);
    stopped_made = v.stopped_made;
  }

  replaced-length :
      (k : K) (e f : SessionEntry) (r : Registry K)
      → lookup dec k r ≡ some e
      → length (OrderedMap.set dec k f r.sessions) ≡ length r.sessions
  unfolding lookup
  replaced-length k e f r h = OrderedMap.length-set_old dec k f e r.sessions h

  replaced-Narrows :
      (k : K) (e f : SessionEntry) (r : Registry K)
      → lookup dec k r ≡ some e
      → f.service ≡ e.service
      → Narrows (OrderedMap.set dec k f r.sessions) r
  unfolding lookup
  replaced-Narrows k e f r h s j g i = elim (OrderedMap.get-set_cases dec k j f g r.sessions i) [
    | inl (p, q) ↦ (e, subst (λ x. lookup dec x r ≡ some e) p h, ap (λ x. x.service) q ∙ s)
    | inr (_, q) ↦ (g, q, refl)
  ]

  -- Giving a session's entry anew with its service keeps the services.
  replaced :
      (k : K) (e f : SessionEntry) (r : Registry K)
      → IsValid dec r
      → lookup dec k r ≡ some e
      → f.service ≡ e.service
      → IsValid dec (record r { sessions = OrderedMap.set dec k f r.sessions })
  replaced k e f r v h s =
      narrowed r (OrderedMap.set dec k f r.sessions) v
        (OrderedMap.Distinct-set dec k f r.sessions v.distinct)
        (omega (arith, replaced-length k e f r h)) (replaced-Narrows k e f r h s)

  pub touch-IsValid :
      (now : ℕ) (k : K) (e : SessionEntry) (r : Registry K)
      → IsValid dec r
      → lookup dec k r ≡ some e
      → IsValid dec (touch dec now k e r)
  unfolding touch
  touch-IsValid now k e r v h = replaced k e (record e { last_accessed_at = now }) r v h refl

  pub grant-IsValid :
      (k : K) (a : RoomAuthorization) (r : Registry K)
      → IsValid dec r
      → IsValid dec (grant dec k a (lookup dec k r) r)
  unfolding grant
  grant-IsValid k a r v = elim (Option-cases (lookup dec k r)) [
    | inl n ↦ rw n v
    | inr (e, s) ↦ rw s (replaced k e (record e { granted = some a }) r v s refl)
  ]

  pub release-IsValid : (k : K) (r : Registry K) → IsValid dec r → IsValid dec (release dec k r)
  unfolding release lookup
  release-IsValid k r v =
      narrowed r (OrderedMap.delete dec k r.sessions) v
        (OrderedMap.Distinct-delete dec k r.sessions v.distinct)
        (OrderedMap.length-delete-le dec k r.sessions)
        (λ j e h. (e, (OrderedMap.get-delete_cases dec k j e r.sessions v.distinct h).1, refl))

  pub evict-IsValid :
      (k : K) (e : SessionEntry) (r : Registry K)
      → IsValid dec r
      → lookup dec k r ≡ some e
      → IsValid dec (evict dec k e r)
  unfolding evict release lookup
  evict-IsValid k e r v h =
      let w : IsValid dec (release dec k r) = release-IsValid k r v in
      record {
        distinct = w.distinct;
        bounded = w.bounded;
        has_room = w.has_room;
        has_time = w.has_time;
        made = w.made;
        apart = w.apart;
        running = λ j f i.
            let (n, q) = OrderedMap.get-delete_cases dec k j f r.sessions v.distinct i in
            All-snoc (λ s. s ≢ f.service) r.stopped e.service (w.running j f i)
              (λ s. n (v.apart k j e f h q s));
        stopped_made =
            All-snoc (λ s. s < r.next_service) r.stopped e.service v.stopped_made (v.made k e h);
      }

  pub create-IsValid :
      (now : ℕ) (k : K) (r : Registry K)
      → IsValid dec r
      → lookup dec k r ≡ none
      → length r.sessions < r.max_sessions
      → IsValid dec (create dec now k r)
  unfolding create lookup
  create-IsValid now k r v h l =
      let new : SessionEntry = record {
        service = r.next_service;
        last_accessed_at = now;
        granted = none;
      } in
      let cases : (j : K) (f : SessionEntry)
          → OrderedMap.get dec j (OrderedMap.set dec k new r.sessions) ≡ some f
          → ((k ≡ j) × (f ≡ new)) ⊎ ((k ≢ j) × (lookup dec j r ≡ some f)) =
        λ j f i. OrderedMap.get-set_cases dec k j new f r.sessions i in
      record {
        distinct = OrderedMap.Distinct-set dec k new r.sessions v.distinct;
        bounded = omega (arith, l, OrderedMap.length-set_new dec k new r.sessions h);
        has_room = v.has_room;
        has_time = v.has_time;
        made = λ j f i. elim (cases j f i) [
          | inl (p, q) ↦ omega (arith, ap (λ x. x.service) q)
          | inr (_, q) ↦ omega (arith, v.made j f q)
        ];
        apart = λ i j e f a b q. elim (cases i e a) [
          | inl (p, s) ↦ elim (cases j f b) [
            | inl (p', _) ↦ sym p ∙ p'
            | inr (_, b') ↦
                let no_way : ⊥ = omega (arith, v.made j f b', ap (λ x. x.service) s, q) in
                elim no_way [ ]
          ]
          | inr (_, a') ↦ elim (cases j f b) [
            | inl (_, s) ↦
                let no_way : ⊥ = omega (arith, v.made i e a', ap (λ x. x.service) s, q) in
                elim no_way [ ]
            | inr (_, b') ↦ v.apart i j e f a' b' q
          ]
        ];
        running = λ j f i. elim (cases j f i) [
          | inl (_, q) ↦
              All-mono (λ s. s < r.next_service) (λ s. s ≢ f.service)
                (λ s below same. omega (arith, below, same, ap (λ x. x.service) q)) r.stopped
                v.stopped_made
          | inr (_, q) ↦ v.running j f q
        ];
        stopped_made =
            All-mono (λ s. s < r.next_service) (λ s. s < suc r.next_service)
              (λ s b. omega (arith, b)) r.stopped v.stopped_made;
      }
