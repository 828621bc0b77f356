-- ===== src/Sessions/Prune.antt =====
-- `pruneExpired`: deleting from the map while iterating over it keeps exactly the live entries.
use uurc_web_new.Prelude.{
  ℕ, ◌≡◌, ◌≢◌, refl, sym, ap, ◌∙◌, subst, not, List, [], ◌∷◌, ◌++◌, map, select, arith, Bool-cases,
  inl, inr, append-nil, append_assoc,
}
use uurc_web_new.Prelude.OrderedMap
use uurc_web_new.Prelude.OrderedMap.{Distinct, Absent}
use uurc_web_new.Sessions.{
  Registry, SessionEntry, release, evict, is_expired, prune_loop, prune_expired,
}

module _ {K : Type 0} (dec : Discrete K) where
  -- The entries that are not expired, and the services of those that are.
  abbrev pub live : ℕ → ℕ → List (K × SessionEntry) → List (K × SessionEntry)
  live now ttl m = select (λ x. not (is_expired now ttl x.1)) m

  abbrev pub expired_services : ℕ → ℕ → List (K × SessionEntry) → List ℕ
  expired_services now ttl m = map (λ x. x.1.service) (select (λ x. is_expired now ttl x.1) m)

  pub middle-ne :
      (k j : K) (e : SessionEntry) (kept rest : List (K × SessionEntry))
      → Absent dec j (kept ++ (k, e) ∷ rest)
      → k ≢ j
  middle-ne k j e [] rest a = a.0
  middle-ne k j e (x ∷ kept) rest a = middle-ne k j e kept rest a.1

  Absent-middle :
      (j k : K) (e : SessionEntry) (kept rest : List (K × SessionEntry))
      → Absent dec j (kept ++ (k, e) ∷ rest)
      → Absent dec j (kept ++ rest)
  Absent-middle j k e [] rest a = a.1
  Absent-middle j k e (x ∷ kept) rest a = (a.0, Absent-middle j k e kept rest a.1)

  Distinct-middle :
      (k : K) (e : SessionEntry) (kept rest : List (K × SessionEntry))
      → Distinct dec (kept ++ (k, e) ∷ rest)
      → Distinct dec (kept ++ rest)
  Distinct-middle k e [] rest d = d.1
  Distinct-middle k e ((j, f) ∷ kept) rest d =
      (Absent-middle j k e kept rest d.0, Distinct-middle k e kept rest d.1)

  pub delete-middle :
      (k : K) (e : SessionEntry) (kept rest : List (K × SessionEntry))
      → Distinct dec (kept ++ (k, e) ∷ rest)
      → OrderedMap.delete dec k (kept ++ (k, e) ∷ rest) ≡ kept ++ rest
  unfolding OrderedMap.delete
  delete-middle k e [] rest d = ground arith
  delete-middle k e ((j, f) ∷ kept) rest d =
      ground (arith, delete-middle k e kept rest d.1, middle-ne k j e kept rest d.0)

  prune_loop-kept :
      (now : ℕ) (kept rest : List (K × SessionEntry)) (r : Registry K)
      → Distinct dec (kept ++ rest)
      → r.sessions ≡ kept ++ rest
      → prune_loop dec now rest r ≡ record r {
        sessions = kept ++ live now r.idle_ttl_ms rest;
        stopped = r.stopped ++ expired_services now r.idle_ttl_ms rest;
      }
  unfolding prune_loop evict release
  prune_loop-kept now kept [] r d h =
      rw (append-nil r.stopped) (ap (λ m. record r { sessions = m }) h)
  prune_loop-kept now kept ((k, e) ∷ rest) r d h =
      elim (Bool-cases (is_expired now r.idle_ttl_ms e)) [
        | inl y ↦ rw y (
            prune_loop-kept now kept rest (evict dec k e r) (Distinct-middle k e kept rest d)
              (ap (OrderedMap.delete dec k) h ∙ delete-middle k e kept rest d)
            ∙ ap (λ s. record r { sessions = kept ++ live now r.idle_ttl_ms rest; stopped = s })
                (append_assoc r.stopped (e.service ∷ []) (expired_services now r.idle_ttl_ms rest)))
        | inr n ↦ rw n (
            prune_loop-kept now (kept ++ (k, e) ∷ []) rest r
              (subst (Distinct dec) (sym (append_assoc kept ((k, e) ∷ []) rest)) d)
              (h ∙ sym (append_assoc kept ((k, e) ∷ []) rest))
            ∙ ap
                (λ m. record r {
                  sessions = m;
                  stopped = r.stopped ++ expired_services now r.idle_ttl_ms rest;
                })
                (append_assoc kept ((k, e) ∷ []) (live now r.idle_ttl_ms rest)))
      ]

  -- With one entry for each session, `pruneExpired` leaves exactly the entries that are not
  -- expired, in their order, stops exactly the services of the others, each once, and changes
  -- nothing else.
  pub prune_expired-live :
      (now : ℕ) (r : Registry K)
      → Distinct dec r.sessions
      → prune_expired dec now r ≡ record r {
        sessions = live now r.idle_ttl_ms r.sessions;
        stopped = r.stopped ++ expired_services now r.idle_ttl_ms r.sessions;
      }
  unfolding prune_expired
  prune_expired-live now r d = prune_loop-kept now [] r.sessions r d refl
