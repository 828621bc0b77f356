-- ===== src/EventLog/Kept.antt =====
-- The log stays within its limits, in the order of its identifiers.
use Prim.Native.String.{String}
use uurc_web_new.Prelude.{
  ℕ, zero, suc, ◌+◌, ◌-◌, ◌≤◌, ◌≡◌, refl, sym, ap, ◌∙◌, Bool, true, some, List, [], ◌∷◌, ◌++◌,
  length, length-drop, get_elem?, drop, select, ltb, arith, Bool-cases, Option-cases, inl, inr, All,
  append_assoc,
}
use uurc_web_new.EventLog.{
  SignalEvent, EventLog, Direction, max_events, max_event_bytes, is_recent, slice_last,
  start_index_loop, record_event,
}

drop-get_elem? :
    {A : Type 0} (xs : List A) (k : ℕ) (x : A)
    → get_elem? xs k ≡ some x
    → drop k xs ≡ x ∷ drop (suc k) xs
drop-get_elem? [] zero x h = ground (arith, h)
drop-get_elem? [] (suc k) x h = ground (arith, h)
drop-get_elem? (y ∷ ys) zero x h = ground (arith, h)
drop-get_elem? (y ∷ ys) (suc k) x h = drop-get_elem? ys k x h

drop-suffix : {A : Type 0} (n : ℕ) (xs : List A) → (front : List A) × (front ++ drop n xs ≡ xs)
drop-suffix zero xs = ([], refl)
drop-suffix (suc n) [] = ([], refl)
drop-suffix (suc n) (x ∷ xs) = let (front, e) = drop-suffix n xs in (x ∷ front, ap (λ l. x ∷ l) e)

module _ {P : Type 0} where
  -- Identifiers rise, from `low` on and below `high`.
  abbrev pub Rising : ℕ → List (SignalEvent P) → ℕ → Type 0
  Rising low [] high = low ≤ high
  Rising low (e ∷ es) high = (low ≤ e.id) × Rising (suc e.id) es high

  Rising-lower :
      (low low' high : ℕ) (es : List (SignalEvent P))
      → low' ≤ low
      → Rising low es high
      → Rising low' es high
  Rising-lower low low' high [] h r = omega (arith, h, r)
  Rising-lower low low' high (e ∷ es) h r = (omega (arith, h, r.0), r.1)

  Rising-select :
      (p : SignalEvent P → Bool) (low high : ℕ) (es : List (SignalEvent P))
      → Rising low es high
      → Rising low (select p es) high
  Rising-select p low high [] r = r
  Rising-select p low high (e ∷ es) r = elim (Bool-cases (p e)) [
    | inl y ↦ rw y (r.0, Rising-select p (suc e.id) high es r.1)
    | inr n ↦ rw n (
        Rising-lower (suc e.id) low high (select p es) (omega (arith, r.0))
          (Rising-select p (suc e.id) high es r.1))
  ]

  Rising-drop :
      (n low high : ℕ) (es : List (SignalEvent P))
      → Rising low es high
      → Rising low (drop n es) high
  Rising-drop zero low high es r = r
  Rising-drop (suc n) low high [] r = r
  Rising-drop (suc n) low high (e ∷ es) r =
      Rising-lower (suc e.id) low high (drop n es) (omega (arith, r.0))
        (Rising-drop n (suc e.id) high es r.1)

  Rising-snoc :
      (low high : ℕ) (es : List (SignalEvent P)) (e : SignalEvent P)
      → Rising low es high
      → e.id ≡ high
      → Rising low (es ++ e ∷ []) (suc high)
  Rising-snoc low high [] e r h = (omega (arith, r, h), omega (arith, h))
  Rising-snoc low high (x ∷ xs) e r h = (r.0, Rising-snoc (suc x.id) high xs e r.1 h)

  All-select :
      (p : SignalEvent P → Bool) (es : List (SignalEvent P)) → All (λ e. p e ≡ true) (select p es)
  All-select p [] = tt
  All-select p (e ∷ es) = elim (Bool-cases (p e)) [
    | inl y ↦ rw y (y, All-select p es)
    | inr n ↦ rw n (All-select p es)
  ]

  All-drop :
      (Q : SignalEvent P → Type 0) (n : ℕ) (es : List (SignalEvent P))
      → All Q es
      → All Q (drop n es)
  All-drop Q zero es a = a
  All-drop Q (suc n) [] a = a
  All-drop Q (suc n) (e ∷ es) a = All-drop Q n es a.1

  module _ (size_of : SignalEvent P → ℕ) where
    abbrev pub total_size : List (SignalEvent P) → ℕ
    total_size [] = 0
    total_size (e ∷ es) = size_of e + total_size es

    start_index_loop-size :
        (es : List (SignalEvent P)) (start retained : ℕ)
        → retained ≡ total_size (drop start es)
        → retained ≤ max_event_bytes
        → total_size (drop (start_index_loop size_of es start retained) es) ≤ max_event_bytes
    unfolding start_index_loop
    start_index_loop-size es zero retained h b = omega (arith, h, b)
    start_index_loop-size es (suc start) retained h b = elim (Option-cases (get_elem? es start)) [
      | inl n ↦ rw (n, total_size) (omega (arith, h, b))
      | inr (e, s) ↦
          let more : total_size (drop start es) ≡ size_of e + total_size (drop (suc start) es) =
            ap total_size (drop-get_elem? es start e s) in
          elim (Bool-cases (ltb max_event_bytes (retained + size_of e))) [
            | inl full ↦ rw (s, full, total_size) (omega (arith, h, b))
            | inr room ↦
                rw (s, room, total_size)
                  (start_index_loop-size es start (retained + size_of e) (omega (arith, more, h))
                    (ground (arith, room)))
          ]
    ]

    drop-all : (es : List (SignalEvent P)) → total_size (drop (length es) es) ≡ 0
    drop-all [] = refl
    drop-all (e ∷ es) = drop-all es

    -- What holds of a log.
    pub record IsKept (log : EventLog P) : Type 0 where
      pub rising : Rising 1 log.events log.next_id
      pub few : length log.events ≤ max_events
      pub small : total_size log.events ≤ max_event_bytes

    -- From a log within its limits and in order, `recordSignalEvent` keeps at most 200 events of
    -- at most 2 MiB together, their identifiers rising; every event that is kept is recent; and
    -- they are the last ones of the recent events with the new one behind them, none left out
    -- between.
    pub record_event-IsKept :
        (received_at now : ℕ) (direction : Direction) (event : String) (payload : P)
        (log : EventLog P)
        → IsKept log
        → IsKept (record_event size_of received_at now direction event payload log).0
          × All
              (λ e. is_recent now e ≡ true)
              (record_event size_of received_at now direction event payload log).0.events
          × ((front : List (SignalEvent P)) × (front
                  ++ (record_event size_of received_at now direction event payload log).0.events
                ≡ select (is_recent now) (
                    log.events
                    ++ (record_event size_of received_at now direction event payload log).1 ∷ [])))
    unfolding record_event
    record_event-IsKept received_at now direction event payload log k =
        let recorded : SignalEvent P = record {
          id = log.next_id;
          direction = direction;
          event = event;
          received_at = received_at;
          payload = payload;
        } in
        let recent : List (SignalEvent P) = select (is_recent now) (log.events ++ recorded ∷ []) in
        let last : List (SignalEvent P) = slice_last max_events recent in
        let start : ℕ = start_index_loop size_of last (length last) 0 in
        let (front, e) = drop-suffix (length recent - max_events) recent in
        let (front', e') = drop-suffix start last in
        (
          record {
            rising = Rising-drop start 1 (suc log.next_id) last (
                Rising-drop (length recent - max_events) 1 (suc log.next_id) recent (
                  Rising-select (is_recent now) 1 (suc log.next_id) (log.events ++ recorded ∷ [])
                    (Rising-snoc 1 log.next_id log.events recorded k.rising refl)));
            few =
                omega
                  (arith, length-drop start last, length-drop (length recent - max_events) recent);
            small = start_index_loop-size last (length last) 0 (sym (drop-all last)) (omega arith);
          },
          All-drop (λ x. is_recent now x ≡ true) start last
              (All-drop (λ x. is_recent now x ≡ true) (length recent - max_events) recent
                (All-select (is_recent now) (log.events ++ recorded ∷ []))),
          (
            front ++ front',
            append_assoc front front' (drop start last) ∙ ap (λ l. front ++ l) e' ∙ e,
          ),
        )
