-- ===== src/Touch/Slots.antt =====
-- One touch: which slot it gets, and what that does to the others.
use uurc_web_new.Prelude.{
  ℕ, ◌≤◌, ◌≡◌, ◌≢◌, ◌↔◌, refl, sym, ap, subst, ◌∙◌, true, false, Option, none, some, List, [], ◌∷◌,
  ℕ_discrete, All, arith, Bool-cases, Option-cases, inl, inr, ◌⊎◌,
}
use uurc_web_new.Prelude.OrderedMap
use uurc_web_new.Prelude.OrderedMap.{Distinct}
use uurc_web_new.Touch.{
  Active, lookup, is_used, find_free, take_slot, slot_for_touch_in, slot_for_touch, touch_slots,
  delete_all,
}

-- A touch has one slot, a slot one touch, and a slot is one of the six.
pub record IsTracked (active : Active) : Type 0 where
  pub distinct : Distinct ℕ_discrete active
  pub separate : (i j s : ℕ) → lookup i active ≡ some s → lookup j active ≡ some s → i ≡ j
  pub in_range : (i s : ℕ) → lookup i active ≡ some s → (26 ≤ s) × (s ≤ 31)

pub nil-IsTracked : IsTracked []
unfolding OrderedMap.get
nil-IsTracked = record {
  distinct = tt;
  separate = λ i j s a b. ground arith;
  in_range = λ i s e. ground arith;
}

unused : (active : Active) (s i : ℕ) → is_used active s ≡ false → lookup i active ≢ some s
unfolding OrderedMap.get
unused [] s i h e = ground arith
unused ((j, w) ∷ active) s i h e = ground (arith, unused active s i)

find_free-unused :
    (active : Active) (slots : List ℕ) (s : ℕ)
    → find_free active slots ≡ some s
    → All (λ x. (26 ≤ x) × (x ≤ 31)) slots
    → (is_used active s ≡ false) × (26 ≤ s) × (s ≤ 31)
unfolding find_free
find_free-unused active [] s h a = ground arith
find_free-unused active (x ∷ xs) s h a = elim (Bool-cases (is_used active x)) [
  | inl y ↦ find_free-unused active xs s (rw (y, find_free) at h) a.1
  | inr n ↦
      let same : x ≡ s = ground (arith, rw (n, find_free) at h) in
      subst (λ y. (is_used active y ≡ false) × (26 ≤ y) × (y ≤ 31)) same (n, a.0.0, a.0.1)
]

find_free-none_iff :
    (active : Active) (slots : List ℕ)
    → (find_free active slots ≡ none) ↔ All (λ s. is_used active s ≡ true) slots
unfolding find_free
find_free-none_iff active [] = (λ _. tt, λ _. refl)
find_free-none_iff active (x ∷ xs) =
    let (to, from) = find_free-none_iff active xs in
    elim (Bool-cases (is_used active x)) [
      | inl y ↦ rw y (λ h. (refl, to h), λ h. from h.1)
      | inr n ↦ rw n (ground arith, ground arith)
    ]

-- Giving a touch that has no slot a free one keeps the registry of touches sound.
take_slot-IsTracked :
    (id s : ℕ) (active : Active)
    → IsTracked active
    → lookup id active ≡ none
    → (is_used active s ≡ false) × (26 ≤ s) × (s ≤ 31)
    → IsTracked (OrderedMap.set ℕ_discrete id s active)
take_slot-IsTracked id s active t h u =
    let cases : (i x : ℕ)
        → lookup i (OrderedMap.set ℕ_discrete id s active) ≡ some x
        → ((id ≡ i) × (x ≡ s)) ⊎ ((id ≢ i) × (lookup i active ≡ some x)) =
      λ i x e. OrderedMap.get-set_cases ℕ_discrete id i s x active e in
    record {
      distinct = OrderedMap.Distinct-set ℕ_discrete id s active t.distinct;
      separate = λ i j x a b. elim (cases i x a) [
        | inl (p, q) ↦ elim (cases j x b) [
          | inl (p', _) ↦ sym p ∙ p'
          | inr (_, b') ↦ elim (unused active s j u.0 (b' ∙ ap some q)) [ ]
        ]
        | inr (_, a') ↦ elim (cases j x b) [
          | inl (_, q) ↦ elim (unused active s i u.0 (a' ∙ ap some q)) [ ]
          | inr (_, b') ↦ t.separate i j x a' b'
        ]
      ];
      in_range = λ i x e. elim (cases i x e) [
        | inl (_, q) ↦ omega (arith, q, u.1)
        | inr (_, e') ↦ t.in_range i x e'
      ];
    }

pub slot_for_touch-IsTracked :
    (id : ℕ) (active : Active) → IsTracked active → IsTracked (slot_for_touch id active).0
unfolding slot_for_touch slot_for_touch_in take_slot
slot_for_touch-IsTracked id active t = elim (Option-cases (lookup id active)) [
  | inl n ↦ rw n (elim (Option-cases (find_free active touch_slots)) [
    | inl f ↦ rw f t
    | inr (s, f) ↦ rw f (
        take_slot-IsTracked id s active t n (find_free-unused active touch_slots s f (omega arith)))
  ])
  | inr (s, e) ↦ rw e t
]

take_slot-none_iff :
    (id : ℕ) (o : Option ℕ) (active : Active) → ((take_slot id o active).1 ≡ none) ↔ (o ≡ none)
unfolding take_slot
take_slot-none_iff id none active = ground arith
take_slot-none_iff id (some s) active = ground arith

-- A touch gets no slot exactly when it has none and all six are used.
pub slot_for_touch-none_iff :
    (id : ℕ) (active : Active)
    → ((slot_for_touch id active).1 ≡ none)
      ↔ ((lookup id active ≡ none) × All (λ s. is_used active s ≡ true) touch_slots)
unfolding slot_for_touch slot_for_touch_in take_slot
slot_for_touch-none_iff id active =
    let (to, from) = find_free-none_iff active touch_slots in
    let (taken, free) = take_slot-none_iff id (find_free active touch_slots) active in
    elim (Option-cases (lookup id active)) [
      | inl n ↦ rw n (λ h. (refl, to (taken h)), λ h. free (from h.1))
      | inr (s, e) ↦ rw e (ground arith, ground arith)
    ]

-- The slot that a touch gets is the one it has from then on.
pub slot_for_touch-own :
    (id : ℕ) (active : Active)
    → lookup id (slot_for_touch id active).0 ≡ (slot_for_touch id active).1
unfolding slot_for_touch slot_for_touch_in take_slot
slot_for_touch-own id active = elim (Option-cases (lookup id active)) [
  | inl n ↦ rw n (elim (Option-cases (find_free active touch_slots)) [
    | inl f ↦ rw f n
    | inr (s, f) ↦ rw f (OrderedMap.get-set_self ℕ_discrete id s active)
  ])
  | inr (s, e) ↦ rw e e
]

pub slot_for_touch-others :
    (id i : ℕ) (active : Active) → id ≢ i → lookup i (slot_for_touch id active).0 ≡ lookup i active
unfolding slot_for_touch slot_for_touch_in take_slot
slot_for_touch-others id i active ne = elim (Option-cases (lookup id active)) [
  | inl n ↦ rw n (elim (Option-cases (find_free active touch_slots)) [
    | inl f ↦ rw f refl
    | inr (s, f) ↦ rw f (OrderedMap.get-set_ne ℕ_discrete id i s active ne)
  ])
  | inr (s, e) ↦ rw e refl
]

pub slot_for_touch-keeps :
    (id i s : ℕ) (active : Active)
    → lookup i active ≡ some s
    → lookup i (slot_for_touch id active).0 ≡ some s
unfolding slot_for_touch slot_for_touch_in
slot_for_touch-keeps id i s active h = elim (ℕ_discrete id i) [
  | yes e ↦ rw (subst (λ x. lookup x active ≡ some s) (sym e) h) h
  | no n ↦ slot_for_touch-others id i active n ∙ h
]

pub delete_all-IsTracked :
    (gone : List (ℕ × ℕ)) (active : Active) → IsTracked active → IsTracked (delete_all gone active)
unfolding delete_all
delete_all-IsTracked [] active t = t
delete_all-IsTracked ((id, w) ∷ rest) active t =
    delete_all-IsTracked rest (OrderedMap.delete ℕ_discrete id active) (record {
      distinct = OrderedMap.Distinct-delete ℕ_discrete id active t.distinct;
      separate = λ i j s a b.
          t.separate i j s (OrderedMap.get-delete_cases ℕ_discrete id i s active t.distinct a).1
            (OrderedMap.get-delete_cases ℕ_discrete id j s active t.distinct b).1;
      in_range = λ i s e.
          t.in_range i s (OrderedMap.get-delete_cases ℕ_discrete id i s active t.distinct e).1;
    })
