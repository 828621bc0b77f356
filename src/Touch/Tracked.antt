-- ===== src/Touch/Tracked.antt =====
-- `update`: which touches are tracked after it, with which slots.
use uurc_web_new.Prelude.{
  ℕ, ◌≡◌, ◌≢◌, refl, ap, ◌∙◌, true, false, none, some, List, [], ◌∷◌, map, if◌then◌else◌,
  ℕ_discrete, arith, Bool-cases, Option-cases, inl, inr,
}
use uurc_web_new.Prelude.OrderedMap
use uurc_web_new.Prelude.OrderedMap.{Distinct}
use uurc_web_new.Touch.{
  Active, Ratios, TouchSurface, TouchPoint, PressPart, lookup, insert_by_id, sort_by_id, delete_all,
  has_id, lifted, add_part, slot_for_touch, press_loop, update, reset,
}
use uurc_web_new.Touch.Slots.{
  IsTracked, nil-IsTracked, slot_for_touch-IsTracked, slot_for_touch-others, slot_for_touch-keeps,
  delete_all-IsTracked,
}

abbrev pub ids_of : List (ℕ × ℕ) → List ℕ
ids_of entries = map (λ entry. entry.0) entries

has-insert :
    (entry : ℕ × ℕ) (l : List (ℕ × ℕ)) (i : ℕ)
    → has_id (ids_of (insert_by_id entry l)) i ≡ has_id (entry.0 ∷ ids_of l) i
unfolding insert_by_id
has-insert entry [] i = refl
has-insert entry (other ∷ rest) i = ground (arith, has-insert entry rest i)

has-sort : (l : List (ℕ × ℕ)) (i : ℕ) → has_id (ids_of (sort_by_id l)) i ≡ has_id (ids_of l) i
unfolding sort_by_id
has-sort [] i = refl
has-sort (entry ∷ rest) i = ground (arith, has-insert entry (sort_by_id rest) i, has-sort rest i)

lookup-delete_all :
    (gone : List (ℕ × ℕ)) (active : Active) (i : ℕ)
    → Distinct ℕ_discrete active
    → lookup i (delete_all gone active) ≡ (if has_id (ids_of gone) i then none else lookup i active)
unfolding delete_all
lookup-delete_all [] active i d = refl
lookup-delete_all ((id, w) ∷ rest) active i d = ground (
  arith,
  lookup-delete_all rest (OrderedMap.delete ℕ_discrete id active) i
      (OrderedMap.Distinct-delete ℕ_discrete id active d),
  OrderedMap.get-delete_self ℕ_discrete id active d,
  OrderedMap.get-delete_ne ℕ_discrete id i active,
)

-- A touch that is still there is not lifted; one that is not there any more is.
lifted-there :
    (ids : List ℕ) (active : Active) (i : ℕ)
    → has_id ids i ≡ true
    → has_id (ids_of (lifted ids active)) i ≡ false
lifted-there ids [] i h = refl
lifted-there ids ((j, w) ∷ active) i h = elim (Bool-cases (has_id ids j)) [
  | inl y ↦ rw y (lifted-there ids active i h)
  | inr n ↦
      let other : j ≢ i = λ e. ground (arith, n, h, ap (has_id ids) e) in
      rw n (ground (arith, other, lifted-there ids active i h))
]

lifted-gone :
    (ids : List ℕ) (active : Active) (i s : ℕ)
    → has_id ids i ≡ false
    → lookup i active ≡ some s
    → has_id (ids_of (lifted ids active)) i ≡ true
unfolding OrderedMap.get
lifted-gone ids [] i s h e = ground arith
lifted-gone ids ((j, w) ∷ active) i s h e = elim (ℕ_discrete j i) [
  | yes same ↦ rw (ap (has_id ids) same ∙ h) (ground (arith, same))
  | no other ↦
      let rest : has_id (ids_of (lifted ids active)) i ≡ true =
        lifted-gone ids active i s h (ground (arith, e, other)) in
      elim (Bool-cases (has_id ids j)) [ inl y ↦ rw y rest | inr n ↦ rw n (ground (arith, rest)) ]
]

module _ (ratios : Ratios) where
  abbrev pub point_ids : List (TouchPoint ratios.Ratio) → List ℕ
  point_ids points = map (λ point. point.id) points

  press_loop-IsTracked :
      (surface : TouchSurface) (points : List (TouchPoint ratios.Ratio)) (active : Active)
      (parts : List PressPart)
      → IsTracked active
      → IsTracked (press_loop ratios surface points active parts).0
  unfolding press_loop
  press_loop-IsTracked surface [] active parts t = t
  press_loop-IsTracked surface (point ∷ points) active parts t =
      press_loop-IsTracked surface points (slot_for_touch point.id active).0
        (add_part ratios (slot_for_touch point.id active).1 surface point parts)
        (slot_for_touch-IsTracked point.id active t)

  press_loop-keeps :
      (surface : TouchSurface) (points : List (TouchPoint ratios.Ratio)) (active : Active)
      (parts : List PressPart) (i s : ℕ)
      → lookup i active ≡ some s
      → lookup i (press_loop ratios surface points active parts).0 ≡ some s
  unfolding press_loop
  press_loop-keeps surface [] active parts i s h = h
  press_loop-keeps surface (point ∷ points) active parts i s h =
      press_loop-keeps surface points (slot_for_touch point.id active).0
        (add_part ratios (slot_for_touch point.id active).1 surface point parts) i s
        (slot_for_touch-keeps point.id i s active h)

  press_loop-others :
      (surface : TouchSurface) (points : List (TouchPoint ratios.Ratio)) (active : Active)
      (parts : List PressPart) (i : ℕ)
      → has_id (point_ids points) i ≡ false
      → lookup i (press_loop ratios surface points active parts).0 ≡ lookup i active
  unfolding press_loop
  press_loop-others surface [] active parts i h = refl
  press_loop-others surface (point ∷ points) active parts i h =
      press_loop-others surface points (slot_for_touch point.id active).0
        (add_part ratios (slot_for_touch point.id active).1 surface point parts) i
        (ground (arith, h))
      ∙ slot_for_touch-others point.id i active (ground (arith, h))

  -- `update` and `reset` keep it that a touch has one slot, a slot one touch, and that the slots
  -- are the six of the input manager.
  pub update-IsTracked :
      (surface : TouchSurface) (points : List (TouchPoint ratios.Ratio)) (active : Active)
      → IsTracked active
      → IsTracked (update ratios surface points active).0 × IsTracked (reset surface active).0
  unfolding update reset
  update-IsTracked surface points active t = (
    press_loop-IsTracked surface points
        (delete_all (sort_by_id (lifted (point_ids points) active)) active) []
        (delete_all-IsTracked (sort_by_id (lifted (point_ids points) active)) active t),
    nil-IsTracked,
  )

  lookup-lifted :
      (points : List (TouchPoint ratios.Ratio)) (active : Active) (i : ℕ)
      → IsTracked active
      → lookup i (delete_all (sort_by_id (lifted (point_ids points) active)) active)
        ≡ (if has_id (ids_of (lifted (point_ids points) active)) i then none else lookup i active)
  lookup-lifted points active i t =
      lookup-delete_all (sort_by_id (lifted (point_ids points) active)) active i t.distinct
      ∙ ap (λ b. if b then none else lookup i active)
          (has-sort (lifted (point_ids points) active) i)

  -- When a touch has one slot of the six and a slot one touch, a touch that is among the points
  -- keeps in `update` the slot that it has.
  pub update-keeps :
      (surface : TouchSurface) (points : List (TouchPoint ratios.Ratio)) (active : Active) (i s : ℕ)
      → IsTracked active
      → has_id (point_ids points) i ≡ true
      → lookup i active ≡ some s
      → lookup i (update ratios surface points active).0 ≡ some s
  unfolding update
  update-keeps surface points active i s t there h =
      press_loop-keeps surface points _ [] i s
        (lookup-lifted points active i t ∙ rw (lifted-there (point_ids points) active i there) h)

  -- When a touch has one slot of the six and a slot one touch, after `update` a touch that is not
  -- among the points has none.
  pub update-drops :
      (surface : TouchSurface) (points : List (TouchPoint ratios.Ratio)) (active : Active) (i : ℕ)
      → IsTracked active
      → has_id (point_ids points) i ≡ false
      → lookup i (update ratios surface points active).0 ≡ none
  unfolding update
  update-drops surface points active i t gone =
      press_loop-others surface points _ [] i gone
      ∙ lookup-lifted points active i t
      ∙ elim (Option-cases (lookup i active)) [
        | inl n ↦ rw n (ground arith)
        | inr (s, e) ↦ rw (lifted-gone (point_ids points) active i s gone e) refl
      ]
