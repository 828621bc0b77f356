-- ===== src/Touch/Tests.antt =====
-- Two fingers on a screen of ten by ten, one of which is lifted. The ratios are tenths.
use uurc_web_new.Prelude.{ℕ, ◌-◌, ◌≡◌, ◌↔◌, refl, subst, true, none, some, [], ◌∷◌, All, ℕ_discrete}
use uurc_web_new.Prelude.Int.{pos}
use uurc_web_new.Prelude.OrderedMap
use uurc_web_new.Touch.{
  Active, Ratios, TouchSurface, TouchPoint, release_message, press_message, lookup, is_used,
  touch_slots, slot_for_touch, slot_for_touch_in, take_slot, find_free, sort_by_id, insert_by_id,
  delete_all, press_loop, transform_touch_point, update, reset,
}
use uurc_web_new.Touch.Slots.{IsTracked, nil-IsTracked, slot_for_touch-none_iff}
use uurc_web_new.Touch.Tracked.{update-IsTracked, update-keeps, update-drops}

abbrev tenths : Ratios
tenths = record { Ratio = ℕ; rest_of = λ x. 10 - x; round_to = λ x _. pos x }

abbrev screen : TouchSurface
screen = record { display_id = 1; width = 10; height = 10; rotation = some 90 }

abbrev point : ℕ → TouchPoint ℕ
point id = record { id = id; rel_x = 2; rel_y = 3 }

abbrev two_down : Active
two_down = (5, 26) ∷ (6, 27) ∷ []

two_fingers : (update tenths screen (point 5 ∷ point 6 ∷ []) []).0 ≡ two_down
unfolding update press_loop slot_for_touch slot_for_touch_in take_slot find_free sort_by_id
    delete_all OrderedMap.get OrderedMap.set ℕ_discrete
two_fingers = refl

-- The second finger keeps its slot, and a third gets the one that is free.
one_lifted : update tenths screen (point 6 ∷ point 7 ∷ []) two_down ≡ (
  (6, 27) ∷ (7, 26) ∷ [],
  release_message 1 (26 ∷ [])
      ∷ press_message 1 (
          record { slot = 27; x = pos 7; y = pos 2 }
          ∷ record { slot = 26; x = pos 7; y = pos 2 }
          ∷ [])
      ∷ [],
)
unfolding update press_loop slot_for_touch slot_for_touch_in take_slot find_free sort_by_id
    insert_by_id delete_all transform_touch_point OrderedMap.get OrderedMap.set OrderedMap.delete
    ℕ_discrete
one_lifted = refl

two_down-IsTracked : IsTracked two_down
two_down-IsTracked =
    subst IsTracked two_fingers
      (update-IsTracked tenths screen (point 5 ∷ point 6 ∷ []) [] nil-IsTracked).0

update-IsTracked_example :
    IsTracked (update tenths screen (point 6 ∷ point 7 ∷ []) two_down).0
    × IsTracked (reset screen two_down).0
update-IsTracked_example =
    update-IsTracked tenths screen (point 6 ∷ point 7 ∷ []) two_down two_down-IsTracked

six_has : lookup 6 two_down ≡ some 27
unfolding OrderedMap.get ℕ_discrete
six_has = refl

update-keeps_example : lookup 6 (update tenths screen (point 6 ∷ point 7 ∷ []) two_down).0 ≡ some 27
update-keeps_example =
    update-keeps tenths screen (point 6 ∷ point 7 ∷ []) two_down 6 27 two_down-IsTracked refl
      six_has

update-drops_example : lookup 5 (update tenths screen (point 6 ∷ point 7 ∷ []) two_down).0 ≡ none
update-drops_example =
    update-drops tenths screen (point 6 ∷ point 7 ∷ []) two_down 5 two_down-IsTracked refl

slot_for_touch-none_iff_example :
    ((slot_for_touch 9 two_down).1 ≡ none)
    ↔ ((lookup 9 two_down ≡ none) × All (λ s. is_used two_down s ≡ true) touch_slots)
slot_for_touch-none_iff_example = slot_for_touch-none_iff 9 two_down
