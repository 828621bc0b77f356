-- ===== src/Touch.antt =====
-- shared/src/streamer/internal/inputLegacy.ts: the touch tracker, which gives each finger on the
-- screen one of the six slots of the remote input manager. The strings that `cook` and `join` make
-- of a message are left out: a message is its slots and coordinates. Touch identifiers are natural
-- numbers, as the browser's are.
pub mod Slots
pub mod Tracked
pub mod Tests
use uurc_web_new.Prelude.{
  ℕ, Bool, true, false, not, ◌&&◌, Option, none, some, List, [], ◌∷◌, ◌++◌, map, select, any,
  if◌then◌else◌, leb, ◌==◌, ℕ_discrete,
}
use uurc_web_new.Prelude.Int.{ℤ}
use uurc_web_new.Prelude.OrderedMap

-- What the code needs of the numbers between 0 and 1 that place a point on the screen, which are
-- floating: `1 - x` and `Math.round(x * size)`.
pub record Ratios : Type 1 where
  pub Ratio : Type 0
  pub rest_of : Ratio → Ratio
  pub round_to : Ratio → ℕ → ℤ

pub record TouchSurface : Type 0 where
  pub display_id : ℕ
  pub width : ℕ
  pub height : ℕ
  pub rotation : Option ℕ

-- `StreamerTouchPoint`: identifier, `relX`, `relY`.
pub record TouchPoint (R : Type 0) : Type 0 where
  pub id : ℕ
  pub rel_x : R
  pub rel_y : R

pub record PressPart : Type 0 where
  pub slot : ℕ
  pub x : ℤ
  pub y : ℤ

-- `SLOTMULTIRELEASE` and `SLOTMULTIPRESS` on a display.
pub data TouchMessage : Type 0 where
  release_message : ℕ → List ℕ → TouchMessage
  press_message : ℕ → List PressPart → TouchMessage

-- `STREAMER_INPUT_MANAGER_TOUCH_SLOTS`
abbrev pub touch_slots : List ℕ
touch_slots = 26 ∷ 27 ∷ 28 ∷ 29 ∷ 30 ∷ 31 ∷ []

-- `activeSlotsByTouchId`
abbrev pub Active : Type 0
Active = List (ℕ × ℕ)

abbrev pub lookup : ℕ → Active → Option ℕ
lookup id active = OrderedMap.get ℕ_discrete id active

-- `used.has(slot)`
abbrev pub is_used : Active → ℕ → Bool
is_used active slot = any (λ entry. entry.1 == slot) active

-- `slots.find((candidate) => !used.has(candidate))`
unfoldable pub find_free : Active → List ℕ → Option ℕ
find_free active [] = none
find_free active (slot ∷ slots) = if is_used active slot then find_free active slots else some slot

unfoldable pub take_slot : ℕ → Option ℕ → Active → Active × Option ℕ
take_slot id none active = (active, none)
take_slot id (some slot) active = (OrderedMap.set ℕ_discrete id slot active, some slot)

unfoldable pub slot_for_touch_in : ℕ → Option ℕ → Active → Active × Option ℕ
slot_for_touch_in id (some current) active = (active, some current)
slot_for_touch_in id none active = take_slot id (find_free active touch_slots) active

unfoldable pub slot_for_touch : ℕ → Active → Active × Option ℕ
slot_for_touch id active = slot_for_touch_in id (lookup id active) active

-- `.sort(([left], [right]) => left - right)`, which is stable.
unfoldable pub insert_by_id : ℕ × ℕ → List (ℕ × ℕ) → List (ℕ × ℕ)
insert_by_id entry [] = entry ∷ []
insert_by_id entry (other ∷ rest) =
    if leb entry.0 other.0 then entry ∷ other ∷ rest else other ∷ insert_by_id entry rest

unfoldable pub sort_by_id : List (ℕ × ℕ) → List (ℕ × ℕ)
sort_by_id [] = []
sort_by_id (entry ∷ rest) = insert_by_id entry (sort_by_id rest)

-- The deletions that `map` makes on its way.
unfoldable pub delete_all : List (ℕ × ℕ) → Active → Active
delete_all [] active = active
delete_all ((id, _) ∷ rest) active = delete_all rest (OrderedMap.delete ℕ_discrete id active)

abbrev pub has_id : List ℕ → ℕ → Bool
has_id ids id = any (λ other. other == id) ids

-- The entries whose touch is not among the points any more.
abbrev pub lifted : List ℕ → Active → List (ℕ × ℕ)
lifted ids active = select (λ entry. not (has_id ids entry.0)) active

abbrev pub release_messages : ℕ → List ℕ → List TouchMessage
release_messages display [] = []
release_messages display (slot ∷ slots) = release_message display (slot ∷ slots) ∷ []

abbrev pub press_messages : ℕ → List PressPart → List TouchMessage
press_messages display [] = []
press_messages display (part ∷ parts) = press_message display (part ∷ parts) ∷ []

module _ (ratios : Ratios) where
  abbrev pub scaled : TouchSurface → ratios.Ratio → ratios.Ratio → ℤ × ℤ
  scaled surface x y = (ratios.round_to x surface.width, ratios.round_to y surface.height)

  unfoldable pub transform_touch_point : TouchSurface → TouchPoint ratios.Ratio → ℤ × ℤ
  transform_touch_point surface point = elim surface.rotation [
    | none ↦ scaled surface point.rel_x point.rel_y
    | some rotation ↦
        if rotation == 90
        then scaled surface (ratios.rest_of point.rel_y) point.rel_x
        else (if rotation == 270
            then scaled surface point.rel_y (ratios.rest_of point.rel_x)
            else scaled surface point.rel_x point.rel_y)
  ]

  abbrev pub press_part : ℕ → ℤ × ℤ → PressPart
  press_part slot (x, y) = record { slot = slot; x = x; y = y }

  abbrev pub add_part :
      Option ℕ → TouchSurface → TouchPoint ratios.Ratio → List PressPart → List PressPart
  add_part none surface point parts = parts
  add_part (some slot) surface point parts =
      parts ++ press_part slot (transform_touch_point surface point) ∷ []

  -- The loop over the points: a point that gets no slot is left out.
  unfoldable pub press_loop :
      TouchSurface
      → List (TouchPoint ratios.Ratio)
      → Active
      → List PressPart
      → Active × List PressPart
  press_loop surface [] active parts = (active, parts)
  press_loop surface (point ∷ points) active parts =
      let taken = slot_for_touch point.id active in
      press_loop surface points taken.0 (add_part taken.1 surface point parts)

  unfoldable pub update :
      TouchSurface → List (TouchPoint ratios.Ratio) → Active → Active × List TouchMessage
  update surface points active =
      let gone = sort_by_id (lifted (map (λ point. point.id) points) active) in
      let pressed = press_loop surface points (delete_all gone active) [] in
      (
        pressed.0,
        release_messages surface.display_id (map (λ entry. entry.1) gone)
            ++ press_messages surface.display_id pressed.1,
      )

-- `start` and `end` are `reset`.
unfoldable pub reset : TouchSurface → Active → Active × List TouchMessage
reset surface active = ([], release_message surface.display_id touch_slots ∷ [])
