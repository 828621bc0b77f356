-- ===== src/Packets/Tests.antt =====
-- A payload with two byte arrays, one of them in a list.
use Prim.Native.String.{String}
use uurc_web_new.Prelude.{ℕ, ◌≡◌, refl, [], ◌∷◌, length}
use uurc_web_new.Json.{Json, str, bin, arr, obj, nil, cons, end, field}
use uurc_web_new.Packets.{
  deconstruct_binary, deconstruct_value, reconstruct, placeholder, prefix_frame, strip_frame,
}
use uurc_web_new.Packets.Plain.{byte_arrays, deconstruct_binary-byte_arrays}
use uurc_web_new.Packets.RoundTrip.{reconstruct-deconstruct_binary}

abbrev payload : Json
payload = arr (
    cons (str "control") (
      cons
        (obj
          (field "app_data" (bin (1 ∷ 2 ∷ [])) (field "more" (arr (cons (bin (3 ∷ [])) nil)) end)))
        nil))

abbrev index_name : ℕ → String
index_name n = "0"

sent : deconstruct_binary payload ≡ (
  arr (
      cons (str "control") (
        cons
          (obj
            (field "app_data" (placeholder 0) (field "more" (arr (cons (placeholder 1) nil)) end)))
          nil)),
  (1 ∷ 2 ∷ []) ∷ (3 ∷ []) ∷ [],
)
unfolding deconstruct_binary deconstruct_value
sent = refl

frame_back : strip_frame (prefix_frame (4 ∷ 9 ∷ [])) ≡ 4 ∷ 9 ∷ []
unfolding strip_frame prefix_frame
frame_back = refl

deconstruct_binary-byte_arrays_example :
    (byte_arrays (deconstruct_binary payload).0 ≡ 0)
    × (length (deconstruct_binary payload).1 ≡ byte_arrays payload)
deconstruct_binary-byte_arrays_example = deconstruct_binary-byte_arrays payload

reconstruct-deconstruct_binary_example :
    reconstruct index_name (deconstruct_binary payload).0 (deconstruct_binary payload).1 ≡ payload
reconstruct-deconstruct_binary_example =
    reconstruct-deconstruct_binary index_name payload (tt, ((refl, (tt, ((tt, tt), tt))), tt))
