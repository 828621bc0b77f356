-- ===== src/Clipboard/Messages.antt =====
-- The entries of the clipboard messages, and what the reading functions find in them.
use uurc_web_new.Prelude.{
  ℕ, ◌^◌, ◌<◌, ◌≤◌, ◌≡◌, some, List, [], ◌∷◌, ◌++◌, select, ◌==◌, ◌||◌, if◌then◌else◌, arith, All,
  length,
}
use uurc_web_new.Wire.Entries.{Entry, varint_entry, chunk_entry, encode_message, Small}
use uurc_web_new.Wire.Views.{entry_tag}
use uurc_web_new.Clipboard.Schema.{max_signed_int64}
use uurc_web_new.Clipboard.Views.{entry_int64}

-- A number that is written only if it is not zero.
abbrev pub varint_if : ℕ → ℕ → List Entry
varint_if tag n = if n == 0 then [] else (varint_entry tag n ∷ [])

abbrev pub envelope_entries : ℕ → ℕ → ℕ → List ℕ → List Entry
envelope_entries sequence timestamp_ms rpc_tag rpc =
    varint_if 1 sequence ++ (varint_if 2 timestamp_ms ++ (chunk_entry rpc_tag rpc ∷ []))

abbrev pub rpc_entries : ℕ → ℕ → List ℕ → List Entry
rpc_entries request_id body_tag body =
    chunk_entry 1 (encode_message (varint_if 1 request_id)) ∷ chunk_entry body_tag body ∷ []

abbrev pub IsRpcTag : ℕ → Type 0
IsRpcTag tag = (21 ≤ tag) × (tag ≤ 22)

module _ (s t rpc_tag : ℕ) (rpc : List ℕ) where
  pub envelope-Small :
      s ≤ max_signed_int64
      → t ≤ max_signed_int64
      → IsRpcTag rpc_tag
      → All Small (envelope_entries s t rpc_tag rpc)
  envelope-Small hs ht hr = ground arith

  pub length-envelope : length (envelope_entries s t rpc_tag rpc) ≤ 3
  length-envelope = ground arith

  pub envelope_sequence :
      s ≤ max_signed_int64
      → IsRpcTag rpc_tag
      → entry_int64 (envelope_entries s t rpc_tag rpc) 1 ≡ some s
  envelope_sequence hs hr = ground arith

  pub envelope_timestamp :
      t ≤ max_signed_int64
      → IsRpcTag rpc_tag
      → entry_int64 (envelope_entries s t rpc_tag rpc) 2 ≡ some t
  envelope_timestamp ht hr = ground arith

  pub envelope_rpc :
      IsRpcTag rpc_tag
      → select (λ e. entry_tag e == 21 || entry_tag e == 22) (envelope_entries s t rpc_tag rpc)
        ≡ chunk_entry rpc_tag rpc ∷ []
  envelope_rpc hr = ground arith

module _ (tag n : ℕ) where
  pub varint_if-Small : (0 < tag) × (tag < 2 ^ 28) → n < 2 ^ 64 → All Small (varint_if tag n)
  varint_if-Small t h = ground arith

  pub varint_if-int64 : n ≤ max_signed_int64 → entry_int64 (varint_if tag n) tag ≡ some n
  varint_if-int64 h = ground arith
