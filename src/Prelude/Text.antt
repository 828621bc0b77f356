-- ===== src/Prelude/Text.antt =====
-- UTF-8 as the platform gives it: `TextEncoder`, the fatal `TextDecoder` and what the code relies
-- on of them. A text is the list of its UTF-16 code units.
use mathlib.Core.List.{List, [], ◌∷◌}
use mathlib.Core.Option.{Option, some}
use mathlib.Core.Path.{◌≡◌}
use mathlib.Core.Logic.{◌≢◌}
use Prim.Native.Nat.{ℕ}

-- The byte order mark U+FEFF. A `TextDecoder` without `ignoreBOM` drops one from the front.
abbrev pub byte_order_mark : ℕ
byte_order_mark = 65279

abbrev pub StartsNoMark : List ℕ → Type 0
StartsNoMark [] = Unit
StartsNoMark (c ∷ cs) = c ≢ byte_order_mark

-- `decode` fails where the fatal decoder throws. A text is well-formed if it has no lone surrogate.
pub record TextCodec : Type 1 where
  pub encode : List ℕ → List ℕ
  pub decode : List ℕ → Option (List ℕ)
  pub IsWellFormed : List ℕ → Type 0
  pub nil-IsWellFormed : IsWellFormed []
  pub encode_nil : encode [] ≡ []
  pub decode-encode :
      (text : List ℕ) → IsWellFormed text → StartsNoMark text → decode (encode text) ≡ some text
