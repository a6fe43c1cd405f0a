-- ===== src/Localization/Utf8.antt =====
-- `String::from_utf8_lossy`, which src/localization.rs uses: UTF-8 is decoded byte by byte, and each
-- maximal invalid part becomes one U+FFFD.
use linguamesh_linux.Prelude.{
  ℕ, zero, suc, ◌++◌, ◌-◌, ◌*◌, ◌+◌, List, [], ◌∷◌, if◌then◌else◌, leb, ltb, ◌==◌, ◌&&◌, ◌++◌,
}
use linguamesh_linux.Prelude.Text.{Text}

-- A sequence in progress: the continuation bytes to come, the value so far, and the bounds of the
-- next byte.
pub data Decoder : Type 0 where
  idle : Decoder
  pending : (rest value low high : ℕ) → Decoder

abbrev replacement : ℕ
replacement = 0xfffd

-- The first byte of a sequence: what it decodes to, and the decoder after it.
abbrev first_byte : ℕ → Text × Decoder
first_byte b =
    if ltb b 0x80
    then (b ∷ [], idle)
    else if leb 0xc2 b && leb b 0xdf
    then ([], pending 0 (b - 0xc0) 0x80 0xbf)
    else if b == 0xe0
    then ([], pending 1 0 0xa0 0xbf)
    else if b == 0xed
    then ([], pending 1 0xd 0x80 0x9f)
    else if leb 0xe1 b && leb b 0xef
    then ([], pending 1 (b - 0xe0) 0x80 0xbf)
    else if b == 0xf0
    then ([], pending 2 0 0x90 0xbf)
    else if leb 0xf1 b && leb b 0xf3
    then ([], pending 2 (b - 0xf0) 0x80 0xbf)
    else if b == 0xf4
    then ([], pending 2 4 0x80 0x8f)
    else (replacement ∷ [], idle)

abbrev next_byte : Decoder → ℕ → Text × Decoder
next_byte idle b = first_byte b
next_byte (pending rest value low high) b =
    if leb low b && leb b high
    then continued rest (value * 64 + (b - 0x80))
    else (replacement ∷ (first_byte b).0, (first_byte b).1)
  where
    continued : ℕ → ℕ → Text × Decoder
    continued zero v = (v ∷ [], idle)
    continued (suc n) v = ([], pending n v 0x80 0xbf)

abbrev decode : Decoder → List ℕ → Text
decode idle [] = []
decode (pending _ _ _ _) [] = replacement ∷ []
decode s (b ∷ bs) = (next_byte s b).0 ++ decode (next_byte s b).1 bs

unfoldable pub from_utf8_lossy : List ℕ → Text
from_utf8_lossy bytes = decode idle bytes
