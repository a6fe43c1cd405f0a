-- ===== src/Localization.antt =====
-- src/localization.rs: the gettext catalogs of the interface, the reader of compiled catalogs, and
-- the choice of a plural slot.
use linguamesh_linux.Prelude.{
  ℕ, zero, suc, ◌+◌, ◌-◌, ◌*◌, ◌^◌, ◌/◌, ◌%◌, min, Bool, true, false, not, ◌&&◌, ◌||◌, List, [],
  ◌∷◌, Option, none, some, if◌then◌else◌, leb, ltb, ◌==◌, does, length, is_empty, any, get_elem?,
  filter_some,
}
use linguamesh_linux.Prelude.Text.{Text, Text-discrete}
use linguamesh_linux.Localization.Utf8.{from_utf8_lossy}
pub mod Utf8
pub mod Plural
pub mod Entries
pub mod Catalogs

-- The `?` operator and `and_then` on options.
infixl 10 ◌>>=◌
abbrev pub ◌>>=◌ {ℓ κ} : {A : Type ℓ} {B : Type κ} → Option A → (A → Option B) → Option B
none >>= f = none
some a >>= f = f a

-- `u64::MAX`, which is `usize::MAX` of the 64-bit targets.
abbrev pub usize_max : ℕ
usize_max = 2 ^ 64 - 1

abbrev pub saturating_add : ℕ → ℕ → ℕ
saturating_add a b = min (a + b) usize_max

abbrev pub saturating_mul : ℕ → ℕ → ℕ
saturating_mul a b = min (a * b) usize_max

abbrev pub take {ℓ} : {A : Type ℓ} → ℕ → List A → List A
take n [] = []
take zero (x ∷ xs) = []
take (suc n) (x ∷ xs) = x ∷ take n xs

abbrev pub drop {ℓ} : {A : Type ℓ} → ℕ → List A → List A
drop n [] = []
drop zero (x ∷ xs) = x ∷ xs
drop (suc n) (x ∷ xs) = drop n xs

-- `slice.get(start..end)`.
abbrev pub get_range {ℓ} : {A : Type ℓ} → List A → ℕ → ℕ → Option (List A)
get_range xs start end =
    if leb start end && leb end (length xs) then some (take (end - start) (drop start xs)) else none

-- `u32::from_le_bytes` and `from_be_bytes`, of exactly four bytes.
abbrev pub u32_of : Bool → List ℕ → Option ℕ
u32_of true (a ∷ b ∷ c ∷ d ∷ []) = some (a + 256 * (b + 256 * (c + 256 * d)))
u32_of false (a ∷ b ∷ c ∷ d ∷ []) = some (d + 256 * (c + 256 * (b + 256 * a)))
u32_of _ _ = none

unfoldable pub read_mo_u32 : List ℕ → ℕ → Bool → Option ℕ
read_mo_u32 source offset little_endian = do
  bytes ← get_range source offset (saturating_add offset 4)
  u32_of little_endian bytes

-- `offset.checked_add(length)`.
abbrev pub checked_add : ℕ → ℕ → Option ℕ
checked_add a b = if leb (a + b) usize_max then some (a + b) else none

unfoldable pub mo_slice : List ℕ → ℕ → ℕ → Option (List ℕ)
mo_slice source offset size = do end ← checked_add offset size; get_range source offset end

-- `text.split_once(c)`.
abbrev pub extended : ℕ → Option (Text × Text) → Option (Text × Text)
extended c none = none
extended c (some (a, b)) = some (c ∷ a, b)

abbrev pub split_once : ℕ → Text → Option (Text × Text)
split_once c [] = none
split_once c (x ∷ s) = if x == c then some ([], s) else extended x (split_once c s)

-- `text.split(c)`: one part more than there are separators.
abbrev pub onto_first : ℕ → List Text → List Text
onto_first x [] = (x ∷ []) ∷ []
onto_first x (p ∷ ps) = (x ∷ p) ∷ ps

abbrev pub split : ℕ → Text → List Text
split c [] = [] ∷ []
split c (x ∷ s) = if x == c then [] ∷ split c s else onto_first x (split c s)

-- The map of a catalog, from contexts to the slots of their translation: an association list with
-- one entry per key.
abbrev pub Catalog : Type 0
Catalog = List (Text × List Text)

abbrev pub lookup : Catalog → Text → Option (List Text)
lookup [] key = none
lookup ((k, v) ∷ m) key = if does (Text-discrete k key) then some v else lookup m key

abbrev pub insert : Text → List Text → Catalog → Catalog
insert key v [] = (key, v) ∷ []
insert key v ((k, w) ∷ m) =
    if does (Text-discrete k key) then (key, v) ∷ m else (k, w) ∷ insert key v m

-- One round of the loop of `from_mo`: the context and the slots, unless the entry is skipped.
unfoldable pub mo_entry : List ℕ → Bool → ℕ → ℕ → ℕ → Option (Text × List Text)
mo_entry source little original_table translation_table index = do
  original_length ←
      read_mo_u32 source (saturating_add original_table (saturating_mul index 8)) little
  original_offset ←
      read_mo_u32 source (saturating_add (saturating_add original_table (saturating_mul index 8)) 4)
        little
  translation_length ←
      read_mo_u32 source (saturating_add translation_table (saturating_mul index 8)) little
  translation_offset ←
      read_mo_u32 source
        (saturating_add (saturating_add translation_table (saturating_mul index 8)) 4) little
  original ← mo_slice source original_offset original_length
  translation ← mo_slice source translation_offset translation_length
  parts ← split_once 4 (from_utf8_lossy original)
  some (parts.0, split 0 (from_utf8_lossy translation))

-- An entry without a text in any slot is left out.
abbrev pub add_entry : Option (Text × List Text) → Catalog → Catalog
add_entry none m = m
add_entry (some (context, slots)) m =
    if any (λ t. not (is_empty t)) slots then insert context slots m else m

-- `for index in 0..count`.
abbrev pub read_entries : (ℕ → Option (Text × List Text)) → ℕ → Catalog
read_entries entry zero = []
read_entries entry (suc n) = add_entry (entry n) (read_entries entry n)

abbrev pub or_empty : Option Catalog → Catalog
or_empty none = []
or_empty (some m) = m

-- The byte order by the magic number.
abbrev pub byte_order : List ℕ → Option Bool
byte_order magic =
    if does (Text-discrete magic (0xde ∷ 0x12 ∷ 0x04 ∷ 0x95 ∷ []))
    then some true
    else if does (Text-discrete magic (0x95 ∷ 0x04 ∷ 0x12 ∷ 0xde ∷ []))
    then some false
    else none

-- The body of `from_mo`, where `none` is an early return of the empty catalog.
unfoldable pub read_mo : List ℕ → Option Catalog
read_mo source = do
  magic ← get_range source 0 4
  little ← byte_order magic
  version ← filter_some (λ v. v == 0) (read_mo_u32 source 4 little)
  count ← read_mo_u32 source 8 little
  original_table ← read_mo_u32 source 12 little
  translation_table ← read_mo_u32 source 16 little
  some (read_entries (mo_entry source little original_table translation_table) count)

unfoldable pub from_mo : List ℕ → Catalog
from_mo source = or_empty (read_mo source)

abbrev pub or_else {ℓ} : {A : Type ℓ} → Option A → Option A → Option A
or_else none o = o
or_else (some a) o = some a

abbrev pub unwrap_or {ℓ} : {A : Type ℓ} → Option A → A → A
unwrap_or none a = a
unwrap_or (some a) b = a

unfoldable pub get : Catalog → Text → Text → Text
get m key fallback = unwrap_or (do slots ← lookup m key; get_elem? slots 0) fallback

unfoldable pub get_plural : Catalog → Text → Text → Text → ℕ → Text
get_plural m key singular plural index =
    unwrap_or
      (do
        slots ← lookup m key
        or_else (filter_some (λ t. not (is_empty t)) (get_elem? slots index))
            (filter_some (λ t. not (is_empty t)) (get_elem? slots 0)))
      (if index == 0 then singular else plural)
