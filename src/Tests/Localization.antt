-- ===== src/Tests/Localization.antt =====
-- Witnesses of the theorems on the catalogs, and a compiled catalog that is read.
use linguamesh_linux.Prelude.{
  ◌≡◌, refl, some, List, [], ◌∷◌, ◌++◌, ℕ, true, false, not, any, is_empty, ◌↔◌,
}
use linguamesh_linux.Prelude.Text.{Text, codes, Text-discrete}
use linguamesh_linux.Model.Locale.{brazilian_portuguese}
use linguamesh_linux.Localization.{
  Catalog, get_plural, from_mo, lookup, read_mo, read_mo_u32, mo_slice, mo_entry,
}
use linguamesh_linux.Localization.Plural.{plural_index, plural_form, plural_index_iff}
use linguamesh_linux.Localization.Entries.{from_mo-has_text, get_plural_lem, PluralText}
use linguamesh_linux.Localization.Utf8.{from_utf8_lossy}

plural_index_iff_example :
    (plural_index brazilian_portuguese 0 ≡ plural_form brazilian_portuguese 0)
    ↔ (¬ ((brazilian_portuguese ≡ brazilian_portuguese) × (◌≡◌ {A = ℕ} 0 0)))
plural_index_iff_example = plural_index_iff brazilian_portuguese 0

-- A catalog with one entry in two slots, of which the second is empty.
abbrev entries : Catalog
entries = (codes "k", codes "one" ∷ [] ∷ []) ∷ []

get_plural_lem_example :
    (is_empty (get_plural entries (codes "k") (codes "s") (codes "p") 1) ≡ false)
    × PluralText entries
        (codes "k")
        (codes "s")
        (codes "p")
        1
        (get_plural entries (codes "k") (codes "s") (codes "p") 1)
get_plural_lem_example = get_plural_lem entries (codes "k") (codes "s") (codes "p") 1 refl refl

-- The little-endian file with the entry of the context "k" and the message "m", translated "one".
abbrev u32 : ℕ → List ℕ
u32 n = n ∷ 0 ∷ 0 ∷ 0 ∷ []

abbrev file : List ℕ
file =
    0xde ∷ 0x12 ∷ 0x04 ∷ 0x95 ∷ u32 0
    ++ u32 1
    ++ u32 20
    ++ u32 28
    ++ u32 3
    ++ u32 36
    ++ u32 3
    ++ u32 39
    ++ codes "k"
    ++ 4 ∷ codes "m"
    ++ codes "one"

file_entry : lookup (from_mo file) (codes "k") ≡ some (codes "one" ∷ [])
unfolding from_mo read_mo read_mo_u32 mo_slice mo_entry Text-discrete from_utf8_lossy
file_entry = refl

from_mo-has_text_example : any (λ (t : Text). not (is_empty t)) (codes "one" ∷ []) ≡ true
from_mo-has_text_example = from_mo-has_text file (codes "k") (codes "one" ∷ []) file_entry
