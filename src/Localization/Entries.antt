-- ===== src/Localization/Entries.antt =====
-- src/localization.rs: what a catalog holds, and what its lookups give.
use linguamesh_linux.Prelude.{
  ◌∷◌, [], inl, inr, refl, refl, some, none, List, ◌≡◌, true, false, Bool, any, ℕ, not, Option, [],
  is_empty, arith, suc, if_cases, zero, if◌then◌else◌, ◌==◌, ◌⊎◌, get_elem?, does, filter_some,
  Option-cases, ◌<◌, subst,
}
use linguamesh_linux.Prelude.Text.{Text, Text-discrete}
use linguamesh_linux.Localization.{
  Catalog, from_mo, get_plural, insert, lookup, read_entries, add_entry, or_empty, mo_entry, ◌>>=◌,
  read_mo, get_range, byte_order, read_mo_u32,
}

-- Some slot has a text.
abbrev has_text : List Text → Bool
has_text slots = any (λ t. not (is_empty t)) slots

abbrev Useful : Catalog → Type 0
Useful [] = Unit
Useful ((k, v) ∷ m) = (has_text v ≡ true) × Useful m

insert-Useful :
    (key : Text) (v : List Text) (m : Catalog)
    → has_text v ≡ true
    → Useful m
    → Useful (insert key v m)
insert-Useful key v [] h u = (h, tt)
insert-Useful key v ((k, w) ∷ m) h (a, u) =
    if_cases Useful (does (Text-discrete k key)) (λ _. (h, u)) (λ _. (a, insert-Useful key v m h u))

read_entries-Useful :
    (entry : ℕ → Option (Text × List Text)) (n : ℕ) → Useful (read_entries entry n)
read_entries-Useful entry zero = tt
read_entries-Useful entry (suc n) =
    elim (entry n) as (λ e. Useful (add_entry e (read_entries entry n))) [
      | none ↦ read_entries-Useful entry n
      | some (context, slots) ↦
          if_cases Useful (has_text slots)
            (λ h.
              insert-Useful context slots (read_entries entry n) h (read_entries-Useful entry n))
            (λ _. read_entries-Useful entry n)
    ]

lookup-Useful :
    (m : Catalog) (key : Text) (slots : List Text)
    → Useful m
    → lookup m key ≡ some slots
    → has_text slots ≡ true
lookup-Useful [] key slots u e = ground arith
lookup-Useful ((k, v) ∷ m) key slots (a, u) e = ground (arith, lookup-Useful m key slots u)

unfoldable UsefulResult : Option Catalog → Type 0
UsefulResult o = Useful (or_empty o)

bind-Useful {ℓ} :
    {A : Type ℓ} (o : Option A) (f : A → Option Catalog)
    → ((a : A) → UsefulResult (f a))
    → UsefulResult (o >>= f)
unfolding UsefulResult
bind-Useful none f h = tt
bind-Useful (some a) f h = h a

some-Useful : (m : Catalog) → Useful m → UsefulResult (some m)
unfolding UsefulResult
some-Useful m u = u

read_mo-Useful : (source : List ℕ) → UsefulResult (read_mo source)
unfolding read_mo
read_mo-Useful source = bind-Useful (get_range source 0 4) _ λ magic.
    bind-Useful (byte_order magic) _ λ little.
      bind-Useful (filter_some (λ v. v == 0) (read_mo_u32 source 4 little)) _ λ version.
        bind-Useful (read_mo_u32 source 8 little) _ λ count.
          bind-Useful (read_mo_u32 source 12 little) _ λ original.
            bind-Useful (read_mo_u32 source 16 little) _ λ translation.
              some-Useful _
                (read_entries-Useful (mo_entry source little original translation) count)

from_mo-Useful : (source : List ℕ) → Useful (from_mo source)
unfolding from_mo UsefulResult
from_mo-Useful source = read_mo-Useful source

-- Whatever the bytes, an entry that the catalog has holds a text in one of its slots at least.
pub from_mo-has_text :
    (source : List ℕ) (key : Text) (slots : List Text)
    → lookup (from_mo source) key ≡ some slots
    → any (λ t. not (is_empty t)) slots ≡ true
from_mo-has_text source key slots = lookup-Useful (from_mo source) key slots (from_mo-Useful source)

filled-text :
    (o : Option Text) (t : Text)
    → filter_some (λ u. not (is_empty u)) o ≡ some t
    → (o ≡ some t) × (is_empty t ≡ false)
filled-text none t e = ground arith
filled-text (some u) t e = ground arith

-- The catalog's entry has a text, that is not empty, in a slot.
abbrev pub HasText : Catalog → Text → ℕ → Text → Type 0
HasText m key i t =
    (slots : List Text) × (lookup m key ≡ some slots)
    × (get_elem? slots i ≡ some t)
    × (is_empty t ≡ false)

none-HasText :
    (m : Catalog) (key : Text) (slots : List Text) (i : ℕ)
    → lookup m key ≡ some slots
    → filter_some (λ u. not (is_empty u)) (get_elem? slots i) ≡ none
    → (t : Text) → ¬ HasText m key i t
none-HasText m key slots i e f t (others, g, at, filled) = ground arith

-- The text at the index; else the first; else one of the program's two, neither slot having a text.
abbrev pub PluralText : Catalog → Text → Text → Text → ℕ → Text → Type 0
PluralText m key singular plural index shown =
    HasText m key index shown
    ⊎ (((t : Text) → ¬ HasText m key index t) × HasText m key 0 shown)
    ⊎ (((t : Text) → ¬ HasText m key index t)
        × ((t : Text) → ¬ HasText m key 0 t)
        × (((index ≡ 0) × (shown ≡ singular)) ⊎ ((0 < index) × (shown ≡ plural))))

module _ (m : Catalog) (key singular plural : Text) (index : ℕ) where
  own_text :
      ((t : Text) → ¬ HasText m key index t)
      → ((t : Text) → ¬ HasText m key 0 t)
      → PluralText m key singular plural index (if index == 0 then singular else plural)
  own_text h k =
      if_cases (PluralText m key singular plural index) (index == 0)
        (λ e. inr (inr (h, k, inl (ground arith, refl))))
        (λ e. inr (inr (h, k, inr (ground arith, refl))))

  get_plural-PluralText :
      PluralText m key singular plural index (get_plural m key singular plural index)
  unfolding get_plural
  get_plural-PluralText = elim (Option-cases (lookup m key)) [
    | inl e ↦ subst Shown (rw e refl) (own_text (λ t h. ground arith) (λ t h. ground arith))
    | inr (slots, e) ↦
        elim (Option-cases (filter_some (λ u. not (is_empty u)) (get_elem? slots index))) [
          | inr (t, f) ↦
              let (at, filled) = filled-text (get_elem? slots index) t f in
              subst Shown (rw (e, f) refl) (inl (slots, e, at, filled))
          | inl f ↦ elim (Option-cases (filter_some (λ u. not (is_empty u)) (get_elem? slots 0))) [
            | inr (t, g) ↦
                let (at, filled) = filled-text (get_elem? slots 0) t g in
                subst Shown (rw (e, f, g) refl)
                  (inr (inl (none-HasText m key slots index e f, (slots, e, at, filled))))
            | inl g ↦
                subst Shown (rw (e, f, g) refl)
                  (own_text (none-HasText m key slots index e f) (none-HasText m key slots 0 e g))
          ]
        ]
  ]
    where
      Shown : Text → Type 0
      Shown = PluralText m key singular plural index

  -- Where neither the singular nor the plural of the program is empty: a plural text is not empty,
  -- and it is that of the slot of its index, where the catalog's entry has one there that is not
  -- empty; else that of the first slot, where it is not empty; else the singular of the program for
  -- the index 0 and its plural for the others.
  pub get_plural_lem :
      is_empty singular ≡ false
      → is_empty plural ≡ false
      → (is_empty (get_plural m key singular plural index) ≡ false)
        × PluralText m key singular plural index (get_plural m key singular plural index)
  get_plural_lem a b = (
    elim get_plural-PluralText [
      | inl (slots, e, at, filled) ↦ filled
      | inr (inl (h, (slots, e, at, filled))) ↦ filled
      | inr (inr (h, k, inl (z, e))) ↦ rw e a
      | inr (inr (h, k, inr (z, e))) ↦ rw e b
    ],
    get_plural-PluralText,
  )
