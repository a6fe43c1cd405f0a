-- ===== src/Localization/Plural.antt =====
-- src/localization.rs, `plural_index` and `text_plural`, against the Plural-Forms headers of
-- l10n/linux/*/LC_MESSAGES/linguamesh.po.
use linguamesh_linux.Prelude.{
  ℕ, refl, Bool, ltb, if◌then◌else◌, ◌≡◌, ◌<◌, leb, arith, ◌==◌, ◌%◌, ◌↔◌, ◌&&◌, true, not, false,
  ◌||◌, suc, zero,
}
use linguamesh_linux.Model.Locale.{
  UiLocale, russian, arabic, pseudo_rtl_arabic, brazilian_portuguese, simplified_chinese,
  traditional_chinese, french, japanese, korean, english, spanish, german, hindi,
  pseudo_accented_english,
}

abbrev usize_from : Bool → ℕ
usize_from b = if b then 1 else 0

abbrev between : ℕ → ℕ → ℕ → Bool
between low high n = leb low n && leb n high

abbrev arabic_index : ℕ → ℕ
arabic_index n =
    if n == 0
    then 0
    else if n == 1
    then 1
    else if n == 2
    then 2
    else if between 3 10 (n % 100)
    then 3
    else if between 11 99 (n % 100)
    then 4
    else 5

unfoldable pub plural_index : UiLocale → ℕ → ℕ
plural_index arabic n = arabic_index n
plural_index pseudo_rtl_arabic n = arabic_index n
plural_index french n = usize_from (ltb 1 n)
plural_index russian n =
    if (n % 10 == 1) && not (n % 100 == 11)
    then 0
    else if between 2 4 (n % 10) && not (between 12 14 (n % 100))
    then 1
    else 2
plural_index simplified_chinese n = 0
plural_index traditional_chinese n = 0
plural_index japanese n = 0
plural_index korean n = 0
plural_index english n = usize_from (not (n == 1))
plural_index spanish n = usize_from (not (n == 1))
plural_index german n = usize_from (not (n == 1))
plural_index brazilian_portuguese n = usize_from (not (n == 1))
plural_index hindi n = usize_from (not (n == 1))
plural_index pseudo_accented_english n = usize_from (not (n == 1))

-- The headers: `nplurals`, and the C expression `plural`.
abbrev pub nplurals : UiLocale → ℕ
nplurals arabic = 6
nplurals pseudo_rtl_arabic = 6
nplurals russian = 3
nplurals simplified_chinese = 1
nplurals traditional_chinese = 1
nplurals japanese = 1
nplurals korean = 1
nplurals _ = 2

abbrev arabic_form : ℕ → ℕ
arabic_form n =
    if n == 0
    then 0
    else if n == 1
    then 1
    else if n == 2
    then 2
    else if leb 3 (n % 100) && leb (n % 100) 10
    then 3
    else if leb 11 (n % 100) && leb (n % 100) 99
    then 4
    else 5

abbrev pub plural_form : UiLocale → ℕ → ℕ
plural_form arabic n = arabic_form n
plural_form pseudo_rtl_arabic n = arabic_form n
plural_form russian n =
    if (n % 10 == 1) && not (n % 100 == 11)
    then 0
    else if leb 2 (n % 10) && leb (n % 10) 4 && (ltb (n % 100) 10 || leb 20 (n % 100))
    then 1
    else 2
plural_form simplified_chinese n = 0
plural_form traditional_chinese n = 0
plural_form japanese n = 0
plural_form korean n = 0
plural_form french n = usize_from (ltb 1 n)
plural_form brazilian_portuguese n = usize_from (ltb 1 n)
plural_form _ n = usize_from (not (n == 1))

arabic-agrees : (n : ℕ) → (arabic_index n ≡ arabic_form n) × (arabic_index n < 6)
arabic-agrees n = ground arith

russian-agrees :
    (n : ℕ) → (plural_index russian n ≡ plural_form russian n) × (plural_index russian n < 3)
unfolding plural_index
russian-agrees n = ground arith

usize_from-bound : (b : Bool) → usize_from b < 2
usize_from-bound true = omega arith
usize_from-bound false = omega arith

-- The slot that the code picks is one that the catalog declares.
pub plural_index-bound : (l : UiLocale) (n : ℕ) → plural_index l n < nplurals l
unfolding plural_index
plural_index-bound english n = usize_from-bound (not (n == 1))
plural_index-bound simplified_chinese n = omega arith
plural_index-bound traditional_chinese n = omega arith
plural_index-bound spanish n = usize_from-bound (not (n == 1))
plural_index-bound french n = usize_from-bound (ltb 1 n)
plural_index-bound german n = usize_from-bound (not (n == 1))
plural_index-bound japanese n = omega arith
plural_index-bound korean n = omega arith
plural_index-bound brazilian_portuguese n = usize_from-bound (not (n == 1))
plural_index-bound russian n = (russian-agrees n).1
plural_index-bound arabic n = (arabic-agrees n).1
plural_index-bound hindi n = usize_from-bound (not (n == 1))
plural_index-bound pseudo_accented_english n = usize_from-bound (not (n == 1))
plural_index-bound pseudo_rtl_arabic n = (arabic-agrees n).1

-- The slot that the code picks is the one of the catalog's Plural-Forms, for every locale and count
-- but Brazilian Portuguese at 0, where the catalog declares slot 0 and the code picks slot 1.
pub plural_index_iff :
    (l : UiLocale) (n : ℕ)
    → (plural_index l n ≡ plural_form l n) ↔ (¬ ((l ≡ brazilian_portuguese) × (n ≡ 0)))
unfolding plural_index
plural_index_iff english n = (λ _ (e, _). absurd (cc e), λ _. refl)
plural_index_iff simplified_chinese n = (λ _ (e, _). absurd (cc e), λ _. refl)
plural_index_iff traditional_chinese n = (λ _ (e, _). absurd (cc e), λ _. refl)
plural_index_iff spanish n = (λ _ (e, _). absurd (cc e), λ _. refl)
plural_index_iff french n = (λ _ (e, _). absurd (cc e), λ _. refl)
plural_index_iff german n = (λ _ (e, _). absurd (cc e), λ _. refl)
plural_index_iff japanese n = (λ _ (e, _). absurd (cc e), λ _. refl)
plural_index_iff korean n = (λ _ (e, _). absurd (cc e), λ _. refl)
plural_index_iff brazilian_portuguese zero = (λ e p. ground arith, λ h. absurd (h (refl, refl)))
plural_index_iff brazilian_portuguese (suc n) = (λ e (_, z). ground arith, λ h. ground arith)
plural_index_iff russian n = (λ _ (e, _). absurd (cc e), λ _. (russian-agrees n).0)
plural_index_iff arabic n = (λ _ (e, _). absurd (cc e), λ _. (arabic-agrees n).0)
plural_index_iff hindi n = (λ _ (e, _). absurd (cc e), λ _. refl)
plural_index_iff pseudo_accented_english n = (λ _ (e, _). absurd (cc e), λ _. refl)
plural_index_iff pseudo_rtl_arabic n = (λ _ (e, _). absurd (cc e), λ _. (arabic-agrees n).0)
