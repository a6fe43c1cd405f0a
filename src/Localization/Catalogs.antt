-- ===== src/Localization/Catalogs.antt =====
-- src/localization.rs: the catalogs of the locales, and the texts of the interface.
use Prim.Native.String.{String}
use linguamesh_linux.Prelude.{
  ℕ, refl, List, [], ◌∷◌, ◌≡◌, map, Option, get_or, some, position, does, none,
}
use linguamesh_linux.Prelude.Text.{Text}
use linguamesh_linux.Model.Locale.{
  UiLocale, UiLocale-discrete, all, language_tag, english, simplified_chinese, traditional_chinese,
  spanish, french, german, japanese, korean, brazilian_portuguese, russian, arabic, hindi,
  pseudo_accented_english, pseudo_rtl_arabic,
}
use linguamesh_linux.Localization.{Catalog, from_mo, get, get_plural}
use linguamesh_linux.Localization.Plural.{plural_index}

-- The files that the build compiles from the catalogs are a parameter, by the directory under
-- l10n/linux.
module _ (mo : String → List ℕ) where
  -- `CATALOGS`, in the order of the array.
  unfoldable pub catalogs : List Catalog
  catalogs =
      map (λ directory. from_mo (mo directory))
        ("en" ∷ "zh-Hans" ∷ "zh-Hant" ∷ "es" ∷ "fr" ∷ "de" ∷ "ja" ∷ "ko" ∷ "pt-BR" ∷ "ru" ∷ "ar"
          ∷ "hi" ∷ "en-XA" ∷ "ar-XB" ∷ [])

  abbrev unwrap_or_default : Option ℕ → ℕ
  unwrap_or_default none = 0
  unwrap_or_default (some i) = i

  unfoldable pub catalog : UiLocale → Catalog
  unfolding catalogs
  catalog locale =
      get_or catalogs (unwrap_or_default (position (λ l. does (UiLocale-discrete l locale)) all)) []

  unfoldable pub text : UiLocale → Text → Text → Text
  text locale key fallback = get (catalog locale) key fallback

  unfoldable pub text_plural : UiLocale → Text → Text → Text → ℕ → Text
  text_plural locale key singular plural count =
      get_plural (catalog locale) key singular plural (plural_index locale count)

  -- The directory of a locale.
  abbrev pub directory : UiLocale → String
  directory simplified_chinese = "zh-Hans"
  directory locale = language_tag locale

  -- Every locale has the catalog of its own directory: the one that its language tag names, except
  -- that the tag of simplified Chinese is "zh-CN" and its directory is "zh-Hans".
  pub catalog-directory : (locale : UiLocale) → catalog locale ≡ from_mo (mo (directory locale))
  unfolding catalog catalogs UiLocale-discrete language_tag
  catalog-directory english = refl
  catalog-directory simplified_chinese = refl
  catalog-directory traditional_chinese = refl
  catalog-directory spanish = refl
  catalog-directory french = refl
  catalog-directory german = refl
  catalog-directory japanese = refl
  catalog-directory korean = refl
  catalog-directory brazilian_portuguese = refl
  catalog-directory russian = refl
  catalog-directory arabic = refl
  catalog-directory hindi = refl
  catalog-directory pseudo_accented_english = refl
  catalog-directory pseudo_rtl_arabic = refl
