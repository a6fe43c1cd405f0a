-- ===== src/Model/Locale.antt =====
-- src/model.rs, `UiLocale`: the locales of the interface and their metadata.
use Prim.Native.String.{String}
use linguamesh_linux.Prelude.{
  ℕ, Bool, true, false, List, [], ◌∷◌, ltb, if◌then◌else◌, length, get_or,
}

pub data UiLocale : Type 0 where
  english simplified_chinese traditional_chinese spanish : UiLocale
  french german japanese korean : UiLocale
  brazilian_portuguese russian arabic hindi : UiLocale
  pseudo_accented_english pseudo_rtl_arabic : UiLocale

unfoldable pub UiLocale-discrete : Discrete UiLocale
UiLocale-discrete = hlevel

-- `UiLocale::ALL`, in the order of the dropdown.
abbrev pub all : List UiLocale
all =
    english ∷ simplified_chinese ∷ traditional_chinese ∷ spanish ∷ french ∷ german ∷ japanese
    ∷ korean ∷ brazilian_portuguese ∷ russian ∷ arabic ∷ hindi ∷ pseudo_accented_english
    ∷ pseudo_rtl_arabic ∷ []

unfoldable pub label : UiLocale → String
label english = "English"
label simplified_chinese = "Simplified Chinese"
label traditional_chinese = "Traditional Chinese"
label spanish = "Spanish"
label french = "French"
label german = "German"
label japanese = "Japanese"
label korean = "Korean"
label brazilian_portuguese = "Portuguese (Brazil)"
label russian = "Russian"
label arabic = "Arabic"
label hindi = "Hindi"
label pseudo_accented_english = "Pseudo English (Accented)"
label pseudo_rtl_arabic = "Pseudo Arabic (RTL)"

unfoldable pub language_tag : UiLocale → String
language_tag english = "en"
language_tag simplified_chinese = "zh-CN"
language_tag traditional_chinese = "zh-Hant"
language_tag spanish = "es"
language_tag french = "fr"
language_tag german = "de"
language_tag japanese = "ja"
language_tag korean = "ko"
language_tag brazilian_portuguese = "pt-BR"
language_tag russian = "ru"
language_tag arabic = "ar"
language_tag hindi = "hi"
language_tag pseudo_accented_english = "en-XA"
language_tag pseudo_rtl_arabic = "ar-XB"

-- An index that the list does not have gives English.
unfoldable pub from_index : ℕ → UiLocale
from_index index = if ltb index (length all) then get_or all index english else english

unfoldable pub is_rtl : UiLocale → Bool
is_rtl arabic = true
is_rtl pseudo_rtl_arabic = true
is_rtl _ = false
