-- ===== src/Model/Translation/Request.antt =====
-- When a translation starts, what it sends, and what the guide of the provider setup promises.
use linguamesh_linux.Prelude.{
  refl, none, [], ◌≡◌, arith, false, true, some, ◌↔◌, ◌⊎◌, is_some, Option-cases, inl, inr, none,
  [],
}
use linguamesh_linux.Domain.{Domain}
use linguamesh_linux.Model.State.{AppState, onboarding_stage}
use linguamesh_linux.Model.Status.{is_connecting, is_ok, OnboardingStage, is_busy, ok, AppStatus}
use linguamesh_linux.Model.Translation.{
  begin_translation, begin_document_translation, streaming, build_request,
}
use linguamesh_linux.Prelude.Text.{Text, is_blank}

-- What a translation needs of the state, in no order.
pub record CanTranslate {d : Domain} (s : AppState d) : Type 0 where
  pub idle : (is_connecting s.status ≡ false) × (is_busy s.status ≡ false)
  pub settled :
      (is_some s.pending_model_selection ≡ false) × (is_some s.pending_profile_deletion ≡ false)
  pub provider : is_some s.active_provider ≡ true
  pub model : is_some s.selected_model ≡ true
  pub source : is_blank s.source_text ≡ false

module _ {d : Domain} (s : AppState d) where
  -- The request, with the glossary where the state has one.
  abbrev pub Sends : Text → d.Request → Type 0
  Sends m r =
      let plain =
        d.with_source_locale (d.request_new s.source_text s.target_locale m) s.source_locale in
      ((s.glossary ≡ none)
        × (r
            ≡ d.with_preset
                (d.with_quality_mode (d.with_privacy_mode plain s.privacy_mode) s.quality_mode)
                s.translation_preset))
      ⊎ ((g : d.Glossary) × (s.glossary ≡ some g)
          × (r
              ≡ d.with_preset
                  (d.with_quality_mode
                    (d.with_privacy_mode (d.with_glossary plain g) s.privacy_mode) s.quality_mode)
                  s.translation_preset))

  build_request-Sends : (m : Text) → Sends m (build_request m s)
  unfolding build_request
  build_request-Sends m = elim (Option-cases s.glossary) [
    | inl e ↦ inl (e, rw e refl)
    | inr (g, e) ↦ inr (g, e, rw e refl)
  ]

  started :
      (m : Text)
      → CanTranslate s
      → s.selected_model ≡ some m
      → begin_translation s ≡ (streaming s, ok (build_request m s))
  unfolding begin_translation
  started m c e = ground arith

  needs : is_ok (begin_translation s).1 ≡ true → CanTranslate s
  unfolding begin_translation
  needs h = ground arith

  -- A translation starts exactly if no connection or translation is running, no model selection or
  -- deletion is awaited, a provider is connected, a model is selected, and the source is not blank.
  -- It then empties the output, its partial mark, the usage, the error and the last sequence number,
  -- translates, and changes nothing else. The request it sends is that of the source text, the
  -- target locale and the selected model, with the source locale, with the glossary where there is
  -- one, and with the privacy mode, the quality mode and the preset.
  pub begin_translation_iff :
      ((is_ok (begin_translation s).1 ≡ true) ↔ CanTranslate s)
      × ((m : Text)
          → CanTranslate s
          → s.selected_model ≡ some m
          → (r : d.Request) × Sends m r
            × (begin_translation s ≡ (
              record s {
                output = [];
                partial_output = false;
                usage = none;
                error = none;
                last_sequence = none;
                status = AppStatus.translating;
              },
              ok r,
            )))
  begin_translation_iff =
      ((needs, λ c. starts c), λ m c e. (build_request m s, build_request-Sends m, started m c e))
    where
      starts : CanTranslate s → is_ok (begin_translation s).1 ≡ true
      starts c = elim (Option-cases s.selected_model) [
        | inl none_ ↦ absurd (ground arith)
        | inr (m, e) ↦ rw (started m c e)
      ]

  -- What a document job needs is what a translation needs, without the source text.
  pub begin_document_translation_iff : (is_ok (begin_document_translation s).1 ≡ true) ↔ (
      (is_connecting s.status ≡ false)
      × (is_busy s.status ≡ false)
      × (is_some s.pending_model_selection ≡ false)
      × (is_some s.pending_profile_deletion ≡ false)
      × (is_some s.active_provider ≡ true)
      × (is_some s.selected_model ≡ true))
  unfolding begin_document_translation
  begin_document_translation_iff = (λ h. ground arith, λ h. ground arith)

  -- Where the guide of the provider setup says that the client is ready, a translation of a source
  -- that is not blank starts, unless one is running or a deletion is awaited.
  pub onboarding-ready_translates :
      onboarding_stage s ≡ OnboardingStage.ready
      → is_busy s.status ≡ false
      → is_some s.pending_profile_deletion ≡ false
      → is_blank s.source_text ≡ false
      → is_ok (begin_translation s).1 ≡ true
  unfolding onboarding_stage
  onboarding-ready_translates h b p t = begin_translation_iff.0.1 (ground arith)

  -- The stages of the guide that name a missing step: a provider to configure, and a model to
  -- select, are those in which a translation is refused, whatever the source.
  pub onboarding-refuses :
      (onboarding_stage s ≡ OnboardingStage.connecting)
        ⊎ (onboarding_stage s ≡ OnboardingStage.configure_provider)
        ⊎ (onboarding_stage s ≡ OnboardingStage.select_model)
      → is_ok (begin_translation s).1 ≡ false
  unfolding onboarding_stage begin_translation
  onboarding-refuses h = ground arith
