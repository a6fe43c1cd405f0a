-- ===== src/Model/Translation/Cases.antt =====
-- The methods on a translation, each as two cases: the refusal, which keeps the state, and the
-- committed state with the tests that it passed.
use linguamesh_linux.Prelude.{◌≡◌, if_cases, option_cases, ◌&&◌}
use linguamesh_linux.Domain.{Domain}
use linguamesh_linux.Model.State.{AppState}
use linguamesh_linux.Model.Translation.{
  begin_translation, begin_document_translation, request_cancellation, apply_translation_event,
  Text, is_connecting, not, is_terminal, false, is_translating, is_busy, AppStatus, is_some,
  is_blank, streaming, some, is_started, is_some_and, leb, apply_body,
}

module _ {ℓ} {d : Domain} (P : AppState d → Type ℓ) (s : AppState d) (refused : P s) where
  -- The property of the state of an outcome.
  abbrev Q : {A : Type 0} → AppState d × A → Type ℓ
  Q r = P r.0

  pub begin_translation_cases :
      ((m : Text)
        → is_connecting s.status ≡ false
        → is_busy s.status ≡ false
        → is_some s.pending_model_selection ≡ false
        → is_some s.pending_profile_deletion ≡ false
        → not (is_some s.active_provider) ≡ false
        → is_blank s.source_text ≡ false
        → s.selected_model ≡ some m
        → P (streaming s))
      → P (begin_translation s).0
  unfolding begin_translation
  begin_translation_cases commit =
      if_cases Q _ (λ _. refused)
        λ e0.
          if_cases Q _ (λ _. refused)
            λ e1.
              if_cases Q _ (λ _. refused)
                λ e2.
                  if_cases Q _ (λ _. refused)
                    λ e3.
                      if_cases Q _ (λ _. refused)
                        λ e4.
                          if_cases Q _ (λ _. refused)
                            λ e5.
                              option_cases Q s.selected_model (λ _. refused)
                                λ m e. commit m e0 e1 e2 e3 e4 e5 e

  pub begin_document_translation_cases :
      (((is_connecting s.status) ≡ false)
        → ((is_busy s.status) ≡ false)
        → ((is_some s.pending_model_selection) ≡ false)
        → ((is_some s.pending_profile_deletion) ≡ false)
        → ((not (is_some s.active_provider)) ≡ false)
        → ((not (is_some s.selected_model)) ≡ false)
        → P (streaming s))
      → P (begin_document_translation s).0
  unfolding begin_document_translation
  begin_document_translation_cases commit =
      if_cases Q _ (λ _. refused)
        λ e0.
          if_cases Q _ (λ _. refused)
            λ e1.
              if_cases Q _ (λ _. refused)
                λ e2.
                  if_cases Q _ (λ _. refused)
                    λ e3.
                      if_cases Q _ (λ _. refused)
                        λ e4. if_cases Q _ (λ _. refused) λ e5. commit e0 e1 e2 e3 e4 e5

  pub request_cancellation_cases :
      (((not (is_translating s.status)) ≡ false) → P (record s { status = AppStatus.cancelling }))
      → P (request_cancellation s).0
  unfolding request_cancellation
  request_cancellation_cases commit = if_cases Q _ (λ _. refused) λ e0. commit e0

  pub apply_translation_event_cases :
      (x : d.Event)
      → (((is_terminal s.status) ≡ false)
          → ((not (is_some s.last_sequence) && not (is_started (d.body x))) ≡ false)
          → ((is_some s.last_sequence && is_started (d.body x)) ≡ false)
          → ((is_some_and s.last_sequence (λ last. leb (d.sequence x) last)) ≡ false)
          → P (apply_body (d.body x) (record s { last_sequence = some (d.sequence x) })))
      → P (apply_translation_event x s).0
  unfolding apply_translation_event
  apply_translation_event_cases x commit =
      if_cases Q _ (λ _. refused)
        λ e0.
          if_cases Q _ (λ _. refused)
            λ e1.
              if_cases Q _ (λ _. refused) λ e2. if_cases Q _ (λ _. refused) λ e3. commit e0 e1 e2 e3
