-- ===== src/Model/Connection/Cases.antt =====
-- The methods on connections and models, each as two cases: the refusal, which keeps the state, and
-- the committed state with the tests that it passed.
use linguamesh_linux.Prelude.{◌≡◌, if_cases, option_cases, true, ◌&&◌, ◌||◌}
use linguamesh_linux.Prelude.Text.{Text}
use linguamesh_linux.Model.Connection.{
  saved_counterpart, confirm_counterpart, confirm_active, confirm_model_selection,
  confirm_model_selection_with_saved_profile, begin_provider_connection_with_persistence,
  provider_connected_with_saved_profile, provider_connection_failed, begin_model_selection, Option,
  model_selection_failed, select_model, Bool, List, not, is_connecting, some, is_discovered, false,
  kept_model, is_some_and, same_id, is_model, is_busy, does, none, is_some, bool_ne,
  provider_failed, profile_storage_available, unfit, AppStatus, connected, is_missing,
  model_confirmed, confirm_with_profiles,
}
use linguamesh_linux.Model.Status.{Result, ok, err}
use linguamesh_linux.Domain.{Domain}
use linguamesh_linux.Model.State.{AppState}

module _ {ℓ} {d : Domain} (P : AppState d → Type ℓ) (s : AppState d) (refused : P s) where
  -- The property of the state of an outcome.
  abbrev Q : {A : Type 0} → AppState d × A → Type ℓ
  Q r = P r.0

  pub begin_provider_connection_with_persistence_cases :
      (x : d.Profile) (y : Bool)
      → (((not (d.enabled x)) ≡ false)
          → ((is_busy s.status) ≡ false)
          → ((is_some s.pending_profile_deletion) ≡ false)
          → ((is_some s.pending_model_selection) ≡ false)
          → ((is_connecting s.status) ≡ false)
          → ((y && not (profile_storage_available s)) ≡ false)
          → P (record s {
            pending_provider = some x;
            pending_provider_will_be_saved = y;
            status = AppStatus.connecting;
            error = none;
          }))
      → P (begin_provider_connection_with_persistence x y s).0
  unfolding begin_provider_connection_with_persistence
  begin_provider_connection_with_persistence_cases x y commit =
      if_cases Q _ (λ _. refused)
        λ e0.
          if_cases Q _ (λ _. refused)
            λ e1.
              if_cases Q _ (λ _. refused)
                λ e2.
                  if_cases Q _ (λ _. refused)
                    λ e3.
                      if_cases Q _ (λ _. refused)
                        λ e4. if_cases Q _ (λ _. refused) λ e5. commit e0 e1 e2 e3 e4 e5

  pub provider_connected_with_saved_profile_cases :
      (x : d.Profile) (y : List d.Model) (z : Option d.Profile)
      → ((pending : d.Profile)
          → s.pending_provider ≡ some pending
          → (expected : d.Profile)
          → d.with_selected_model pending (kept_model d y pending) ≡ some expected
          → not (does (d.profile_discrete x expected)) ≡ false
          → (bool_ne s.pending_provider_will_be_saved (is_some z) || is_some_and z (unfit d x))
            ≡ false
          → P (connected x y z s))
      → P (provider_connected_with_saved_profile x y z s).0
  unfolding provider_connected_with_saved_profile
  provider_connected_with_saved_profile_cases x y z commit =
      option_cases Q s.pending_provider (λ _. refused)
        λ pending e.
          option_cases Q (d.with_selected_model pending (kept_model d y pending)) (λ _. refused)
            λ expected e'.
              if_cases Q _ (λ _. refused)
                λ e0. if_cases Q _ (λ _. refused) λ e1. commit pending e expected e' e0 e1

  pub provider_connection_failed_cases :
      (x : d.Profile) (y : d.TranslationError)
      → (((not (is_some_and s.pending_provider (λ q. does (d.profile_discrete q x)))) ≡ false)
          → P (provider_failed y s))
      → P (provider_connection_failed x y s).0
  unfolding provider_connection_failed
  provider_connection_failed_cases x y commit = if_cases Q _ (λ _. refused) λ e0. commit e0

  pub begin_model_selection_cases :
      (x : Text)
      → (((is_connecting s.status) ≡ false)
          → ((is_busy s.status) ≡ false)
          → ((is_some s.pending_profile_deletion) ≡ false)
          → ((not (is_some s.active_provider)) ≡ false)
          → ((not (is_discovered d s.models x)) ≡ false)
          → P (record s { pending_model_selection = some x; error = none }))
      → P (begin_model_selection x s).0
  unfolding begin_model_selection
  begin_model_selection_cases x commit =
      if_cases Q _ (λ _. refused)
        λ e0.
          if_cases Q _ (λ _. refused)
            λ e1.
              if_cases Q _ (λ _. refused)
                λ e2.
                  if_cases Q _ (λ _. refused)
                    λ e3. if_cases Q _ (λ _. refused) λ e4. commit e0 e1 e2 e3 e4

  confirm_with_profiles_cases :
      (active : d.Profile) (x : d.ProfileId) (y : Text) (z : Option d.Profile)
      → ((updated : d.Profile)
          → d.with_selected_model active (some y) ≡ some updated
          → is_some_and z (unfit d updated) ≡ false
          → (is_some z && is_missing d s.saved_profiles x) ≡ false
          → P (model_confirmed updated y z s))
      → P (confirm_with_profiles active x y z s).0
  unfolding confirm_with_profiles
  confirm_with_profiles_cases active x y z commit =
      option_cases Q (d.with_selected_model active (some y)) (λ _. refused)
        λ updated e.
          if_cases Q _ (λ _. refused) λ e0. if_cases Q _ (λ _. refused) λ e1. commit updated e e0 e1

  pub confirm_model_selection_with_saved_profile_cases :
      (x : d.ProfileId) (y : Text) (z : Option d.Profile)
      → ((active : d.Profile)
          → s.active_provider ≡ some active
          → (not (same_id d (d.id active) x) || not (is_model s.pending_model_selection y)) ≡ false
          → not (is_discovered d s.models y) ≡ false
          → bool_ne (is_some s.active_saved_profile_id) (is_some z) ≡ false
          → (updated : d.Profile) → d.with_selected_model active (some y) ≡ some updated
          → is_some_and z (unfit d updated) ≡ false
          → (is_some z && is_missing d s.saved_profiles x) ≡ false
          → P (model_confirmed updated y z s))
      → P (confirm_model_selection_with_saved_profile x y z s).0
  unfolding confirm_model_selection_with_saved_profile
  confirm_model_selection_with_saved_profile_cases x y z commit =
      option_cases Q s.active_provider (λ _. refused)
        λ active e.
          if_cases Q _ (λ _. refused)
            λ e0.
              if_cases Q _ (λ _. refused)
                λ e1.
                  if_cases Q _ (λ _. refused)
                    λ e2.
                      if_cases Q _ (λ _. refused)
                        λ _. confirm_with_profiles_cases active x y z (commit active e e0 e1 e2)

  pub model_selection_failed_cases :
      (x : Text) (y : d.TranslationError)
      → (((not (is_model s.pending_model_selection x)) ≡ false)
          → P (record s { pending_model_selection = none; error = some y }))
      → P (model_selection_failed x y s).0
  unfolding model_selection_failed
  model_selection_failed_cases x y commit = if_cases Q _ (λ _. refused) λ e0. commit e0

  pub select_model_cases :
      (x : Text)
      → (is_discovered d s.models x ≡ true
          → P (record s { selected_model = some x; pending_model_selection = none }))
      → P (select_model x s).0
  unfolding select_model
  select_model_cases x commit = if_cases Q _ commit (λ _. refused)

module _ {ℓ} {d : Domain} (P : AppState d → Type ℓ) (s : AppState d) (m : Text) (refused : P s)
    (called : (x : d.ProfileId) (saved : Option d.Profile)
      → P (confirm_model_selection_with_saved_profile x m saved s).0) where
  counterpart_cases :
      (r : Result (Option d.Profile)) (active : d.Profile) → P (confirm_counterpart r active m s).0
  unfolding confirm_counterpart
  counterpart_cases (err _) active = refused
  counterpart_cases (ok saved) active = called (d.id active) saved

  active_cases : (o : Option d.Profile) → P (confirm_active o m s).0
  unfolding confirm_active
  active_cases none = refused
  active_cases (some active) = counterpart_cases (saved_counterpart (d.id active) m s) active

  pub confirm_model_selection_cases : P (confirm_model_selection m s).0
  unfolding confirm_model_selection
  confirm_model_selection_cases = active_cases s.active_provider
