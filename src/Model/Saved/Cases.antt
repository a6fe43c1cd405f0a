-- ===== src/Model/Saved/Cases.antt =====
-- The methods on the saved profiles, each as two cases: the refusal, which keeps the state, and the
-- committed state with the tests that it passed.
use linguamesh_linux.Prelude.{◌≡◌, if_cases, option_cases, ◌||◌}
use linguamesh_linux.Domain.{Domain}
use linguamesh_linux.Model.State.{AppState}
use linguamesh_linux.Model.Saved.{
  restore_saved_profiles, update_saved_profile_health, select_saved_profile, begin_profile_deletion,
  confirm_profile_deletion, profile_deletion_failed, List, ℕ, Option, not, is_disconnected,
  profile_position, is_some, profile_storage_available, is_id, some, false, any, health_updated,
  is_connecting, deletion_confirmed, none, has_session_secret, is_busy, has_duplicate, is_some_and,
  is_missing, [], sort_saved_profiles, missing_or_disabled, restored,
}

module _ {ℓ} {d : Domain} (P : AppState d → Type ℓ) (s : AppState d) (refused : P s) where
  -- The property of the state of an outcome.
  abbrev Q : {A : Type 0} → AppState d × A → Type ℓ
  Q r = P r.0

  pub restore_saved_profiles_cases :
      (x : List d.Profile) (y : Option d.ProfileId)
      → (((not (is_disconnected s.status)
              || is_some s.active_provider
              || is_some s.pending_provider
              || is_some s.pending_profile_deletion
              || any (has_session_secret d) x)
            ≡ false)
          → ((has_duplicate d [] (sort_saved_profiles d x)) ≡ false)
          → ((is_some_and y (missing_or_disabled d (sort_saved_profiles d x))) ≡ false)
          → P (restored (sort_saved_profiles d x) y s))
      → P (restore_saved_profiles x y s).0
  unfolding restore_saved_profiles
  restore_saved_profiles_cases x y commit =
      if_cases Q _ (λ _. refused)
        λ e0. if_cases Q _ (λ _. refused) λ e1. if_cases Q _ (λ _. refused) λ e2. commit e0 e1 e2

  pub update_saved_profile_health_cases :
      (x : d.Profile)
      → ((i : ℕ) → profile_position d s.saved_profiles (d.id x) ≡ some i → P (health_updated x i s))
      → P (update_saved_profile_health x s).0
  unfolding update_saved_profile_health
  update_saved_profile_health_cases x commit =
      option_cases Q (profile_position d s.saved_profiles (d.id x)) (λ _. refused) commit

  pub select_saved_profile_cases :
      (x : Option d.ProfileId)
      → (((is_some s.pending_profile_deletion) ≡ false)
          → ((is_some s.pending_model_selection) ≡ false)
          → ((is_connecting s.status) ≡ false)
          → ((is_busy s.status) ≡ false)
          → ((is_some_and x (is_missing d s.saved_profiles)) ≡ false)
          → P (record s { selected_saved_profile_id = x }))
      → P (select_saved_profile x s).0
  unfolding select_saved_profile
  select_saved_profile_cases x commit =
      if_cases Q _ (λ _. refused)
        λ e0.
          if_cases Q _ (λ _. refused)
            λ e1.
              if_cases Q _ (λ _. refused)
                λ e2.
                  if_cases Q _ (λ _. refused)
                    λ e3. if_cases Q _ (λ _. refused) λ e4. commit e0 e1 e2 e3 e4

  pub begin_profile_deletion_cases :
      (x : d.ProfileId)
      → (((not (profile_storage_available s)) ≡ false)
          → ((is_some s.pending_profile_deletion) ≡ false)
          → ((is_connecting s.status) ≡ false)
          → ((is_busy s.status) ≡ false)
          → ((is_some s.pending_model_selection) ≡ false)
          → ((is_missing d s.saved_profiles x) ≡ false)
          → P (record s { pending_profile_deletion = some x; error = none }))
      → P (begin_profile_deletion x s).0
  unfolding begin_profile_deletion
  begin_profile_deletion_cases x commit =
      if_cases Q _ (λ _. refused)
        λ e0.
          if_cases Q _ (λ _. refused)
            λ e1.
              if_cases Q _ (λ _. refused)
                λ e2.
                  if_cases Q _ (λ _. refused)
                    λ e3.
                      if_cases Q _ (λ _. refused)
                        λ e4. if_cases Q _ (λ _. refused) λ e5. commit e0 e1 e2 e3 e4 e5

  pub confirm_profile_deletion_cases :
      (x : d.ProfileId)
      → (not (is_id d s.pending_profile_deletion x) ≡ false
          → (i : ℕ) → profile_position d s.saved_profiles x ≡ some i
          → P (deletion_confirmed x i s))
      → P (confirm_profile_deletion x s).0
  unfolding confirm_profile_deletion
  confirm_profile_deletion_cases x commit =
      if_cases Q _ (λ _. refused)
        λ e0. option_cases Q (profile_position d s.saved_profiles x) (λ _. refused) (commit e0)

  pub profile_deletion_failed_cases :
      (x : d.ProfileId) (y : d.TranslationError)
      → (((not (is_id d s.pending_profile_deletion x)) ≡ false)
          → P (record s { pending_profile_deletion = none; error = some y }))
      → P (profile_deletion_failed x y s).0
  unfolding profile_deletion_failed
  profile_deletion_failed_cases x y commit = if_cases Q _ (λ _. refused) λ e0. commit e0
