-- ===== src/Worker/Storage.antt =====
-- src/worker.rs: what the worker does with the store of profiles and the provider manager when a
-- model is selected and when a saved profile is deleted.
pub mod Selection
pub mod SecretRefs
use linguamesh_linux.Prelude.{
  ℕ, List, Option, none, some, not, Bool, true, filter_some, is_some_and, any, [], ◌++◌,
  if◌then◌else◌, false, does, ◌&&◌, ◌∷◌, ◌||◌, is_some, ◌≡◌, ◌⊎◌, inl, inr, refl, arith,
}
use linguamesh_linux.Prelude.Text.{Text, codes}
use linguamesh_linux.Domain.{
  Domain, persistence, invalid_configuration, model_unavailable, secure_storage_unavailable,
  ErrorKind-discrete,
}
use linguamesh_linux.Model.Connection.{is_discovered}

-- `Result<_, TranslationError>`.
pub data Outcome (d : Domain) (A : Type 0) : Type 0 where
  done : A → Outcome d A
  failed : d.TranslationError → Outcome d A

-- What the worker uses of LinguaMesh Core: further references of a profile, the provider manager
-- and the store, whose calls give the store after them.
pub record Core (d : Domain) : Type 1 where
  pub secret_discrete : Discrete d.SecretRef
  pub secret_custom_headers_ref : d.Profile → Option d.SecretRef
  pub proxy_auth_ref : d.Profile → Option d.SecretRef
  pub client_certificate_identity_ref : d.Profile → Option d.SecretRef
  -- The text of the validation error of `with_selected_model`.
  pub profile_error : d.Profile → Option Text → Text
  pub Manager : Type 0
  pub active_profile_id : Manager → Option d.ProfileId
  pub manager_models : Manager → List d.Model
  pub Storage : Type 0
  pub provider_profile : Storage → d.ProfileId → Outcome d (Option d.Profile)
  pub delete_provider_profile : Storage → d.ProfileId → Storage × Outcome d Bool
  pub save_and_activate_provider : Storage → d.Profile → Storage × Outcome d (Unit {0})

module _ {d : Domain} where
  -- `?` and `and_then`.
  abbrev pub and_then : {A B : Type 0} → Outcome d A → (A → Outcome d B) → Outcome d B
  and_then (done a) f = f a
  and_then (failed e) f = failed e

  abbrev pub ok_or_else : {A : Type 0} → Option A → d.TranslationError → Outcome d A
  ok_or_else (some a) e = done a
  ok_or_else none e = failed e

  abbrev pub is_done : {A : Type 0} → Outcome d A → Bool
  is_done (done a) = true
  is_done (failed e) = false

  pub Outcome-cases :
      {A : Type 0} (o : Outcome d A)
      → ((e : d.TranslationError) × (o ≡ failed e)) ⊎ ((a : A) × (o ≡ done a))
  Outcome-cases (failed e) = inl (e, refl)
  Outcome-cases (done a) = inr (a, refl)

  -- A property of both branches, each with its equation, is one of the case distinction.
  pub outcome_cases {ℓ κ} :
      {A : Type 0} {B : Type ℓ} (P : B → Type κ) (o : Outcome d A) {f : d.TranslationError → B}
      {g : A → B}
      → ((e : d.TranslationError) → o ≡ failed e → P (f e))
      → ((a : A) → o ≡ done a → P (g a))
      → P (elim o [ failed e ↦ f e | done a ↦ g a ])
  outcome_cases P (failed e) hf hg = hf e refl
  outcome_cases P (done a) hf hg = hg a refl

module _ (d : Domain) (c : Core d) where
  abbrev pub map_profile_error : Text → d.TranslationError
  map_profile_error error =
      d.error_new invalid_configuration (codes "The provider profile is invalid: " ++ error)

  -- `with_selected_model(..).map_err(..)`.
  abbrev pub with_model : d.Profile → Text → Outcome d d.Profile
  with_model p model =
      ok_or_else (d.with_selected_model p (some model))
        (map_profile_error (c.profile_error p (some model)))

  unfoldable pub select_model : c.Manager → d.ProfileId → Text → Outcome d (Unit {0})
  select_model manager requested model =
      and_then
        (ok_or_else (c.active_profile_id manager) (
          d.error_new invalid_configuration (codes "Connect a provider before selecting a model.")))
        λ profile_id.
          if not (does (d.id_discrete profile_id requested))
          then failed (
              d.error_new invalid_configuration
                (codes "The model selection belongs to a stale provider."))
          else if not (is_discovered d (c.manager_models manager) model)
          then failed (
              d.error_new model_unavailable
                (codes "The selected model is not available from the active provider."))
          else done tt

  -- The store after the call, and the updated runtime and saved profiles.
  abbrev pub save_selection :
      Option d.Profile → Option c.Storage → Text → Option c.Storage × Outcome d (Option d.Profile)
  save_selection none storage model = (storage, done none)
  save_selection (some saved) storage model = elim (with_model saved model) [
    | failed e ↦ (storage, failed e)
    | done updated ↦ elim storage [
      | none ↦
          (none, failed (d.error_new persistence (codes "Profile storage became unavailable.")))
      | some s ↦
          let (after, outcome) = c.save_and_activate_provider s updated in
          (some after, and_then outcome λ _. done (some updated))
    ]
  ]

  -- The profile of the connection that the selection is for.
  abbrev pub runtime_with_model : Option d.Profile → d.ProfileId → Text → Outcome d d.Profile
  runtime_with_model active requested model =
      and_then
        (ok_or_else (filter_some (λ p. does (d.id_discrete (d.id p) requested)) active) (
          d.error_new invalid_configuration
            (codes "The model selection belongs to a stale provider.")))
        λ p. with_model p model

  unfoldable pub prepare_model_selection :
      c.Manager
      → Option d.Profile
      → Option d.Profile
      → Option c.Storage
      → d.ProfileId
      → Text
      → Option c.Storage × Outcome d (d.Profile × Option d.Profile)
  unfolding select_model
  prepare_model_selection manager active active_saved storage requested model =
      elim (and_then (select_model manager requested model)
        λ _. runtime_with_model active requested model) [
          | failed e ↦ (storage, failed e)
          | done updated ↦
              let (after, outcome) = save_selection active_saved storage model in
              (after, and_then outcome λ saved. done (updated, saved))
        ]

  abbrev pub is_kept : Option d.SecretRef → Bool
  is_kept o = is_some_and o d.is_persistent

  -- Built with the GUI feature: persistent references are allowed.
  unfoldable pub validate_persistence_request :
      Bool → d.Profile → Bool → Bool → Outcome d (Unit {0})
  validate_persistence_request gui profile persistent storage_available =
      if not gui
        && (is_kept (d.secret_ref profile)
            || is_kept (c.secret_custom_headers_ref profile)
            || is_kept (c.proxy_auth_ref profile)
            || is_kept (c.client_certificate_identity_ref profile))
      then failed (
          d.error_new secure_storage_unavailable
            (codes "Secure credential storage is unavailable."))
      else if persistent && not storage_available
      then failed
          (d.error_new persistence (codes "Profile storage is unavailable; use session-only mode."))
      else done tt

  -- The store and the saved profile of the connection after an error, and the error to report.
  unfoldable pub degrade_profile_storage_after_persistence_error :
      d.TranslationError
      → Option c.Storage
      → Option d.Profile
      → (Option c.Storage × Option d.Profile) × Option d.TranslationError
  degrade_profile_storage_after_persistence_error error storage active_saved =
      if not (does (ErrorKind-discrete (d.kind error) persistence))
      then ((storage, active_saved), none)
      else if not (is_some storage)
      then ((none, active_saved), none)
      else ((none, none), some error)

  -- The references of a profile to secrets of the secret store, each once.
  abbrev pub has_ref : List d.SecretRef → d.SecretRef → Bool
  has_ref rs r = any (λ x. does (c.secret_discrete x r)) rs

  abbrev pub push_ref : List d.SecretRef → Option d.SecretRef → List d.SecretRef
  push_ref rs none = rs
  push_ref rs (some r) =
      if d.is_persistent r then (if has_ref rs r then rs else rs ++ r ∷ []) else rs

  unfoldable pub persistent_refs : d.Profile → List d.SecretRef
  persistent_refs p =
      push_ref
        (push_ref (push_ref (push_ref [] (d.secret_ref p)) (c.secret_custom_headers_ref p))
          (c.proxy_auth_ref p))
        (c.client_certificate_identity_ref p)

  abbrev pub no_longer_exists : d.TranslationError
  no_longer_exists =
      d.error_new invalid_configuration (codes "The saved provider profile no longer exists.")

  abbrev pub deletion_outcome : List d.SecretRef → Outcome d Bool → Outcome d (List d.SecretRef)
  deletion_outcome refs (failed e) = failed e
  deletion_outcome refs (done true) = done refs
  deletion_outcome refs (done false) = failed no_longer_exists

  unfoldable pub delete_saved_profile :
      Option c.Storage → d.ProfileId → Option c.Storage × Outcome d (List d.SecretRef)
  delete_saved_profile none profile_id = (
    none,
    failed (
        d.error_new persistence
          (codes "Profile storage is unavailable; no saved profile was removed.")),
  )
  delete_saved_profile (some storage) profile_id = elim (c.provider_profile storage profile_id) [
    | failed e ↦ (some storage, failed e)
    | done none ↦ (some storage, failed no_longer_exists)
    | done (some profile) ↦
        let (after, deleted) = c.delete_provider_profile storage profile_id in
        (some after, deletion_outcome (persistent_refs profile) deleted)
  ]
