-- ===== src/Worker/Connect/Finish.antt =====
use linguamesh_linux.Domain.{Domain, persistence}
use linguamesh_linux.Prelude.Text.{Text, codes}
use linguamesh_linux.Prelude.{
  Option, ◌⊎◌, Bool, List, inl, filter_some, inr, ◌≡◌, if◌then◌else◌, some, none,
}
use linguamesh_linux.Worker.Storage.{Core, Outcome, failed, map_profile_error, done, and_then}
use linguamesh_linux.Model.Connection.{is_discovered}

-- src/worker.rs, `finish_candidate_connection` and `profile_without_secret`: what is kept of a provider
-- that was connected.

-- The optional texts and the times of a profile, by their accessors.
pub data TextField : Type 0 where
  user_notes organization project region account_identifier custom_headers proxy_url
        trusted_certificates_pem :
      TextField

pub data TimeField : Type 0 where
  request_timeout_secs connection_timeout_secs streaming_idle_timeout_secs : TimeField

-- The references to secrets of a profile.
pub record Refs (d : Domain) : Type 0 where
  pub secret_ref : Option d.SecretRef
  pub secret_custom_headers_ref : Option d.SecretRef
  pub proxy_auth_ref : Option d.SecretRef
  pub client_certificate_identity_ref : Option d.SecretRef

abbrev pub refs : {d : Domain} (c : Core d) → d.Profile → Refs d
refs {d} c p = record {
  secret_ref = d.secret_ref p;
  secret_custom_headers_ref = c.secret_custom_headers_ref p;
  proxy_auth_ref = c.proxy_auth_ref p;
  client_certificate_identity_ref = c.client_certificate_identity_ref p;
}

-- `ProviderProfile::new` and the other builders, which validate (the text of the error, or the
-- profile); a builder changes its field and leaves the references of the others.
pub record Builder (d : Domain) (c : Core d) : Type 1 where
  pub Time : Type 0
  pub text_field : TextField → d.Profile → Option Text
  pub time_field : TimeField → d.Profile → Time
  pub profile_new :
      d.ProfileId → Text → Text → d.Adapter → Text → Option d.SecretRef → Text ⊎ d.Profile
  pub with_text : TextField → Option Text → d.Profile → Text ⊎ d.Profile
  pub with_time : TimeField → Time → d.Profile → Text ⊎ d.Profile
  pub with_secret_custom_headers_ref : Option d.SecretRef → d.Profile → d.Profile
  pub with_proxy_auth_ref : Option d.SecretRef → d.Profile → d.Profile
  pub with_client_certificate_identity_ref : Option d.SecretRef → d.Profile → d.Profile
  pub with_enabled : Bool → d.Profile → d.Profile
  pub profile_new_secret_ref :
      (i : d.ProfileId) (n s : Text) (a : d.Adapter) (e : Text) (r : Option d.SecretRef)
      (p : d.Profile)
      → profile_new i n s a e r ≡ inr p
      → d.secret_ref p ≡ r
  pub refs_with_text :
      (f : TextField) (t : Option Text) (p q : d.Profile)
      → with_text f t p ≡ inr q
      → refs c q ≡ refs c p
  pub refs_with_time :
      (f : TimeField) (t : Time) (p q : d.Profile) → with_time f t p ≡ inr q → refs c q ≡ refs c p
  pub refs_with_selected_model :
      (m : Option Text) (p q : d.Profile) → d.with_selected_model p m ≡ some q → refs c q ≡ refs c p
  pub refs_with_secret_custom_headers_ref :
      (r : Option d.SecretRef) (p : d.Profile)
      → refs c (with_secret_custom_headers_ref r p)
        ≡ record (refs c p) { secret_custom_headers_ref = r }
  pub refs_with_proxy_auth_ref :
      (r : Option d.SecretRef) (p : d.Profile)
      → refs c (with_proxy_auth_ref r p) ≡ record (refs c p) { proxy_auth_ref = r }
  pub refs_with_client_certificate_identity_ref :
      (r : Option d.SecretRef) (p : d.Profile)
      → refs c (with_client_certificate_identity_ref r p)
        ≡ record (refs c p) { client_certificate_identity_ref = r }
  pub refs_with_enabled : (b : Bool) (p : d.Profile) → refs c (with_enabled b p) ≡ refs c p

pub record ConnectedCandidate (d : Domain) : Type 0 where
  pub runtime_profile : d.Profile
  pub saved_profile : Option d.Profile
  pub models : List d.Model
  pub selected_model : Option Text

-- `Result::and_then` and `Result::map`.
abbrev pub then_built : {A B : Type 0} → Text ⊎ A → (A → Text ⊎ B) → Text ⊎ B
then_built (inl e) f = inl e
then_built (inr a) f = f a

module _ {d : Domain} {c : Core d} (b : Builder d c) where
  abbrev pub kept_ref : Option d.SecretRef → Option d.SecretRef
  kept_ref r = filter_some d.is_persistent r

  abbrev pub copy_text : TextField → d.Profile → d.Profile → Text ⊎ d.Profile
  copy_text f p saved = b.with_text f (b.text_field f p) saved

  abbrev pub copy_time : TimeField → d.Profile → d.Profile → Text ⊎ d.Profile
  copy_time f p saved = b.with_time f (b.time_field f p) saved

  -- The fields before the references.
  abbrev pub copied : d.Profile → d.Profile → Text ⊎ d.Profile
  copied p saved = then_built (copy_text user_notes p saved) λ saved.
      then_built (copy_text organization p saved) λ saved.
        then_built (copy_text project p saved) λ saved.
          then_built (copy_text region p saved) λ saved.
            then_built (copy_text account_identifier p saved) λ saved.
              then_built (copy_text custom_headers p saved) λ saved.
                then_built (copy_text proxy_url p saved) λ saved.
                  then_built (copy_time request_timeout_secs p saved) λ saved.
                    then_built (copy_time connection_timeout_secs p saved) λ saved.
                      then_built (copy_time streaming_idle_timeout_secs p saved)
                        λ saved. copy_text trusted_certificates_pem p saved

  abbrev pub with_refs : d.Profile → d.Profile → d.Profile
  with_refs p saved = b.with_enabled (d.enabled p) (
      b.with_client_certificate_identity_ref (kept_ref (c.client_certificate_identity_ref p)) (
        b.with_proxy_auth_ref (kept_ref (c.proxy_auth_ref p))
          (b.with_secret_custom_headers_ref (kept_ref (c.secret_custom_headers_ref p)) saved)))

  abbrev pub model_built : Option Text → d.Profile → Text ⊎ d.Profile
  model_built m p = elim (d.with_selected_model p m) [
    | none ↦ inl (c.profile_error p m)
    | some q ↦ inr q
  ]

  abbrev pub built : d.Profile → Text ⊎ d.Profile
  built p =
      then_built
        (b.profile_new (d.id p) (d.display_name p) (d.preset_id p) (d.adapter_type p)
          (d.base_endpoint p) (kept_ref (d.secret_ref p)))
        λ saved.
          then_built (copied p saved) λ saved. model_built (d.profile_model p) (with_refs p saved)

  -- `map_err(|error| map_profile_error(&error))`.
  abbrev pub mapped : Text ⊎ d.Profile → Outcome d d.Profile
  mapped (inl e) = failed (map_profile_error d c e)
  mapped (inr p) = done p

  unfoldable pub profile_without_secret : d.Profile → Outcome d d.Profile
  profile_without_secret p = mapped (built p)

  -- The selected model of the profile, if it is among the discovered ones.
  abbrev pub confirmed_model : d.Profile → List d.Model → Option Text
  confirmed_model p models = filter_some (λ m. is_discovered d models m) (d.profile_model p)

  -- The store after the call, and the saved profile. The connection may be cancelled at its start
  -- (`cancelled_at_start`) or until the save (`cancelled_later`).
  abbrev pub save_profile :
      d.TranslationError
      → Bool
      → d.Profile
      → Option c.Storage
      → Option c.Storage × Outcome d (Option d.Profile)
  save_profile cancellation cancelled_later p storage = elim (profile_without_secret p) [
    | failed e ↦ (storage, failed e)
    | done saved ↦ if cancelled_later then (storage, failed cancellation) else elim storage [
      | none ↦
          (none, failed (d.error_new persistence (codes "Profile storage became unavailable.")))
      | some s ↦
          let (after, outcome) = c.save_and_activate_provider s saved in
          (some after, and_then outcome λ _. done (some saved))
    ]
  ]

  unfoldable pub finish_candidate_connection :
      d.TranslationError
      → Bool
      → Bool
      → d.Profile
      → List d.Model
      → Bool
      → Option c.Storage
      → Option c.Storage × Outcome d (ConnectedCandidate d)
  unfolding profile_without_secret
  finish_candidate_connection cancellation cancelled_at_start cancelled_later p models persistent
        storage =
      if cancelled_at_start
      then (storage, failed cancellation)
      else (let model = confirmed_model p models in
          elim (mapped (model_built model p)) [
            | failed e ↦ (storage, failed e)
            | done runtime ↦
                let saved =
                  (if persistent
                    then save_profile cancellation cancelled_later runtime storage
                    else (storage, done none)) in
                (
                  saved.0,
                  and_then saved.1 λ q. done record {
                    runtime_profile = runtime;
                    saved_profile = q;
                    models = models;
                    selected_model = model;
                  },
                )
          ])
