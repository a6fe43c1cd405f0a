-- ===== src/Model/Connection/Commit.antt =====
-- What a connection result commits, and what a failed connection leaves behind.
use linguamesh_linux.Prelude.{◌≡◌, refl, arith, true, ◌≢◌, if◌then◌else◌}
use linguamesh_linux.Model.Saved.{provider_failed}
use linguamesh_linux.Domain.{Domain}
use linguamesh_linux.Model.State.{AppState}
use linguamesh_linux.Model.Connection.{
  provider_connected_with_saved_profile, begin_provider_connection_with_persistence,
  begin_model_selection, List, provider_connection_failed, model_selection_failed,
  confirm_model_selection, Option, Bool, Text, confirm_model_selection_with_saved_profile,
  confirm_with_profiles, some, none, kept_model, false, ok, is_some, connected,
}
use linguamesh_linux.Model.Status.{is_ok, AppStatus}

module _ {d : Domain} (s : AppState d) where
  -- A connection result that is accepted belongs to the pending profile: it is that profile with
  -- its model, if the model was discovered, and it is saved exactly if that was asked for.
  pub connected_correlated :
      (x : d.Profile) (y : List d.Model) (z : Option d.Profile)
      → is_ok (provider_connected_with_saved_profile x y z s).1 ≡ true
      → (pending : d.Profile) × (s.pending_provider ≡ some pending)
        × (d.with_selected_model pending (kept_model d y pending) ≡ some x)
        × (is_some z ≡ s.pending_provider_will_be_saved)
        × ((provider_connected_with_saved_profile x y z s).0 ≡ connected x y z s)
  unfolding provider_connected_with_saved_profile
  connected_correlated x y z h = found s.pending_provider refl
    where
      found :
          (o : Option d.Profile)
          → s.pending_provider ≡ o
          → (pending : d.Profile) × (s.pending_provider ≡ some pending)
            × (d.with_selected_model pending (kept_model d y pending) ≡ some x)
            × (is_some z ≡ s.pending_provider_will_be_saved)
            × ((provider_connected_with_saved_profile x y z s).0 ≡ connected x y z s)
      found none e = absurd (ground arith)
      found (some p) e = (p, e, ground arith, ground arith, ground arith)

  -- A connection that was begun and then fails with its own profile: no provider is pending and none
  -- will be saved, whatever stood there before it began; the status is ready if a provider is
  -- active and failed if none is, whatever it was; the error is the failure. All else, the active
  -- provider, the models and the saved profiles among it, is as it was before the connection began.
  pub connection_rollback :
      (p : d.Profile) (remember : Bool) (e : d.TranslationError)
      → is_ok (begin_provider_connection_with_persistence p remember s).1 ≡ true
      → provider_connection_failed p e (begin_provider_connection_with_persistence p remember s).0
        ≡ (
          record s {
            pending_provider = none;
            pending_provider_will_be_saved = false;
            status = if is_some s.active_provider then AppStatus.ready else AppStatus.failed;
            error = some e;
          },
          ok tt,
        )
  unfolding begin_provider_connection_with_persistence provider_connection_failed provider_failed
  connection_rollback p remember e h = ground arith

  -- While one connection is being made, the failure of another profile is refused.
  pub stale_failure_refused :
      (p q : d.Profile) (remember : Bool) (e : d.TranslationError)
      → is_ok (begin_provider_connection_with_persistence p remember s).1 ≡ true
      → p ≢ q
      → is_ok
          (provider_connection_failed q e
            (begin_provider_connection_with_persistence p remember s).0).1
        ≡ false
  unfolding begin_provider_connection_with_persistence provider_connection_failed
  stale_failure_refused p q remember e h n = ground arith

  -- A model selection that was begun and then fails keeps the active model and provider.
  pub selection_rollback :
      (m : Text) (e : d.TranslationError)
      → is_ok (begin_model_selection m s).1 ≡ true
      → model_selection_failed m e (begin_model_selection m s).0
        ≡ (record s { pending_model_selection = none; error = some e }, ok tt)
  unfolding begin_model_selection model_selection_failed
  selection_rollback m e h = ground arith

  -- A model selection of a session profile that was begun is confirmed, if the profile takes the
  -- model: the active profile gets it, and no saved profile changes.
  pub session_selection :
      (m : Text) (active updated : d.Profile)
      → is_ok (begin_model_selection m s).1 ≡ true
      → s.active_provider ≡ some active
      → s.active_saved_profile_id ≡ none
      → d.with_selected_model active (some m) ≡ some updated
      → confirm_model_selection m (begin_model_selection m s).0 ≡ (
        record s {
          active_provider = some updated;
          selected_model = some m;
          pending_model_selection = none;
          error = none;
        },
        ok tt,
      )
  unfolding begin_model_selection confirm_model_selection confirm_model_selection_with_saved_profile
      confirm_with_profiles
  session_selection m active updated h a n w = ground arith
