-- ===== src/Model/Invariant.antt =====
-- The well-formedness of `AppState`: what every method keeps, whatever it is called with.
pub mod PendingStep
pub mod DiscoveredStep
pub mod ActiveStep
pub mod SavedCommit
pub mod SavedStep
pub mod Reachable
pub mod Listing
pub mod ListedStep
use linguamesh_linux.Prelude.{
  ◌≡◌, true, false, [], none, some, arith, is_some, map_some, OnSome, Option, List, Bool,
}
use linguamesh_linux.Domain.{Domain}
use linguamesh_linux.Model.Connection.{is_discovered}
use linguamesh_linux.Model.Profiles.Lookup.{Unique, IsSaved}
use linguamesh_linux.Model.State.{
  AppState, initial, profile_storage_available, storage_is_available,
}
use linguamesh_linux.Model.Status.{is_connecting, AppStatus, ProfileStorageStatus}
use linguamesh_linux.Prelude.Text.{Text}

module _ (d : Domain) where
  -- A connection that is being made, and the wish to save it, have a pending profile and, for the
  -- wish, a store.
  pub record Pending (status : AppStatus) (provider : Option d.Profile) (intent : Bool)
      (storage : ProfileStorageStatus) : Type 0 where
    pub connecting_pending : is_connecting status ≡ true → is_some provider ≡ true
    pub intent_pending :
        intent ≡ true → (is_some provider ≡ true) × (storage_is_available storage ≡ true)

  -- Models are chosen among the discovered ones, and none is discovered without a provider.
  pub record Discovered (provider : Option d.Profile) (models : List d.Model)
      (selected chosen : Option Text) : Type 0 where
    pub selected_discovered : OnSome (λ m. is_discovered d models m ≡ true) selected
    pub chosen_discovered : OnSome (λ m. is_discovered d models m ≡ true) chosen
    pub provider_of_models : provider ≡ none → models ≡ []

  -- The identifiers that the state keeps stand for saved profiles, which the store holds.
  pub record Saved (profiles : List d.Profile) (storage : ProfileStorageStatus)
      (deletion selected persisted : Option d.ProfileId) : Type 0 where
    pub unique : Unique d profiles
    pub stored : storage_is_available storage ≡ false → profiles ≡ []
    pub deletion_saved : OnSome (IsSaved d profiles) deletion
    pub selected_saved : OnSome (IsSaved d profiles) selected
    pub persisted_saved : OnSome (IsSaved d profiles) persisted

  -- The saved profile of the connection is the one for the next start, and the active provider's.
  pub record Active (provider : Option d.Profile) (persisted active : Option d.ProfileId)
      : Type 0 where
    pub active_persisted : OnSome (λ x. persisted ≡ some x) active
    pub active_provider_id : OnSome (λ x. map_some d.id provider ≡ some x) active

module _ {d : Domain} (s : AppState d) where
  abbrev pub PendingOf : Type 0
  PendingOf =
      Pending d s.status s.pending_provider s.pending_provider_will_be_saved
        s.profile_storage_status

  abbrev pub DiscoveredOf : Type 0
  DiscoveredOf = Discovered d s.active_provider s.models s.selected_model s.pending_model_selection

  abbrev pub SavedOf : Type 0
  SavedOf =
      Saved d s.saved_profiles s.profile_storage_status s.pending_profile_deletion
        s.selected_saved_profile_id s.persisted_active_profile_id

  abbrev pub ActiveOf : Type 0
  ActiveOf = Active d s.active_provider s.persisted_active_profile_id s.active_saved_profile_id

  pub record Inv : Type 0 where
    pub pending : PendingOf
    pub discovered : DiscoveredOf
    pub saved : SavedOf
    pub active : ActiveOf

pub initial-Inv : (d : Domain) → Inv (initial d)
unfolding initial
initial-Inv d = ground arith
