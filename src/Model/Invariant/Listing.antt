-- ===== src/Model/Invariant/Listing.antt =====
-- The saved profiles as they are shown and stored: sorted, and free of session secrets.
use linguamesh_linux.Prelude.{◌≡◌, List, ◌∷◌, false, []}
use linguamesh_linux.Domain.{Domain}
use linguamesh_linux.Model.State.{AppState}
use linguamesh_linux.Model.Call.{Call, step}
use linguamesh_linux.Model.Profiles.Sorted.{Sorted, SameName}
use linguamesh_linux.Model.Profiles.Secrets.{NoSession}
use linguamesh_linux.Model.Profiles.{has_session_secret}

pub record Listed (d : Domain) (ps : List d.Profile) : Type 0 where
  pub ordered : Sorted d ps
  pub no_session : NoSession d ps

abbrev pub ListedOf : {d : Domain} → AppState d → Type 0
ListedOf {d} s = Listed d s.saved_profiles

-- A health update reports a saved profile under its name, without a session secret; what the
-- method does not check. Every other call is free.
abbrev pub Faithful : {d : Domain} → Call d → AppState d → Type 0
Faithful {d} (Call.update_saved_profile_health p) s =
    SameName d s.saved_profiles p × (has_session_secret d p ≡ false)
Faithful _ s = Unit

abbrev pub FaithfulRun : {d : Domain} → List (Call d) → AppState d → Type 0
FaithfulRun [] s = Unit
FaithfulRun (c ∷ cs) s = Faithful c s × FaithfulRun cs (step c s).0
