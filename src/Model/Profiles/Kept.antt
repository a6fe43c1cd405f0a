-- ===== src/Model/Profiles/Kept.antt =====
-- Which identifiers still find a saved profile after a change of the list.
use linguamesh_linux.Prelude.{none, some, arith, List, ◌≢◌, ◌≡◌, OnSome, remove_at}
use linguamesh_linux.Domain.{Domain}
use linguamesh_linux.Model.Profiles.{
  saved_profile_by_id, ℕ, upsert_saved_profile, profile_position, Option, [], some, set, cleared,
}
use linguamesh_linux.Model.Profiles.Lookup.{Unique, IsSaved, find-set, find-remove_at}
use linguamesh_linux.Model.Profiles.Unique.{find-upsert}

module _ (d : Domain) where
  pub IsSaved-upsert :
      (ps : List d.Profile) (p : d.Profile) (y : d.ProfileId)
      → Unique d ps
      → IsSaved d ps y
      → IsSaved d (upsert_saved_profile d ps p) y
  IsSaved-upsert ps p y u h = ground (arith, find-upsert d ps p y u)

  pub IsSaved-upsert_self :
      (ps : List d.Profile) (p : d.Profile)
      → Unique d ps
      → IsSaved d (upsert_saved_profile d ps p) (d.id p)
  IsSaved-upsert_self ps p u = ground (arith, find-upsert d ps p (d.id p) u)

  pub IsSaved-set :
      (ps : List d.Profile) (p : d.Profile) (i : ℕ) (y : d.ProfileId)
      → profile_position d ps (d.id p) ≡ some i
      → IsSaved d ps y
      → IsSaved d (set ps i p) y
  IsSaved-set ps p i y e h = ground (arith, find-set d ps p i y e)

  pub IsSaved-remove_at :
      (ps : List d.Profile) (x : d.ProfileId) (i : ℕ) (o : Option d.ProfileId)
      → Unique d ps
      → profile_position d ps x ≡ some i
      → OnSome (IsSaved d ps) o
      → OnSome (IsSaved d (remove_at ps i)) (cleared d x o)
  IsSaved-remove_at ps x i none u e h = tt
  IsSaved-remove_at ps x i (some y) u e h = ground (arith, find-remove_at d ps x i y u e)

  pub IsSaved-ne-nil : (ps : List d.Profile) (x : d.ProfileId) → IsSaved d ps x → ps ≢ []
  unfolding saved_profile_by_id
  IsSaved-ne-nil ps x h e = ground arith
