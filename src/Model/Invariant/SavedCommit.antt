-- ===== src/Model/Invariant/SavedCommit.antt =====
-- What the commits of the methods do to the saved profiles and the identifiers in use.
use linguamesh_linux.Prelude.{
  arith, List, ℕ, Option, bool_ne, ◌≡◌, ◌||◌, ◌&&◌, is_some_and, set, remove_at, OnSome-mono,
}
use linguamesh_linux.Domain.{Domain}
use linguamesh_linux.Model.Saved.{health_updated, deletion_confirmed, restored}
use linguamesh_linux.Model.Connection.{unfit, model_confirmed, connected}
use linguamesh_linux.Prelude.{none, some, false}
use linguamesh_linux.Prelude.Text.{Text}
use linguamesh_linux.Model.State.{AppState}
use linguamesh_linux.Model.Profiles.{
  profile_position, has_duplicate, is_missing, sort_saved_profiles, missing_or_disabled, cleared,
  upsert_saved_profile,
}
use linguamesh_linux.Model.Invariant.{PendingOf, is_some, SavedOf, [], IsSaved, OnSome}
use linguamesh_linux.Model.Profiles.Kept.{
  IsSaved-set, IsSaved-remove_at, IsSaved-upsert, IsSaved-ne-nil, IsSaved-upsert_self,
}
use linguamesh_linux.Model.Profiles.Unique.{
  Unique-set, Unique-upsert, Unique-has_duplicate, Unique-remove_at,
}

pub restored-Saved :
    {d : Domain} (x : List d.Profile) (y : Option d.ProfileId) (s : AppState d)
    → is_some s.pending_profile_deletion ≡ false
    → has_duplicate d [] (sort_saved_profiles d x) ≡ false
    → is_some_and y (missing_or_disabled d (sort_saved_profiles d x)) ≡ false
    → SavedOf (restored (sort_saved_profiles d x) y s)
restored-Saved {d} x y s e e' e'' = record {
  unique = Unique-has_duplicate d [] (sort_saved_profiles d x) e';
  stored = λ n. cc;
  deletion_saved = ground arith;
  selected_saved = active_saved y e'';
  persisted_saved = active_saved y e'';
}
  where
    active_saved :
        (o : Option d.ProfileId)
        → is_some_and o (missing_or_disabled d (sort_saved_profiles d x)) ≡ false
        → OnSome (IsSaved d (sort_saved_profiles d x)) o
    active_saved none h = tt
    active_saved (some i) h = ground arith

pub health_updated-Saved :
    {d : Domain} (x : d.Profile) (i : ℕ) (s : AppState d)
    → profile_position d s.saved_profiles (d.id x) ≡ some i
    → SavedOf s
    → SavedOf (health_updated x i s)
health_updated-Saved {d} x i s e h = record {
  unique = Unique-set d s.saved_profiles x i e h.unique;
  stored = λ n. ground (arith, h.stored n);
  deletion_saved = OnSome-mono _ _ s.pending_profile_deletion keeps h.deletion_saved;
  selected_saved = OnSome-mono _ _ s.selected_saved_profile_id keeps h.selected_saved;
  persisted_saved = OnSome-mono _ _ s.persisted_active_profile_id keeps h.persisted_saved;
}
  where
    keeps :
        (y : d.ProfileId) → IsSaved d s.saved_profiles y → IsSaved d (set s.saved_profiles i x) y
    keeps y = IsSaved-set d s.saved_profiles x i y e

pub deletion_confirmed-Saved :
    {d : Domain} (x : d.ProfileId) (i : ℕ) (s : AppState d)
    → profile_position d s.saved_profiles x ≡ some i
    → SavedOf s
    → SavedOf (deletion_confirmed x i s)
deletion_confirmed-Saved {d} x i s e h = record {
  unique = Unique-remove_at d s.saved_profiles x i e h.unique;
  stored = λ n. ground (arith, h.stored n);
  deletion_saved = tt;
  selected_saved = clears s.selected_saved_profile_id h.selected_saved;
  persisted_saved = clears s.persisted_active_profile_id h.persisted_saved;
}
  where
    clears :
        (o : Option d.ProfileId)
        → OnSome (IsSaved d s.saved_profiles) o
        → OnSome (IsSaved d (remove_at s.saved_profiles i)) (cleared d x o)
    clears o = IsSaved-remove_at d s.saved_profiles x i o h.unique e

pub connected-Saved :
    {d : Domain} (x : d.Profile) (y : List d.Model) (z : Option d.Profile) (s : AppState d)
    → (bool_ne s.pending_provider_will_be_saved (is_some z) || is_some_and z (unfit d x)) ≡ false
    → PendingOf s
    → SavedOf s
    → SavedOf (connected x y z s)
connected-Saved x y none s e p h = h
connected-Saved {d} x y (some q) s e p h = record {
  unique = Unique-upsert d s.saved_profiles q h.unique;
  stored = λ n. ground (arith, p.intent_pending);
  deletion_saved =
      OnSome-mono _ _ s.pending_profile_deletion
        (λ i. IsSaved-upsert d s.saved_profiles q i h.unique) h.deletion_saved;
  selected_saved = IsSaved-upsert_self d s.saved_profiles q h.unique;
  persisted_saved = IsSaved-upsert_self d s.saved_profiles q h.unique;
}

pub confirmed-Saved :
    {d : Domain} (u : d.Profile) (x : d.ProfileId) (y : Text) (z : Option d.Profile)
    (s : AppState d)
    → (is_some z && is_missing d s.saved_profiles x) ≡ false
    → SavedOf s
    → SavedOf (model_confirmed u y z s)
confirmed-Saved u x y none s e h = h
confirmed-Saved {d} u x y (some q) s e h = record {
  unique = Unique-upsert d s.saved_profiles q h.unique;
  stored = λ n. absurd (IsSaved-ne-nil d s.saved_profiles x (ground arith) (h.stored n));
  deletion_saved = OnSome-mono _ _ s.pending_profile_deletion keeps h.deletion_saved;
  selected_saved = OnSome-mono _ _ s.selected_saved_profile_id keeps h.selected_saved;
  persisted_saved = OnSome-mono _ _ s.persisted_active_profile_id keeps h.persisted_saved;
}
  where
    keeps :
        (i : d.ProfileId)
        → IsSaved d s.saved_profiles i
        → IsSaved d (upsert_saved_profile d s.saved_profiles q) i
    keeps i = IsSaved-upsert d s.saved_profiles q i h.unique
