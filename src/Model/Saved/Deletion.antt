-- ===== src/Model/Saved/Deletion.antt =====
-- Deleting a saved profile, and connecting with one that is saved.
use linguamesh_linux.Prelude.{
  ◌≡◌, arith, true, if◌then◌else◌, none, Option-cases, inl, inr, is_some, ℕ, ap, remove_at, ◌∙◌,
  sym,
}
use linguamesh_linux.Domain.{Domain}
use linguamesh_linux.Model.State.{AppState}
use linguamesh_linux.Model.Invariant.{SavedOf}
use linguamesh_linux.Model.Saved.{
  begin_profile_deletion, confirm_profile_deletion, profile_deletion_failed, some,
  deletion_confirmed,
}
use linguamesh_linux.Model.Status.{is_ok, ok}
use linguamesh_linux.Model.Profiles.Lookup.{position-find, find-remove_at}
use linguamesh_linux.Model.Profiles.{saved_profile_by_id, same_id, cleared, profile_position}

module _ {d : Domain} (s : AppState d) (x : d.ProfileId) where
  abbrev awaiting : AppState d
  awaiting = record s { pending_profile_deletion = some x; error = none }

  -- What a deletion that is accepted has found, and its state.
  begin_ok :
      is_ok (begin_profile_deletion x s).1 ≡ true
      → (begin_profile_deletion x s ≡ (awaiting, ok tt))
        × (is_some (saved_profile_by_id d s.saved_profiles x) ≡ true)
        × (s.pending_profile_deletion ≡ none)
  unfolding begin_profile_deletion
  begin_ok h = ground arith

  confirm_at :
      (i : ℕ)
      → profile_position d s.saved_profiles x ≡ some i
      → confirm_profile_deletion x awaiting ≡ (deletion_confirmed x i awaiting, ok tt)
  unfolding confirm_profile_deletion
  confirm_at i e = ground arith

  -- In a well-formed state a deletion that was begun is confirmed. Then the saved profiles are those
  -- before without one entry, so that the deleted identifier finds none and every other finds what
  -- it found; the three identifiers in use are kept, but for the deleted one; the error is cleared;
  -- and nothing else of the state has changed, the connection included.
  pub deletion_removes :
      SavedOf s
      → is_ok (begin_profile_deletion x s).1 ≡ true
      → (i : ℕ) × (confirm_profile_deletion x (begin_profile_deletion x s).0 ≡ (
        record s {
          saved_profiles = remove_at s.saved_profiles i;
          selected_saved_profile_id = cleared d x s.selected_saved_profile_id;
          persisted_active_profile_id = cleared d x s.persisted_active_profile_id;
          active_saved_profile_id = cleared d x s.active_saved_profile_id;
          pending_profile_deletion = none;
          error = none;
        },
        ok tt,
      ))
        × ((y : d.ProfileId)
            → saved_profile_by_id d (remove_at s.saved_profiles i) y
              ≡ (if same_id d x y then none else saved_profile_by_id d s.saved_profiles y))
  deletion_removes h e =
      let (begun, saved, _) = begin_ok e in
      elim (Option-cases (profile_position d s.saved_profiles x)) [
        | inl missing ↦ absurd (ground (arith, position-find d s.saved_profiles x))
        | inr (i, at) ↦ (
          i,
          ap (λ r. confirm_profile_deletion x r.0) begun ∙ confirm_at i at,
          λ y. find-remove_at d s.saved_profiles x i y h.unique at,
        )
      ]

  -- A deletion that was begun and then fails changes nothing but the error.
  pub deletion_rollback :
      (e : d.TranslationError)
      → is_ok (begin_profile_deletion x s).1 ≡ true
      → profile_deletion_failed x e (begin_profile_deletion x s).0
        ≡ (record s { error = some e }, ok tt)
  unfolding profile_deletion_failed
  deletion_rollback e b =
      let (begun, _, idle) = begin_ok b in
      ap (λ r. profile_deletion_failed x e r.0) begun
      ∙ failed
      ∙ ap (λ o. (record s { pending_profile_deletion = o; error = some e }, ok tt)) (sym idle)
    where
      failed :
          profile_deletion_failed x e awaiting
          ≡ (record s { pending_profile_deletion = none; error = some e }, ok tt)
      failed = ground arith
