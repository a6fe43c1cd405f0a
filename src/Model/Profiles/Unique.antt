-- ===== src/Model/Profiles/Unique.antt =====
-- No identifier stands twice among the saved profiles: the changes of the list keep it so.
use linguamesh_linux.Prelude.{
  ℕ, zero, suc, ◌≡◌, refl, true, false, List, [], ◌∷◌, ◌++◌, none, some, inl, inr, arith, set,
  remove_at, if◌then◌else◌, ◌∙◌, Option-cases,
}
use linguamesh_linux.Prelude.Text.{Text}
use linguamesh_linux.Domain.{Domain}
use linguamesh_linux.Model.Profiles.{
  same_id, saved_profile_by_id, insert_sorted, sort_saved_profiles, profile_position,
  replace_or_push, upsert_saved_profile, has_duplicate, contains,
}
use linguamesh_linux.Model.Profiles.Lookup.{
  Unique, find-set, find-append, find-replace_or_push, find-insert_sorted, find-remove_at,
}

module _ (d : Domain) where
  pub Unique-set :
      (ps : List d.Profile) (p : d.Profile) (i : ℕ)
      → profile_position d ps (d.id p) ≡ some i
      → Unique d ps
      → Unique d (set ps i p)
  Unique-set [] p i e u = tt
  Unique-set (q ∷ qs) p zero e u = ground (arith, u.0)
  Unique-set (q ∷ qs) p (suc i) e u =
      ground (arith, Unique-set qs p i, find-set d qs p i (d.id q), u.0, u.1)

  pub Unique-append :
      (ps : List d.Profile) (p : d.Profile)
      → profile_position d ps (d.id p) ≡ none
      → Unique d ps
      → Unique d (ps ++ p ∷ [])
  unfolding saved_profile_by_id
  Unique-append [] p e u = (refl, tt)
  Unique-append (q ∷ qs) p e u =
      ground (arith, Unique-append qs p, find-append d qs p (d.id q), u.0, u.1)

  pub Unique-replace_or_push :
      (ps : List d.Profile) (p : d.Profile) → Unique d ps → Unique d (replace_or_push d ps p)
  unfolding replace_or_push
  Unique-replace_or_push ps p u = elim (Option-cases (profile_position d ps (d.id p))) [
    | inl e ↦ rw (e, replace_or_push) (Unique-append ps p e u)
    | inr (i, e) ↦ rw (e, replace_or_push) (Unique-set ps p i e u)
  ]

  pub Unique-insert_sorted :
      (ps : List d.Profile) (p : d.Profile)
      → saved_profile_by_id d ps (d.id p) ≡ none
      → Unique d ps
      → Unique d (insert_sorted d p ps)
  unfolding insert_sorted saved_profile_by_id
  Unique-insert_sorted [] p e u = (refl, tt)
  Unique-insert_sorted (q ∷ qs) p e u =
      ground (arith, Unique-insert_sorted qs p, find-insert_sorted d qs p (d.id q), u.0, u.1)

  -- Sorting changes no lookup, and keeps the identifiers distinct.
  pub sort_lookup :
      (ps : List d.Profile)
      → Unique d ps
      → Unique d (sort_saved_profiles d ps)
        × ((y : d.ProfileId)
            → saved_profile_by_id d (sort_saved_profiles d ps) y ≡ saved_profile_by_id d ps y)
  unfolding sort_saved_profiles saved_profile_by_id
  sort_lookup [] u = (tt, λ y. refl)
  sort_lookup (p ∷ ps) u =
      let (unique, same) = sort_lookup ps u.1 in
      let fresh = same (d.id p) ∙ u.0 in
      (
        Unique-insert_sorted (sort_saved_profiles d ps) p fresh unique,
        λ y. ground (arith, find-insert_sorted d (sort_saved_profiles d ps) p y fresh, same y),
      )

  pub Unique-upsert :
      (ps : List d.Profile) (p : d.Profile) → Unique d ps → Unique d (upsert_saved_profile d ps p)
  unfolding upsert_saved_profile
  Unique-upsert ps p u = (sort_lookup (replace_or_push d ps p) (Unique-replace_or_push ps p u)).0

  -- In a list without repeated identifiers, after an upsert the identifier of the profile finds the
  -- profile, and any other one what it found before.
  pub find-upsert :
      (ps : List d.Profile) (p : d.Profile) (y : d.ProfileId)
      → Unique d ps
      → saved_profile_by_id d (upsert_saved_profile d ps p) y
        ≡ (if same_id d (d.id p) y then some p else saved_profile_by_id d ps y)
  unfolding upsert_saved_profile
  find-upsert ps p y u =
      (sort_lookup (replace_or_push d ps p) (Unique-replace_or_push ps p u)).1 y
      ∙ find-replace_or_push d ps p y

  pub Unique-remove_at :
      (ps : List d.Profile) (x : d.ProfileId) (i : ℕ)
      → profile_position d ps x ≡ some i
      → Unique d ps
      → Unique d (remove_at ps i)
  Unique-remove_at [] x i e u = tt
  Unique-remove_at (q ∷ qs) x zero e u = u.1
  Unique-remove_at (q ∷ qs) x (suc i) e u =
      ground (arith, Unique-remove_at qs x i, find-remove_at d qs x i (d.id q) u.1, u.0, u.1)

  -- What the set of identifiers has seen stands nowhere in a list that passes the check.
  seen-find :
      (seen : List Text) (ps : List d.Profile) (x : d.ProfileId)
      → has_duplicate d seen ps ≡ false
      → contains seen (d.as_str x) ≡ true
      → saved_profile_by_id d ps x ≡ none
  unfolding has_duplicate saved_profile_by_id
  seen-find seen [] x h c = refl
  seen-find seen (p ∷ ps) x h c = ground (arith, seen-find (d.as_str (d.id p) ∷ seen) ps x)

  -- A list that passes the check of `restore_saved_profiles` repeats no identifier, whatever the check
  -- had seen before.
  pub Unique-has_duplicate :
      (seen : List Text) (ps : List d.Profile) → has_duplicate d seen ps ≡ false → Unique d ps
  unfolding has_duplicate
  Unique-has_duplicate seen [] h = tt
  Unique-has_duplicate seen (p ∷ ps) h = ground (
    arith,
    seen-find (d.as_str (d.id p) ∷ seen) ps (d.id p),
    Unique-has_duplicate (d.as_str (d.id p) ∷ seen) ps,
  )
