-- ===== src/Model/Profiles/Lookup.antt =====
-- Lookup by identifier in the list of saved profiles, after each way in which the client changes
-- that list.
use linguamesh_linux.Prelude.{
  ℕ, zero, suc, ◌≡◌, refl, true, List, [], ◌∷◌, ◌++◌, none, some, inl, inr, arith, set, remove_at,
  is_some, if◌then◌else◌, Option-cases,
}
use linguamesh_linux.Domain.{Domain}
use linguamesh_linux.Model.Profiles.{
  same_id, saved_profile_by_id, insert_sorted, profile_position, replace_or_push,
}

module _ (d : Domain) where
  -- No identifier stands twice in the list.
  abbrev pub Unique : List d.Profile → Type 0
  Unique [] = Unit
  Unique (p ∷ ps) = (saved_profile_by_id d ps (d.id p) ≡ none) × Unique ps

  abbrev pub IsSaved : List d.Profile → d.ProfileId → Type 0
  IsSaved ps x = is_some (saved_profile_by_id d ps x) ≡ true

  pub find-set :
      (ps : List d.Profile) (p : d.Profile) (i : ℕ) (y : d.ProfileId)
      → profile_position d ps (d.id p) ≡ some i
      → saved_profile_by_id d (set ps i p) y
        ≡ (if same_id d (d.id p) y then some p else saved_profile_by_id d ps y)
  unfolding saved_profile_by_id
  find-set [] p i y e = ground arith
  find-set (q ∷ qs) p zero y e = ground arith
  find-set (q ∷ qs) p (suc i) y e = ground (arith, find-set qs p i y)

  pub find-append :
      (ps : List d.Profile) (p : d.Profile) (y : d.ProfileId)
      → profile_position d ps (d.id p) ≡ none
      → saved_profile_by_id d (ps ++ p ∷ []) y
        ≡ (if same_id d (d.id p) y then some p else saved_profile_by_id d ps y)
  unfolding saved_profile_by_id
  find-append [] p y e = refl
  find-append (q ∷ qs) p y e = ground (arith, find-append qs p y)

  pub find-replace_or_push :
      (ps : List d.Profile) (p : d.Profile) (y : d.ProfileId)
      → saved_profile_by_id d (replace_or_push d ps p) y
        ≡ (if same_id d (d.id p) y then some p else saved_profile_by_id d ps y)
  unfolding replace_or_push
  find-replace_or_push ps p y = elim (Option-cases (profile_position d ps (d.id p))) [
    | inl e ↦ rw (e, replace_or_push) (find-append ps p y e)
    | inr (i, e) ↦ rw (e, replace_or_push) (find-set ps p i y e)
  ]

  -- A lookup does not see where a profile of another identifier was inserted.
  pub find-insert_sorted :
      (ps : List d.Profile) (p : d.Profile) (y : d.ProfileId)
      → saved_profile_by_id d ps (d.id p) ≡ none
      → saved_profile_by_id d (insert_sorted d p ps) y ≡ saved_profile_by_id d (p ∷ ps) y
  unfolding saved_profile_by_id insert_sorted
  find-insert_sorted [] p y e = refl
  find-insert_sorted (q ∷ qs) p y e = ground (arith, find-insert_sorted qs p y)

  pub find-remove_at :
      (ps : List d.Profile) (x : d.ProfileId) (i : ℕ) (y : d.ProfileId)
      → Unique ps
      → profile_position d ps x ≡ some i
      → saved_profile_by_id d (remove_at ps i) y
        ≡ (if same_id d x y then none else saved_profile_by_id d ps y)
  unfolding saved_profile_by_id
  find-remove_at [] x i y u e = ground arith
  find-remove_at (q ∷ qs) x zero y u e = ground arith
  find-remove_at (q ∷ qs) x (suc i) y u e = ground (arith, find-remove_at qs x i y u.1)

  -- A position is found just where a lookup succeeds.
  pub position-find :
      (ps : List d.Profile) (x : d.ProfileId)
      → is_some (profile_position d ps x) ≡ is_some (saved_profile_by_id d ps x)
  unfolding saved_profile_by_id
  position-find [] x = refl
  position-find (q ∷ qs) x = ground (arith, position-find qs x)
