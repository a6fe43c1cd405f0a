-- ===== src/Model/Profiles/Secrets.antt =====
-- The changes of the list of saved profiles bring no session secret into it.
use linguamesh_linux.Prelude.{
  ◌≡◌, refl, arith, List, any, ℕ, ◌∙◌, false, ◌∷◌, remove_at, set, suc, Option-cases, ◌++◌, [], inl,
  inr, zero,
}
use linguamesh_linux.Domain.{Domain}
use linguamesh_linux.Model.Profiles.{
  insert_sorted, sort_saved_profiles, replace_or_push, upsert_saved_profile, has_session_secret,
  profile_position,
}

module _ (d : Domain) where
  abbrev pub NoSession : List d.Profile → Type 0
  NoSession ps = any (has_session_secret d) ps ≡ false

  NoSession-insert_sorted :
      (p : d.Profile) (ps : List d.Profile)
      → any (has_session_secret d) (insert_sorted d p ps) ≡ any (has_session_secret d) (p ∷ ps)
  unfolding insert_sorted
  NoSession-insert_sorted p [] = refl
  NoSession-insert_sorted p (q ∷ qs) = ground (arith, NoSession-insert_sorted p qs)

  any-sort :
      (ps : List d.Profile)
      → any (has_session_secret d) (sort_saved_profiles d ps) ≡ any (has_session_secret d) ps
  unfolding sort_saved_profiles
  any-sort [] = refl
  any-sort (p ∷ ps) =
      ground (arith, NoSession-insert_sorted p (sort_saved_profiles d ps), any-sort ps)

  pub NoSession-sort : (ps : List d.Profile) → NoSession ps → NoSession (sort_saved_profiles d ps)
  NoSession-sort ps h = any-sort ps ∙ h

  pub NoSession-set :
      (ps : List d.Profile) (p : d.Profile) (i : ℕ)
      → has_session_secret d p ≡ false
      → NoSession ps
      → NoSession (set ps i p)
  NoSession-set [] p i e h = refl
  NoSession-set (q ∷ qs) p zero e h = ground arith
  NoSession-set (q ∷ qs) p (suc i) e h = ground (arith, NoSession-set qs p i)

  pub NoSession-remove_at :
      (ps : List d.Profile) (i : ℕ) → NoSession ps → NoSession (remove_at ps i)
  NoSession-remove_at [] i h = refl
  NoSession-remove_at (q ∷ qs) zero h = ground arith
  NoSession-remove_at (q ∷ qs) (suc i) h = ground (arith, NoSession-remove_at qs i)

  NoSession-append :
      (ps : List d.Profile) (p : d.Profile)
      → has_session_secret d p ≡ false
      → NoSession ps
      → NoSession (ps ++ p ∷ [])
  NoSession-append [] p e h = ground arith
  NoSession-append (q ∷ qs) p e h = ground (arith, NoSession-append qs p)

  NoSession-replace_or_push :
      (ps : List d.Profile) (p : d.Profile)
      → has_session_secret d p ≡ false
      → NoSession ps
      → NoSession (replace_or_push d ps p)
  unfolding replace_or_push
  NoSession-replace_or_push ps p e h = elim (Option-cases (profile_position d ps (d.id p))) [
    | inl f ↦ rw (f, replace_or_push) (NoSession-append ps p e h)
    | inr (i, f) ↦ rw (f, replace_or_push) (NoSession-set ps p i e h)
  ]

  pub NoSession-upsert :
      (ps : List d.Profile) (p : d.Profile)
      → has_session_secret d p ≡ false
      → NoSession ps
      → NoSession (upsert_saved_profile d ps p)
  unfolding upsert_saved_profile
  NoSession-upsert ps p e h =
      NoSession-sort (replace_or_push d ps p) (NoSession-replace_or_push ps p e h)
