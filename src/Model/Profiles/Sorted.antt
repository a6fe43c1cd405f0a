-- ===== src/Model/Profiles/Sorted.antt =====
-- The saved profiles are sorted by display name and identifier, and hold no session secret.
use linguamesh_linux.Prelude.{
  ◌≡◌, arith, List, true, ◌∷◌, false, All, ℕ, OnSome, Bool-cases, remove_at, inl, suc, some, inr,
  set, [], zero,
}
use linguamesh_linux.Domain.{Domain}
use linguamesh_linux.Model.Profiles.{
  is_le, profile_cmp, insert_sorted, sort_saved_profiles, saved_profile_by_id, profile_position,
}
use linguamesh_linux.Prelude.TextOrder.{text_lt_trans, text_cmp-swap, text_cmp-eq}

module _ (d : Domain) where
  abbrev pub Le : d.Profile → d.Profile → Type 0
  Le p q = is_le (profile_cmp d p q) ≡ true

  abbrev pub Sorted : List d.Profile → Type 0
  Sorted [] = Unit
  Sorted (p ∷ ps) = All (Le p) ps × Sorted ps

  Le-total : (p q : d.Profile) → is_le (profile_cmp d p q) ≡ false → Le q p
  unfolding profile_cmp
  Le-total p q h = ground (
    arith,
    text_cmp-swap (d.display_name p) (d.display_name q),
    text_cmp-swap (d.as_str (d.id p)) (d.as_str (d.id q)),
  )

  Le_trans : (p q r : d.Profile) → Le p q → Le q r → Le p r
  unfolding profile_cmp
  Le_trans p q r h k = ground (
    arith,
    text_lt_trans (d.display_name p) (d.display_name q) (d.display_name r),
    text_lt_trans (d.as_str (d.id p)) (d.as_str (d.id q)) (d.as_str (d.id r)),
    text_cmp-eq (d.display_name p) (d.display_name q),
    text_cmp-eq (d.display_name q) (d.display_name r),
    text_cmp-eq (d.as_str (d.id p)) (d.as_str (d.id q)),
    text_cmp-eq (d.as_str (d.id q)) (d.as_str (d.id r)),
  )

  All-Le : (p q : d.Profile) (ps : List d.Profile) → Le p q → All (Le q) ps → All (Le p) ps
  All-Le p q [] h a = tt
  All-Le p q (r ∷ rs) h a = (Le_trans p q r h a.0, All-Le p q rs h a.1)

  All-insert_sorted :
      (r p : d.Profile) (ps : List d.Profile)
      → Le r p
      → All (Le r) ps
      → All (Le r) (insert_sorted d p ps)
  unfolding insert_sorted
  All-insert_sorted r p [] h a = (h, tt)
  All-insert_sorted r p (q ∷ qs) h a = ground (arith, All-insert_sorted r p qs)

  Sorted-insert_sorted :
      (p : d.Profile) (ps : List d.Profile) → Sorted ps → Sorted (insert_sorted d p ps)
  unfolding insert_sorted
  Sorted-insert_sorted p [] s = (tt, tt)
  Sorted-insert_sorted p (q ∷ qs) s = elim (Bool-cases (is_le (profile_cmp d p q))) [
    | inl le ↦ rw le ((le, All-Le p q qs le s.0), s)
    | inr gt ↦ rw gt (All-insert_sorted q p qs (Le-total p q gt) s.0, Sorted-insert_sorted p qs s.1)
  ]

  -- The sorted list is in the order of the display names, and of the identifiers for equal ones.
  pub Sorted-sort : (ps : List d.Profile) → Sorted (sort_saved_profiles d ps)
  unfolding sort_saved_profiles
  Sorted-sort [] = tt
  Sorted-sort (p ∷ ps) = Sorted-insert_sorted p (sort_saved_profiles d ps) (Sorted-sort ps)

  All-remove_at :
      (r : d.Profile) (ps : List d.Profile) (i : ℕ) → All (Le r) ps → All (Le r) (remove_at ps i)
  All-remove_at r [] i a = tt
  All-remove_at r (q ∷ qs) zero a = a.1
  All-remove_at r (q ∷ qs) (suc i) a = (a.0, All-remove_at r qs i a.1)

  pub Sorted-remove_at : (ps : List d.Profile) (i : ℕ) → Sorted ps → Sorted (remove_at ps i)
  Sorted-remove_at [] i s = tt
  Sorted-remove_at (q ∷ qs) zero s = s.1
  Sorted-remove_at (q ∷ qs) (suc i) s = (All-remove_at q qs i s.0, Sorted-remove_at qs i s.1)

  -- A profile with the name of the profile that it replaces.
  abbrev pub SameName : List d.Profile → d.Profile → Type 0
  SameName ps p =
      OnSome (λ q. d.display_name p ≡ d.display_name q) (saved_profile_by_id d ps (d.id p))

  Le-same_key :
      (r p q : d.Profile)
      → d.display_name p ≡ d.display_name q
      → d.id q ≡ d.id p
      → (profile_cmp d r p ≡ profile_cmp d r q) × (profile_cmp d p r ≡ profile_cmp d q r)
  unfolding profile_cmp
  Le-same_key r p q e e' = (rw (e, e'), rw (e, e'))

  All-set :
      (r : d.Profile) (ps : List d.Profile) (p : d.Profile) (i : ℕ)
      → profile_position d ps (d.id p) ≡ some i
      → SameName ps p
      → All (Le r) ps
      → All (Le r) (set ps i p)
  unfolding saved_profile_by_id
  All-set r [] p i e n a = tt
  All-set r (q ∷ qs) p zero e n a = ground (arith, Le-same_key r p q)
  All-set r (q ∷ qs) p (suc i) e n a = ground (arith, All-set r qs p i, a.0, a.1)

  All-same_key :
      (p q : d.Profile) (qs : List d.Profile)
      → d.display_name p ≡ d.display_name q
      → d.id q ≡ d.id p
      → All (Le q) qs
      → All (Le p) qs
  All-same_key p q [] e e' a = tt
  All-same_key p q (r ∷ rs) e e' a =
      (rw ((Le-same_key r p q e e').1) a.0, All-same_key p q rs e e' a.1)

  -- A health update in place keeps the order, if it does not rename the profile.
  pub Sorted-set :
      (ps : List d.Profile) (p : d.Profile) (i : ℕ)
      → profile_position d ps (d.id p) ≡ some i
      → SameName ps p
      → Sorted ps
      → Sorted (set ps i p)
  unfolding saved_profile_by_id
  Sorted-set [] p i e n s = tt
  Sorted-set (q ∷ qs) p zero e n s = ground (arith, All-same_key p q qs, s.0, s.1)
  Sorted-set (q ∷ qs) p (suc i) e n s =
      ground (arith, Sorted-set qs p i, All-set q qs p i, s.0, s.1)
