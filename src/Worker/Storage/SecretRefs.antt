-- ===== src/Worker/Storage/SecretRefs.antt =====
-- src/worker.rs, `delete_saved_profile`: the references that the caller has to remove from the secret
-- store.
use linguamesh_linux.Prelude.{
  ℕ, List, Option, none, some, Bool, ◌∷◌, is_some_and, ◌++◌, ◌≡◌, if◌then◌else◌, does, ltb, [],
  ◌&&◌, suc, arith, false, true, ◌+◌, ◌||◌, refl, inl, inr, ap, ◌∙◌,
}
use linguamesh_linux.Domain.{Domain}
use linguamesh_linux.Worker.Storage.{
  done, Core, has_ref, persistent_refs, delete_saved_profile, push_ref, Outcome-cases,
}

module _ (d : Domain) (c : Core d) where
  -- How often a reference stands in a list, and whether an option holds it.
  abbrev pub count : d.SecretRef → List d.SecretRef → ℕ
  count r [] = 0
  count r (x ∷ xs) = if does (c.secret_discrete x r) then suc (count r xs) else count r xs

  abbrev pub holds : d.SecretRef → Option d.SecretRef → Bool
  holds r o = is_some_and o (λ x. does (c.secret_discrete x r))

  has_ref-count : (rs : List d.SecretRef) (r : d.SecretRef) → has_ref d c rs r ≡ ltb 0 (count r rs)
  has_ref-count [] r = refl
  has_ref-count (x ∷ xs) r = ground (arith, has_ref-count xs r)

  count-snoc :
      (rs : List d.SecretRef) (r x : d.SecretRef)
      → count r (rs ++ x ∷ []) ≡ count r rs + (if does (c.secret_discrete x r) then 1 else 0)
  count-snoc [] r x = ground arith
  count-snoc (y ∷ ys) r x = ground (arith, count-snoc ys r x)

  count-push_ref :
      (rs : List d.SecretRef) (o : Option d.SecretRef) (r : d.SecretRef) (before : Bool)
      → count r rs ≡ (if d.is_persistent r && before then 1 else 0)
      → count r (push_ref d c rs o) ≡ (if d.is_persistent r && (before || holds r o) then 1 else 0)
  count-push_ref rs none r before e = ground arith
  count-push_ref rs (some x) r before e = ground (arith, has_ref-count rs x, count-snoc rs r x)

  -- The references of a profile that are kept: each persistent one just once, and no other.
  abbrev pub kept_count : d.Profile → d.SecretRef → ℕ
  kept_count p r =
      if d.is_persistent r
        && (((holds r (d.secret_ref p) || holds r (c.secret_custom_headers_ref p))
              || holds r (c.proxy_auth_ref p))
            || holds r (c.client_certificate_identity_ref p))
      then 1
      else 0

  count-persistent_refs :
      (p : d.Profile) (r : d.SecretRef) → count r (persistent_refs d c p) ≡ kept_count p r
  unfolding persistent_refs
  count-persistent_refs p r = count-push_ref _ (c.client_certificate_identity_ref p) r _ (
      count-push_ref _ (c.proxy_auth_ref p) r _ (
        count-push_ref _ (c.secret_custom_headers_ref p) r _
          (count-push_ref [] (d.secret_ref p) r false (ground arith))))

  -- Where the deletion succeeds, the store held the profile and has removed it, and the references
  -- that are returned are the persistent ones among the profile's four, each just once.
  pub delete_saved_profile-done :
      (storage : Option c.Storage) (profile_id : d.ProfileId) (refs : List d.SecretRef)
      → (delete_saved_profile d c storage profile_id).1 ≡ done refs
      → (s : c.Storage) × (p : d.Profile) × (storage ≡ some s)
        × (c.provider_profile s profile_id ≡ done (some p))
        × ((c.delete_provider_profile s profile_id).1 ≡ done true)
        × ((delete_saved_profile d c storage profile_id).0
            ≡ some (c.delete_provider_profile s profile_id).0)
        × ((r : d.SecretRef) → count r refs ≡ kept_count p r)
  unfolding delete_saved_profile
  delete_saved_profile-done none profile_id refs e = ground arith
  delete_saved_profile-done (some s) profile_id refs e =
      elim (Outcome-cases (c.provider_profile s profile_id)) [
        | inl (error, f) ↦ ground arith
        | inr (none, f) ↦ ground arith
        | inr (some p, f) ↦ elim (Outcome-cases (c.delete_provider_profile s profile_id).1) [
          | inl (error, g) ↦ ground arith
          | inr (false, g) ↦ ground arith
          | inr (true, g) ↦ (
            s,
            p,
            refl,
            f,
            g,
            rw (f, delete_saved_profile) refl,
            λ r. ap (count r) (ground arith) ∙ (count-persistent_refs p r),
          )
        ]
      ]
