-- ===== src/Worker/Connect/Kept.antt =====
use linguamesh_linux.Prelude.{
  ◌⊎◌, inl, ◌≡◌, inr, filter_some, arith, refl, Option, ◌∙◌, option_cases, ap, some,
}
use linguamesh_linux.Prelude.Text.{Text}
use linguamesh_linux.Domain.{Domain}
use linguamesh_linux.Worker.Connect.Finish.{
  Refs, Builder, copied, refs, copy_text, user_notes, organization, then_built, TextField,
  TimeField, project, with_refs, profile_without_secret, copy_time, region, model_built,
  account_identifier, custom_headers, proxy_url, request_timeout_secs, connection_timeout_secs,
  streaming_idle_timeout_secs, trusted_certificates_pem, kept_ref, mapped, built,
}
use linguamesh_linux.Worker.Storage.{Core, done, Outcome, failed}

-- src/worker.rs, `profile_without_secret` and `finish_candidate_connection`: what is stored of a
-- connected provider has no secret of the session.

-- The references that are persistent.
abbrev pub persistent_only : {d : Domain} → Refs d → Refs d
persistent_only {d} r = record {
  secret_ref = filter_some d.is_persistent r.secret_ref;
  secret_custom_headers_ref = filter_some d.is_persistent r.secret_custom_headers_ref;
  proxy_auth_ref = filter_some d.is_persistent r.proxy_auth_ref;
  client_certificate_identity_ref = filter_some d.is_persistent r.client_certificate_identity_ref;
}

done_injective :
    {d : Domain} (p q : d.Profile) → ◌≡◌ {A = Outcome d d.Profile} (done p) (done q) → p ≡ q
done_injective {d} p q e = ap or_else e
  where
    or_else : Outcome d d.Profile → d.Profile
    or_else (done v) = v
    or_else (failed _) = p

module _ {d : Domain} {c : Core d} (b : Builder d c) where
  -- A step that leaves the references, and the others.
  then_built-refs :
      (x : Text ⊎ d.Profile) (f : d.Profile → Text ⊎ d.Profile) (s q : d.Profile)
      → ((a : d.Profile) → x ≡ inr a → refs c a ≡ refs c s)
      → ((a : d.Profile) → f a ≡ inr q → refs c q ≡ refs c a)
      → then_built x f ≡ inr q
      → refs c q ≡ refs c s
  then_built-refs (inl e) f s q first others w = absurd (ground arith)
  then_built-refs (inr a) f s q first others w = others a w ∙ first a refl

  copied_text :
      (f : TextField) (p s q : d.Profile) → copy_text b f p s ≡ inr q → refs c q ≡ refs c s
  copied_text f p s q e = b.refs_with_text f (b.text_field f p) s q e

  copied_time :
      (f : TimeField) (p s q : d.Profile) → copy_time b f p s ≡ inr q → refs c q ≡ refs c s
  copied_time f p s q e = b.refs_with_time f (b.time_field f p) s q e

  copied-refs : (p s q : d.Profile) → copied b p s ≡ inr q → refs c q ≡ refs c s
  copied-refs p s q =
      then_built-refs (copy_text b user_notes p s) _ s q (copied_text user_notes p s) λ s1.
        then_built-refs (copy_text b organization p s1) _ s1 q (copied_text organization p s1) λ s2.
          then_built-refs (copy_text b project p s2) _ s2 q (copied_text project p s2) λ s3.
            then_built-refs (copy_text b region p s3) _ s3 q (copied_text region p s3) λ s4.
              then_built-refs (copy_text b account_identifier p s4) _ s4 q
                (copied_text account_identifier p s4)
                λ s5.
                  then_built-refs (copy_text b custom_headers p s5) _ s5 q
                    (copied_text custom_headers p s5)
                    λ s6.
                      then_built-refs (copy_text b proxy_url p s6) _ s6 q
                        (copied_text proxy_url p s6)
                        λ s7.
                          then_built-refs (copy_time b request_timeout_secs p s7) _ s7 q
                            (copied_time request_timeout_secs p s7)
                            λ s8.
                              then_built-refs (copy_time b connection_timeout_secs p s8) _ s8 q
                                (copied_time connection_timeout_secs p s8)
                                λ s9.
                                  then_built-refs (copy_time b streaming_idle_timeout_secs p s9) _
                                    s9 q (copied_time streaming_idle_timeout_secs p s9)
                                    λ s10. copied_text trusted_certificates_pem p s10 q

  pub model_built-refs :
      (m : Option Text) (p q : d.Profile) → model_built b m p ≡ inr q → refs c q ≡ refs c p
  model_built-refs m p q =
      option_cases (λ (v : Text ⊎ d.Profile). v ≡ inr q → refs c q ≡ refs c p)
        (d.with_selected_model p m) (λ _ w. absurd (ground arith))
        λ u f w. b.refs_with_selected_model m p q (f ∙ ap (λ v. some (or_else u v)) w)
    where
      or_else : d.Profile → Text ⊎ d.Profile → d.Profile
      or_else u (inl _) = u
      or_else u (inr v) = v

  with_refs-refs :
      (p s : d.Profile)
      → refs c (with_refs b p s)
        ≡ record (persistent_only (refs c p)) { secret_ref = d.secret_ref s }
  with_refs-refs p s =
      let headers = kept_ref b (c.secret_custom_headers_ref p) in
      let proxy = kept_ref b (c.proxy_auth_ref p) in
      let certificate = kept_ref b (c.client_certificate_identity_ref p) in
      let s1 = b.with_secret_custom_headers_ref headers s in
      let s2 = b.with_proxy_auth_ref proxy s1 in
      b.refs_with_enabled (d.enabled p) (b.with_client_certificate_identity_ref certificate s2)
      ∙ b.refs_with_client_certificate_identity_ref certificate s2
      ∙ ap (λ (r : Refs d). record r { client_certificate_identity_ref = certificate })
          (b.refs_with_proxy_auth_ref proxy s1
            ∙ ap (λ (r : Refs d). record r { proxy_auth_ref = proxy })
                (b.refs_with_secret_custom_headers_ref headers s))

  then_built_parts :
      (x : Text ⊎ d.Profile) (f : d.Profile → Text ⊎ d.Profile) (q : d.Profile)
      → then_built x f ≡ inr q
      → (a : d.Profile) × (x ≡ inr a) × (f a ≡ inr q)
  then_built_parts (inl e) f q w = absurd (ground arith)
  then_built_parts (inr a) f q w = (a, refl, w)

  pub mapped_built : (x : Text ⊎ d.Profile) (q : d.Profile) → mapped b x ≡ done q → x ≡ inr q
  mapped_built (inl e) q w = absurd (ground arith)
  mapped_built (inr a) q w = ap inr (done_injective a q w)

  pub profile_without_secret-refs :
      (p q : d.Profile)
      → profile_without_secret b p ≡ done q
      → refs c q ≡ persistent_only (refs c p)
  unfolding profile_without_secret
  profile_without_secret-refs p q e =
      let (s, new, others) = then_built_parts _ _ q (mapped_built (built b p) q e) in
      let (s', same, last) = then_built_parts (copied b p s) _ q others in
      model_built-refs (d.profile_model p) (with_refs b p s') q last
      ∙ with_refs-refs p s'
      ∙ ap (λ r. record (persistent_only (refs c p)) { secret_ref = r })
          (ap (λ (r : Refs d). r.secret_ref) (copied-refs p s s' same)
            ∙ b.profile_new_secret_ref (d.id p) (d.display_name p) (d.preset_id p)
                (d.adapter_type p) (d.base_endpoint p) (kept_ref b (d.secret_ref p)) s new)
