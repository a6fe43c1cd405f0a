-- ===== src/Worker/Documents/Refused.antt =====
use linguamesh_linux.Domain.{Domain, invalid_configuration}
use linguamesh_linux.Worker.Documents.Commands.{
  translate_document_job, translate_job, translate_document_job_with_routing,
  translate_job_with_routing, resume_document_job, resume_job, retry_document_job, document_command,
  activate_routed,
}
use linguamesh_linux.Worker.Storage.{Core, failed, done, outcome_cases, Outcome}
use linguamesh_linux.Prelude.{
  Option, some, List, ◌≡◌, none, if_cases, ◌≤◌, length, refl, true, ◌⊎◌, ◌≢◌, false, arith, sym,
  subst, option_cases,
}
use linguamesh_linux.Worker.Host.{Host}
use linguamesh_linux.Prelude.Text.{Text, codes}
use linguamesh_linux.Worker.Documents.{
  DocumentTranslationOptions, DocumentCore, ensure_document_job_capacity, max_active_document_jobs,
  ActiveDocumentTranslation, already_running,
}
use linguamesh_linux.Worker.Documents.Routed.{
  RoutingCore, start_routed_document_job_translation, RoutedDocumentStart,
}
use linguamesh_linux.Worker.Documents.Loop.{
  DocumentLoop, DocumentEvent, tell, reject_action, with_storage, activate_in,
  document_job_action_rejected, storage_unavailable, routing_decision_selected,
}
use linguamesh_linux.Worker.Documents.Start.{start_plain_document_job_translation}

-- src/worker.rs, `run_worker`: the starts of document jobs that are refused.

module _ {d : Domain} {c : Core d} (h : Host d c) (k : DocumentCore d c) (r : RoutingCore d c) where
  -- The store, the running jobs and the world outside are as before.
  abbrev pub Unchanged : DocumentLoop d c h k → DocumentLoop d c h k → Type 0
  Unchanged s v =
      (v.storage ≡ s.storage)
      × (v.active_documents ≡ s.active_documents)
      × (v.world ≡ s.world)
      × (v.cancelled ≡ s.cancelled)

  tell-Unchanged :
      (w : DocumentEvent d c k) (s v : DocumentLoop d c h k)
      → Unchanged s v
      → Unchanged s (tell h k w v)
  tell-Unchanged w s v u = if_cases (Unchanged s) v.is_closed (λ _. u) (λ _. u)

  full_refuses :
      (ts : List (ActiveDocumentTranslation d c h)) (x : Text) (u : Unit {0})
      → (max_active_document_jobs ≤ length ts) ⊎ (already_running x ts ≡ true)
      → ensure_document_job_capacity ts x ≢ done u
  unfolding ensure_document_job_capacity
  full_refuses ts x u full e = ground arith

  refused-Unchanged :
      (x : Text) (s t : DocumentLoop d c h k)
      → (max_active_document_jobs ≤ length s.active_documents)
        ⊎ (already_running x s.active_documents ≡ true)
      → Unchanged s
          (elim (ensure_document_job_capacity s.active_documents x) as (λ _. DocumentLoop d c h k) [
            | failed e ↦ reject_action h k e s
            | done _ ↦ t
          ])
  refused-Unchanged x s t full =
      outcome_cases (Unchanged s) (ensure_document_job_capacity s.active_documents x)
        (λ e _. tell-Unchanged (document_job_action_rejected e) s s (refl, refl, refl, refl))
        (λ u f. absurd (full_refuses s.active_documents x u full f))

  abbrev refusal : d.TranslationError
  refusal =
      d.error_new invalid_configuration
        (codes "Incognito mode cannot persist document job progress.")

  plain_incognito :
      (x : c.Storage) (manager : c.Manager) (p : Option d.Profile) (m : Option Text) (job_id : Text)
      (o : DocumentTranslationOptions d)
      → d.is_incognito_mode o.privacy_mode ≡ true
      → start_plain_document_job_translation h k x manager p m job_id o ≡ (x, failed refusal)
  unfolding start_plain_document_job_translation
  plain_incognito x manager p m job_id o e = rw e refl

  routed_incognito :
      (w : h.World) (x : c.Storage) (job_id : Text) (o : DocumentTranslationOptions d)
      (routing_profile_id : Text)
      → d.is_incognito_mode o.privacy_mode ≡ true
      → start_routed_document_job_translation h k r w x job_id o routing_profile_id false
        ≡ (w, (x, failed refusal))
  unfolding start_routed_document_job_translation
  routed_incognito w x job_id o routing_profile_id e = rw e refl

  -- Where four document jobs are translated, or the job is translated already, the commands that
  -- translate, resume or retry it change nothing in the store, start and cancel nothing, and connect
  -- no provider.
  pub document_command-full :
      (job_id : Text) (o : DocumentTranslationOptions d) (routing_profile_id : Text)
      (s : DocumentLoop d c h k)
      → (max_active_document_jobs ≤ length s.active_documents)
        ⊎ (already_running job_id s.active_documents ≡ true)
      → Unchanged s (document_command h k r (translate_document_job job_id o) s)
        × Unchanged s (
            document_command h k r
              (translate_document_job_with_routing job_id o routing_profile_id)
              s)
        × Unchanged s (document_command h k r (resume_document_job job_id) s)
        × Unchanged s (document_command h k r (retry_document_job job_id) s)
  unfolding translate_job translate_job_with_routing resume_job
  document_command-full job_id o routing_profile_id s full = (
    refused-Unchanged job_id s _ full,
    refused-Unchanged job_id s _ full,
    refused-Unchanged job_id s _ full,
    refused-Unchanged job_id s _ full,
  )

  -- An incognito job is not started: the commands that translate a job in incognito mode change
  -- nothing in the store, start and cancel nothing, and connect no provider.
  pub document_command-incognito :
      (job_id : Text) (o : DocumentTranslationOptions d) (routing_profile_id : Text)
      (s : DocumentLoop d c h k)
      → d.is_incognito_mode o.privacy_mode ≡ true
      → Unchanged s (document_command h k r (translate_document_job job_id o) s)
        × Unchanged s (
            document_command h k r
              (translate_document_job_with_routing job_id o routing_profile_id)
              s)
  unfolding translate_job translate_job_with_routing
  document_command-incognito job_id o routing_profile_id s incognito = (
    outcome_cases (Unchanged s) (ensure_document_job_capacity s.active_documents job_id)
        (λ e _. tell-Unchanged (document_job_action_rejected e) s s (refl, refl, refl, refl))
        (λ _ _. plain_refused s.storage refl),
    outcome_cases (Unchanged s) (ensure_document_job_capacity s.active_documents job_id)
        (λ e _. tell-Unchanged (document_job_action_rejected e) s s (refl, refl, refl, refl))
        (λ _ _.
          option_cases (Unchanged s) s.storage
            (λ _.
              tell-Unchanged (document_job_action_rejected (storage_unavailable h k)) s s
                (refl, refl, refl, refl))
            λ x f. routed_refused x f),
  )
    where
      plain_refused :
          (x : Option c.Storage)
          → s.storage ≡ x
          → (let started =
                with_storage h k
                  (λ y.
                    start_plain_document_job_translation h k y s.manager s.active_profile
                      s.selected_model job_id o)
                  x in
              Unchanged s (activate_in h k started.1 record s { storage = started.0 }))
      plain_refused none f =
          tell-Unchanged (document_job_action_rejected (storage_unavailable h k)) s
            record s { storage = none } (sym f, refl, refl, refl)
      plain_refused (some x) f =
          subst
            (λ (v : c.Storage × Outcome d (ActiveDocumentTranslation d c h)).
              Unchanged s (activate_in h k v.1 record s { storage = some v.0 }))
            (sym (plain_incognito x s.manager s.active_profile s.selected_model job_id o incognito))
            (tell-Unchanged (document_job_action_rejected refusal) s record s { storage = some x }
              (sym f, refl, refl, refl))

      routed_refused :
          (x : c.Storage)
          → s.storage ≡ some x
          → (let started =
                start_routed_document_job_translation h k r s.world x job_id o routing_profile_id
                  false in
              Unchanged s (elim started.1.1 as (λ _. DocumentLoop d c h k) [
                | failed e ↦
                    reject_action h k e record s { world = started.0; storage = some started.1.0 }
                | done start ↦ activate_routed h k r start (
                    tell h k
                      (routing_decision_selected routing_profile_id start.provider_id start.model_id
                        start.eligible_count start.rejected_count 0 start.decision_details)
                      record s { world = started.0; storage = some started.1.0 })
              ]))
      routed_refused x f =
          subst
            (λ (v : h.World × (c.Storage × Outcome d (RoutedDocumentStart d c h))).
              Unchanged s (elim v.1.1 as (λ _. DocumentLoop d c h k) [
                | failed e ↦ reject_action h k e record s { world = v.0; storage = some v.1.0 }
                | done start ↦ activate_routed h k r start (
                    tell h k
                      (routing_decision_selected routing_profile_id start.provider_id start.model_id
                        start.eligible_count start.rejected_count 0 start.decision_details)
                      record s { world = v.0; storage = some v.1.0 })
              ]))
            (sym (routed_incognito s.world x job_id o routing_profile_id incognito))
            (tell-Unchanged (document_job_action_rejected refusal) s record s { storage = some x }
              (sym f, refl, refl, refl))
