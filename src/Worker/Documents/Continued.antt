-- ===== src/Worker/Documents/Continued.antt =====
use linguamesh_linux.Prelude.{
  refl, Option, some, List, length, ◌≡◌, false, ◌<◌, [], ◌≢◌, none, ◌∷◌, ◌++◌, arith, if◌then◌else◌,
  not, ◌&&◌, ap, ◌∙◌, subst, if_cases, does, sym, Bool,
}
use linguamesh_linux.Worker.Documents.Loop.{
  document_manager, next_options, activate_in, with_manager,
}
use linguamesh_linux.Domain.{Domain}
use linguamesh_linux.Worker.Storage.{Core, done, Outcome, failed}
use linguamesh_linux.Worker.Host.{Host}
use linguamesh_linux.Worker.Documents.{
  activate_document_translation, DocumentCore, ensure_document_job_capacity,
  ActiveDocumentTranslation, DocumentTranslationOptions, max_active_document_jobs, get_document,
}
use linguamesh_linux.Worker.Documents.Segment.{begin_document_segment}
use linguamesh_linux.Prelude.Text.{Text}
use linguamesh_linux.Worker.Documents.Loop.{
  DocumentLoop, segment_completed, next_segment, document_job_updated, is_job_state, with_storage,
  reject_action, segment_stored, send_or_stop, paused_if_asked,
}
use linguamesh_linux.Worker.Documents.Segments.{send_open}

-- src/worker.rs, `run_worker`: a document job goes on with its next segment.

module _ {d : Domain} {c : Core d} {h : Host d c} where
  activates :
      (t : ActiveDocumentTranslation d c h) (ts : List (ActiveDocumentTranslation d c h))
      → length ts < max_active_document_jobs
      → get_document t.job_id ts ≡ none
      → activate_document_translation t ts ≡ done (t ∷ ts)
  unfolding activate_document_translation ensure_document_job_capacity
  activates t ts few new = ground arith

module _ {d : Domain} {c : Core d} (h : Host d c) (k : DocumentCore d c) where
  -- What a segment begins with.
  pub begin_document_segment-fresh :
      (manager : c.Manager) (p : Option d.Profile) (m : Option Text) (x : Text) (job : k.Job)
      (o : DocumentTranslationOptions d) (next : ActiveDocumentTranslation d c h)
      → begin_document_segment h k manager p m x job o ≡ done next
      → (next.job_id ≡ x) × (next.cancel_requested ≡ false) × (next.output ≡ [])
  unfolding begin_document_segment
  begin_document_segment-fresh manager p m x job o next e = ground arith

  -- The next segment of the job, where it begins.
  pub next_segment-activates :
      (t next : ActiveDocumentTranslation d c h) (snapshot : k.Snapshot) (s : DocumentLoop d c h k)
      → begin_document_segment h k
          (document_manager h k t s)
          s.active_profile
          (some t.model_id)
          t.job_id
          (k.job snapshot)
          (next_options h k t)
        ≡ done next
      → length s.active_documents < max_active_document_jobs
      → get_document t.job_id s.active_documents ≡ none
      → next_segment h k t snapshot s ≡ record s {
        active_documents =
            record next { provider_manager = t.provider_manager } ∷ s.active_documents;
      }
  next_segment-activates t next snapshot s began few new =
      let next' : ActiveDocumentTranslation d c h = record next {
        provider_manager = t.provider_manager;
      } in
      let fresh =
        begin_document_segment-fresh (document_manager h k t s) s.active_profile (some t.model_id)
          t.job_id (k.job snapshot) (next_options h k t) next began in
      ap (λ o. activate_in h k (with_manager h k t.provider_manager o) s) began
      ∙ ap
          (λ o. elim o as (λ _. DocumentLoop d c h k) [
            | failed e ↦ reject_action h k e s
            | done active_documents ↦ record s { active_documents = active_documents }
          ])
          (activates next' s.active_documents few
            (subst (λ x. get_document x s.active_documents ≡ none) (sym fresh.0) new))

  -- The end of a completed segment, where the job is not at its end and was not asked to pause.
  pub segment_completed-next :
      (t : ActiveDocumentTranslation d c h) (snapshot : k.Snapshot) (st st' : c.Storage)
      (s : DocumentLoop d c h k)
      → s.storage ≡ some st
      → s.is_closed ≡ false
      → k.update_document_segment st t.job_id t.segment_index t.output ≡ (st', done snapshot)
      → k.state snapshot ≢ k.job_completed
      → t.pause_requested ≡ false
      → t.stop_after_active ≡ false
      → segment_completed h k t s
        ≡ next_segment h k t snapshot
            record s { storage = some st'; sent = s.sent ++ document_job_updated snapshot ∷ [] }
  segment_completed-next t snapshot st st' s has open_ updated more pause stop =
      let s2 : DocumentLoop d c h k = record s { storage = some st' } in
      let s3 : DocumentLoop d c h k = record s2 {
        sent = s.sent ++ document_job_updated snapshot ∷ [];
      } in
      let stored : with_storage h k
            (λ x. k.update_document_segment x t.job_id t.segment_index t.output) s.storage
          ≡ (some st', done snapshot) =
        ap (with_storage h k (λ x. k.update_document_segment x t.job_id t.segment_index t.output))
          has
        ∙ ap (λ (v : c.Storage × Outcome d k.Snapshot). (some v.0, v.1)) updated in
      ap
        (λ (u : Option c.Storage × Outcome d k.Snapshot). elim u.1 as (λ _. DocumentLoop d c h k) [
          | failed e ↦ reject_action h k e record s { storage = u.0 }
          | done v ↦ segment_stored h k t v record s { storage = u.0 }
        ])
        stored
      ∙ ap (segment_told s2) unpaused
      ∙ ap after_told (send_open h k (document_job_updated snapshot) s2 open_)
      ∙ goes_on s3
    where
      -- The end of `segment_stored`, on what the store holds then.
      segment_told : DocumentLoop d c h k → Option c.Storage × k.Snapshot → DocumentLoop d c h k
      segment_told v paused =
          let told =
            send_or_stop h k (document_job_updated paused.1) record v { storage = paused.0 } in
          if v.is_closed
          then told
          else if not (is_job_state h k (k.state paused.1) k.job_completed)
              && not t.stop_after_active
              && not t.pause_requested
          then next_segment h k t paused.1 told
          else told

      unpaused : paused_if_asked h k t snapshot (some st') ≡ (some st', snapshot)
      unpaused =
          if_cases (λ (v : Option c.Storage × k.Snapshot). v ≡ (some st', snapshot))
            (t.pause_requested && not (is_job_state h k (k.state snapshot) k.job_completed))
            (λ f. absurd (ground arith)) (λ _. refl)

      still : is_job_state h k (k.state snapshot) k.job_completed ≡ false
      still = elim (k.state_discrete (k.state snapshot) k.job_completed) as (λ b. does b ≡ false) [
        | yes p ↦ absurd (more p)
        | no _ ↦ refl
      ]

      continues :
          {b : Bool}
          → b ≡ false
          → not b && not t.stop_after_active && not t.pause_requested ≡ false
          → ⊥
      continues e f = ground arith

      after_told : DocumentLoop d c h k → DocumentLoop d c h k
      after_told told =
          if s.is_closed
          then told
          else if not (is_job_state h k (k.state snapshot) k.job_completed)
              && not t.stop_after_active
              && not t.pause_requested
          then next_segment h k t snapshot told
          else told

      goes_on : (v : DocumentLoop d c h k) → after_told v ≡ next_segment h k t snapshot v
      goes_on v =
          let P = λ (u : DocumentLoop d c h k). u ≡ next_segment h k t snapshot v in
          if_cases P s.is_closed (λ f. absurd (cc (open_, f)))
            λ _.
              if_cases P
                (not (is_job_state h k (k.state snapshot) k.job_completed)
                  && not t.stop_after_active
                  && not t.pause_requested)
                (λ _. refl) (λ f. absurd (continues still f))
