-- ===== src/Worker/Documents/Segments.antt =====
use linguamesh_linux.Domain.{Domain, EventBody}
use linguamesh_linux.Worker.Documents.Jobs.{get-head}
use linguamesh_linux.Worker.Storage.{Core}
use linguamesh_linux.Worker.Host.{Host}
use linguamesh_linux.Worker.Documents.{
  DocumentCore, get_document, ActiveDocumentTranslation, remove_document,
}
use linguamesh_linux.Prelude.Text.{Text}
use linguamesh_linux.Prelude.{
  append_assoc, sym, append-nil, refl, none, ap, List, ℕ, All, ◌≡◌, some, ◌∷◌, false, arith, ◌++◌,
  [], if◌then◌else◌, if_cases, ap, not, ◌==◌, ◌∙◌, subst, sym,
}
use linguamesh_linux.Worker.Documents.Loop.{
  document_event, set_document_cancellations, DocumentLoop, DocumentEvent, document_job_segment,
  send_or_stop, segment_ended, segment_event,
}
use linguamesh_linux.Worker.Relay.{push_text, is_terminal_event, is_completed_event}
use linguamesh_linux.Model.Stream.{texts, text_of}
use linguamesh_linux.Worker.Documents.Jobs.{get_document-key}

-- src/worker.rs, `run_worker`: the course of one segment of a document job.

abbrev pub AllText : (d : Domain) → List d.Event → Type 0
AllText d es = All (λ e. (t : Text) × (d.body e ≡ EventBody.text_delta t)) es

module _ {d : Domain} {c : Core d} (h : Host d c) (k : DocumentCore d c) where
  -- The job runs with the entry `t`, its operation's segment is `i`, and the worker goes on.
  abbrev pub RunsAs : Text → ℕ → ActiveDocumentTranslation d c h → DocumentLoop d c h k → Type 0
  RunsAs x i t s =
      (get_document x s.active_documents ≡ some t)
      × (t.segment_index ≡ i)
      × (s.is_closed ≡ false)
      × (s.shutting_down ≡ false)

  -- The events of one segment, as they come.
  unfoldable pub document_events :
      Text → ℕ → List d.Event → DocumentLoop d c h k → DocumentLoop d c h k
  document_events x i [] s = s
  document_events x i (e ∷ es) s = document_events x i es (document_event h k x i e s)

  -- The state after the event was told.
  abbrev pub told_segment :
      ActiveDocumentTranslation d c h → d.Event → DocumentLoop d c h k → DocumentLoop d c h k
  told_segment t e s = record s {
    active_documents = remove_document t.job_id s.active_documents;
    sent = s.sent ++ document_job_segment t.job_id t.segment_index e ∷ [];
  }

  -- The entry with what the event adds.
  abbrev pub extended_by :
      ActiveDocumentTranslation d c h → d.Event → ActiveDocumentTranslation d c h
  extended_by t e = record t { output = push_text t.output (d.body e) }

  pub send_open :
      (w : DocumentEvent d c k) (s : DocumentLoop d c h k)
      → s.is_closed ≡ false
      → send_or_stop h k w s ≡ record s { sent = s.sent ++ w ∷ [] }
  send_open w s o =
      let P = λ (v : DocumentLoop d c h k). v ≡ record s { sent = s.sent ++ w ∷ [] } in
      if_cases P s.is_closed (λ f. absurd (cc (o, f)))
        λ _. if_cases P s.is_closed (λ f. absurd (cc (o, f))) (λ _. refl)

  -- An event of the segment that runs, where the worker goes on.
  pub document_event-runs :
      (x : Text) (i : ℕ) (t : ActiveDocumentTranslation d c h) (e : d.Event)
      (s : DocumentLoop d c h k)
      → RunsAs x i t s
      → document_event h k x i e s
        ≡ set_document_cancellations h k (
            if is_terminal_event (d.body e)
            then segment_ended h k
                (is_completed_event (d.body e))
                (extended_by t e)
                (told_segment t e s)
            else record (told_segment t e s) {
              active_documents = extended_by t e ∷ remove_document t.job_id s.active_documents;
            })
  unfolding document_event set_document_cancellations
  document_event-runs x i t e s (found, same, open_, on) =
      let after = λ (v : DocumentLoop d c h k).
        if v.shutting_down
        then v
        else if is_terminal_event (d.body e)
        then segment_ended h k (is_completed_event (d.body e)) (extended_by t e) v
        else record v { active_documents = extended_by t e ∷ v.active_documents } in
      let goal =
        (if is_terminal_event (d.body e)
          then segment_ended h k (is_completed_event (d.body e)) (extended_by t e)
              (told_segment t e s)
          else record (told_segment t e s) {
            active_documents = extended_by t e ∷ remove_document t.job_id s.active_documents;
          }) in
      let Q = λ (v : DocumentLoop d c h k). v ≡ set_document_cancellations h k goal in
      ap
        (λ o. elim o as (λ _. DocumentLoop d c h k) [
          | none ↦ s
          | some v ↦
              if not (v.segment_index == i)
              then record s { active_documents = v ∷ remove_document x s.active_documents }
              else set_document_cancellations h k (segment_event h k v e s)
        ])
        found
      ∙ if_cases Q (not (t.segment_index == i)) (λ n. absurd (ground arith))
          λ _. ap (set_document_cancellations h k) (
            ap after (
              send_open (document_job_segment t.job_id t.segment_index e)
                record s { active_documents = remove_document t.job_id s.active_documents } open_)
            ∙ if_cases (λ (v : DocumentLoop d c h k). v ≡ goal) s.shutting_down
                (λ f. absurd (cc (on, f))) (λ _. refl))

  -- A text within the segment: it is added to the output, and the store stays.
  text_event-Runs :
      (x : Text) (i : ℕ) (t : ActiveDocumentTranslation d c h) (e : d.Event) (u : Text)
      (s : DocumentLoop d c h k)
      → RunsAs x i t s
      → d.body e ≡ EventBody.text_delta u
      → RunsAs x i (record t { output = t.output ++ u }) (document_event h k x i e s)
        × ((document_event h k x i e s).storage ≡ s.storage)
  unfolding document_event set_document_cancellations
  text_event-Runs x i t e u s (found, same, open_, on) b =
      let t' : ActiveDocumentTranslation d c h = record t { output = t.output ++ u } in
      let s' : DocumentLoop d c h k = set_document_cancellations h k record (told_segment t e s) {
        active_documents = t' ∷ remove_document t.job_id s.active_documents;
      } in
      let texted : document_event h k x i e s ≡ s' =
        document_event-runs x i t e s (found, same, open_, on) ∙ rw b refl in
      subst (λ (v : DocumentLoop d c h k). RunsAs x i t' v × (v.storage ≡ s.storage)) (sym texted)
        (
          (
            get-head x t' (remove_document t.job_id s.active_documents)
                (get_document-key x s.active_documents t found),
            same,
            open_,
            on,
          ),
          refl,
        )

  pub text_events-Runs :
      (x : Text) (i : ℕ) (t : ActiveDocumentTranslation d c h) (es : List d.Event)
      (s : DocumentLoop d c h k)
      → RunsAs x i t s
      → AllText d es
      → RunsAs x i (record t { output = t.output ++ texts d es }) (document_events x i es s)
        × ((document_events x i es s).storage ≡ s.storage)
  unfolding document_events texts
  text_events-Runs x i t [] s runs all =
      (subst (λ v. RunsAs x i (record t { output = v }) s) (sym (append-nil t.output)) runs, refl)
  text_events-Runs x i t (e ∷ es) s runs ((u, b), all) =
      let (runs', kept) = text_event-Runs x i t e u s runs b in
      let (runs'', kept') =
        text_events-Runs x i (record t { output = t.output ++ u }) es (document_event h k x i e s)
          runs' all in
      let shown : (t.output ++ u) ++ texts d es ≡ t.output ++ (text_of (d.body e) ++ texts d es) =
        append_assoc t.output u (texts d es) ∙ rw b refl in
      (
        subst (λ v. RunsAs x i (record t { output = v }) (document_events x i (e ∷ es) s)) shown
            runs'',
        kept' ∙ kept,
      )
