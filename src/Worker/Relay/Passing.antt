-- ===== src/Worker/Relay/Passing.antt =====
-- src/worker.rs, `run_worker`: what the last part of the branch `ActiveStep::Event` sends of the
-- translation.
use linguamesh_linux.Prelude.{
  ℕ, Option, none, some, List, [], ◌∷◌, false, true, ◌≡◌, ◌<◌, inl, inr, refl, arith, ◌++◌,
  if_cases, option_cases, ◌∙◌, ap, append-nil, if◌then◌else◌, ◌&&◌, Bool-cases, not,
}
use linguamesh_linux.Domain.{Domain, EventBody}
use linguamesh_linux.Worker.Storage.{Core, Outcome, done, failed, Outcome-cases}
use linguamesh_linux.Worker.Host.{Host}
use linguamesh_linux.Worker.Candidates.{ActiveTranslation}
use linguamesh_linux.Worker.Relay.{
  WorkerState, WorkerEvent, translation, record_history, send_option, counted, recorded,
  record_memory, record_completion, remap_translation_event, numbered, pass_on, u64_max,
  is_terminal_event, passed, recorded_for, send, closed_after, is_completed_event, usage_of,
}
use linguamesh_linux.Model.Translation.{is_started}
use linguamesh_linux.Worker.Relay.Protocol.{translations, translations-append}

abbrev listed : {d : Domain} → Option (WorkerEvent d) → List (WorkerEvent d)
listed none = []
listed (some e) = e ∷ []

counted-silent :
    {d : Domain} (n : Outcome d ℕ) (o : Outcome d (Unit {0})) → translations (counted n o ∷ []) ≡ []
counted-silent (done n) (done u) = refl
counted-silent (failed e) (done u) = refl
counted-silent n (failed e) = refl

recorded-silent : {d : Domain} (o : Outcome d (Unit {0})) → translations (listed (recorded o)) ≡ []
recorded-silent (done u) = refl
recorded-silent (failed e) = refl

module _ {d : Domain} {c : Core d} {h : Host d c} where
  -- The variables that count for the stream are the same.
  abbrev pub Same : WorkerState d c h → WorkerState d c h → Type 0
  Same s t =
      (translations t.sent ≡ translations s.sent)
      × (t.is_closed ≡ s.is_closed)
      × (t.active ≡ s.active)

  pub Same-send_option :
      (o : Option (WorkerEvent d)) (s : WorkerState d c h)
      → translations (listed o) ≡ []
      → Same s (send_option o s)
  Same-send_option none s e = (refl, refl, refl)
  Same-send_option (some w) s e =
      if_cases (Same s) s.is_closed (λ _. (refl, refl, refl))
        (λ _. (
          translations-append s.sent (w ∷ [])
              ∙ ap (λ l. translations s.sent ++ l) e
              ∙ append-nil (translations s.sent),
          refl,
          refl,
        ))

  record_history-silent :
      (a : ActiveTranslation d c h) (u : Option d.Usage) (storage : c.Storage)
      → translations (listed (record_history a u storage).1) ≡ []
  unfolding record_history
  record_history-silent a u storage = elim (Outcome-cases (h.translation_history_enabled storage)) [
    | inl (e, f) ↦ rw (f, record_history) refl
    | inr (false, f) ↦ rw (f, record_history) refl
    | inr (true, f) ↦
        rw (f, record_history)
          (counted-silent {d = d}
            (h.translation_history_count
              (h.record_translation_history_with_usage storage a.request a.output u).0)
            (h.record_translation_history_with_usage storage a.request a.output u).1)
  ]

  record_memory-silent :
      (a : ActiveTranslation d c h) (storage : c.Storage)
      → translations (listed (record_memory a storage).1) ≡ []
  unfolding record_memory
  record_memory-silent a storage = elim (Outcome-cases (h.translation_memory_enabled storage)) [
    | inl (e, f) ↦ rw (f, record_memory) refl
    | inr (false, f) ↦ rw (f, record_memory) refl
    | inr (true, f) ↦ rw (f, record_memory) (recorded-silent _)
  ]

  -- The records of a completed translation send no translation event.
  Same-record_completion :
      (a : ActiveTranslation d c h) (u : Option d.Usage) (s : WorkerState d c h)
      → Same s (record_completion a u s)
  unfolding record_completion
  Same-record_completion a u s =
      option_cases (Same s) s.storage (λ _. (refl, refl, refl))
        λ storage _.
          let history = record_history a u storage in
          let kept = record s { storage = some history.0 } in
          let (sent, closed, active) =
            Same-send_option history.1 kept (record_history-silent a u storage) in
          if_cases (Same s) (send_option history.1 kept).shutting_down (λ _. (sent, closed, active))
            (λ _.
              let memory = record_memory a history.0 in
              let (sent', closed', active') =
                Same-send_option memory.1
                  record (send_option history.1 kept) { storage = some memory.0 }
                  (record_memory-silent a history.0) in
              (sent' ∙ sent, closed' ∙ closed, active' ∙ active))

  pub numbered-body :
      (a : ActiveTranslation d c h) (e : d.Event) → d.body (numbered a e).0 ≡ d.body e
  unfolding remap_translation_event
  numbered-body a e =
      if_cases (λ (r : d.Event × ℕ). d.body r.0 ≡ d.body e) a.fallback_attempted
        (λ _. h.body_event_new a.next_sequence (d.body e)) (λ _. refl)

  -- The number that is passed on is above `l`, where the translation has sent up to `l`, and the
  -- next one is above it.
  pub numbered-grows :
      (a : ActiveTranslation d c h) (e : d.Event) (l n : ℕ)
      → l < a.next_sequence
      → (a.fallback_attempted ≡ false → l ≡ n)
      → n < d.sequence e
      → d.sequence e < u64_max
      → a.next_sequence < u64_max
      → (l < d.sequence (numbered a e).0) × (d.sequence (numbered a e).0 < (numbered a e).1)
  unfolding remap_translation_event
  numbered-grows a e l n lt own after small next = elim (Bool-cases a.fallback_attempted) [
    | inl t ↦
        rw (t) (rw (h.sequence_event_new a.next_sequence (d.body e)) (omega arith, omega arith))
    | inr f ↦ rw (f) (let same = own f in (omega arith, omega arith))
  ]

  -- The event is passed on: what was sent, and whether the translation is over.
  abbrev pub Passed :
      ActiveTranslation d c h → d.Event → WorkerState d c h → WorkerState d c h → Type 0
  Passed a e s t =
      (t.is_closed ≡ false)
      × (translations t.sent ≡ translations s.sent ++ (numbered a e).0 ∷ [])
      × (t.active ≡ (if is_terminal_event (d.body e) then none else some (passed a e)))

  Same-recorded_for :
      (b : ActiveTranslation d c h) (body : EventBody d.Usage d.TranslationError)
      (s : WorkerState d c h)
      → Same s (recorded_for b body s)
  Same-recorded_for b body s =
      if_cases (Same s) (is_completed_event body && not (h.request_is_incognito b.request))
        (λ _. Same-record_completion b (usage_of body) s) (λ _. (refl, refl, refl))

  -- A translation event that is sent while the receiver is there.
  send-translation :
      (e : d.Event) (s : WorkerState d c h)
      → s.is_closed ≡ false
      → ((send (translation e) s).is_closed ≡ false)
        × (translations (send (translation e) s).sent ≡ translations s.sent ++ e ∷ [])
        × ((send (translation e) s).active ≡ s.active)
  send-translation e s o = rw o (refl, translations-append s.sent (translation e ∷ []), refl)

  pub pass_on-Passed :
      (a : ActiveTranslation d c h) (e : d.Event) (s : WorkerState d c h)
      → s.is_closed ≡ false
      → a.suppress_fallback_started && is_started (d.body e) ≡ false
      → Passed a e s (pass_on a e s)
  unfolding pass_on
  pass_on-Passed a e s o n =
      if_cases (Passed a e s) (a.suppress_fallback_started && is_started (d.body e))
        (λ t. absurd (cc (t, n)))
        λ _.
          let kept : WorkerState d c h = record s { active = some (passed a e) } in
          let next = (numbered a e).0 in
          let (sent, closed, active) = Same-recorded_for (passed a e) (d.body next) kept in
          let t = recorded_for (passed a e) (d.body next) kept in
          let (still, told, running) = send-translation next t (closed ∙ o) in
          rw (← numbered-body a e) (
            closed_cases (d.body next) (send (translation next) t) still
              (told ∙ ap (λ l. l ++ next ∷ []) sent) (running ∙ active))
    where
      closed_cases :
          (body : EventBody d.Usage d.TranslationError) (t : WorkerState d c h)
          → t.is_closed ≡ false
          → translations t.sent ≡ translations s.sent ++ (numbered a e).0 ∷ []
          → t.active ≡ some (passed a e)
          → ((closed_after body t).is_closed ≡ false)
            × (translations (closed_after body t).sent
                ≡ translations s.sent ++ (numbered a e).0 ∷ [])
            × ((closed_after body t).active
                ≡ (if is_terminal_event body then none else some (passed a e)))
      closed_cases body t x y z = elim (Bool-cases (is_terminal_event body)) [
        | inl b ↦ rw b (x, y, refl)
        | inr b ↦ rw b (x, y, z)
      ]
