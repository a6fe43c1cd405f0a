-- ===== src/Worker/Relay/Renumbered.antt =====
-- src/worker.rs, `run_worker`, and src/model.rs, `AppState`: the numbers of the events after a
-- candidate of a routing profile has taken over.
use linguamesh_linux.Worker.Relay.Outcomes.{Switched}
use linguamesh_linux.Worker.Relay.Fallback.{finish}
use linguamesh_linux.Worker.Relay.Protocol.{translations}
use linguamesh_linux.Worker.Relay.Accepted.{handle_events}
use linguamesh_linux.Worker.Relay.Switch.{
  handle_running, routing_fallback, profile_fallback, all_attempts, routing_result, handle_event,
  or_unknown, after_attempts,
}
use linguamesh_linux.Domain.{EventBody, Domain}
use linguamesh_linux.Prelude.Text.{Text}
use linguamesh_linux.Prelude.{
  ◌≡◌, none, ℕ, List, refl, false, some, true, if◌then◌else◌, ◌∷◌, [], ◌++◌, ltb, ap, option_cases,
  arith, ◌∙◌, if_cases, ◌&&◌, Option, ◌-◌,
}
use linguamesh_linux.Worker.Storage.{Core}
use linguamesh_linux.Worker.Relay.Attempts.{failure_of, Attempts}
use linguamesh_linux.Worker.Host.{Host, RoutingCandidate}
use linguamesh_linux.Worker.Candidates.{ActiveTranslation, is_retryable_fallback}
use linguamesh_linux.Worker.Relay.{
  WorkerState, pass_on, remap_translation_event, routing_fallback_selected, ActiveCancellation,
}
use linguamesh_linux.Model.Status.{is_terminal, is_ok}
use linguamesh_linux.Model.State.{AppState}
use linguamesh_linux.Model.Translation.{apply_translation_event, is_started}
use linguamesh_linux.Worker.Relay.Passing.{pass_on-Passed, Same-send_option}

-- Nothing takes over on an event that is no failure.
unfailed :
    {d : Domain} {c : Core d} {h : Host d c} (a : ActiveTranslation d c h) (e : d.Event)
    (s : WorkerState d c h)
    → failure_of (d.body e) ≡ none
    → handle_running h a e s ≡ pass_on a e s
unfolding handle_running routing_fallback profile_fallback
unfailed {d} {c} {h} a e s f =
    let unrouted : routing_fallback h a e s ≡ (false, (a, s)) = rw (f, routing_fallback) refl in
    let kept : profile_fallback h a e s ≡ (false, (a, s)) = rw (f, profile_fallback) refl in
    ap
      (λ (x : Switched d c h).
        if x.0
        then record x.1.1 { active = some x.1.0 }
        else finish e (profile_fallback h x.1.0 e x.1.1))
      unrouted
    ∙ ap (finish e) kept

failure_of-text :
    {U F : Type 0} (b : EventBody U F) (t : Text) → b ≡ EventBody.text_delta t → failure_of b ≡ none
failure_of-text b t e = rw e refl

failure_of-started :
    {U F : Type 0} (b : EventBody U F) → b ≡ EventBody.started → failure_of b ≡ none
failure_of-started b e = rw e refl

text-taken :
    {d : Domain} (client : AppState d) (e : d.Event) (t : Text) (l : ℕ)
    → is_terminal client.status ≡ false
    → client.last_sequence ≡ some l
    → d.body e ≡ EventBody.text_delta t
    → is_ok (apply_translation_event e client).1 ≡ ltb l (d.sequence e)
unfolding apply_translation_event
text-taken client e t l open_ last b = ground arith

-- The start of an operation that takes over is not sent.
unsent :
    {d : Domain} {c : Core d} {h : Host d c} (a : ActiveTranslation d c h) (e : d.Event)
    (s : WorkerState d c h)
    → a.suppress_fallback_started ≡ true
    → d.body e ≡ EventBody.started
    → pass_on a e s ≡ record s { active = some (record a { suppress_fallback_started = false }) }
unfolding pass_on
unsent {d} a e s sup b =
    if_cases (λ x. x ≡ record s { active = some (record a { suppress_fallback_started = false }) })
      (a.suppress_fallback_started && is_started (d.body e)) (λ _. refl)
      (λ n. absurd (starts (d.body e) b n))
  where
    starts :
        (x : EventBody d.Usage d.TranslationError)
        → x ≡ EventBody.started
        → a.suppress_fallback_started && is_started x ≡ false
        → ⊥
    starts x f n = ground arith

module _ {d : Domain} {c : Core d} (h : Host d c) where
  -- The translation whose operation has been replaced, with the number `k` of its next event.
  abbrev Replaced : ℕ → List d.Event → WorkerState d c h → Type 0
  Replaced k es s =
      (s.is_closed ≡ false)
      × (translations s.sent ≡ es)
      × ((a : ActiveTranslation d c h) × (s.active ≡ some a)
          × (a.fallback_attempted ≡ true)
          × (a.suppress_fallback_started ≡ true)
          × (a.next_sequence ≡ k))

  -- The branch after the part for a routing profile.
  abbrev pub finish_routing : d.Event → Switched d c h → WorkerState d c h
  finish_routing e x =
      if x.0
      then record x.1.1 { active = some x.1.0 }
      else finish e (profile_fallback h x.1.0 e x.1.1)

  taken_over :
      (a : ActiveTranslation d c h) (e : d.Event) (s : WorkerState d c h) (id : Text)
      (t : Attempts d c h) (found : Option (c.Manager × RoutingCandidate × ActiveTranslation d c h))
      → s.is_closed ≡ false
      → (routing_result h a id e record t { switched = found } s).0 ≡ true
      → Replaced
          (d.sequence e)
          (translations s.sent)
          (finish_routing e (routing_result h a id e record t { switched = found } s))
  taken_over a e s id t none o w = absurd (ground arith)
  taken_over a e s id t (some (manager, x, next)) o w =
      let told =
        routing_fallback_selected id (or_unknown h a.routing_provider_id) x.provider_id
          (t.next_index - 1) in
      let (sent, closed, _) =
        Same-send_option (some told)
          record (after_attempts h t s) {
            routing_manager = some manager;
            active_cancellation = some (ActiveCancellation.translation next.operation);
          }
          refl in
      (closed ∙ o, sent, (_, refl, refl, refl, refl))

  routing_switch :
      (a : ActiveTranslation d c h) (e : d.Event) (s : WorkerState d c h)
      → s.is_closed ≡ false
      → (routing_fallback h a e s).0 ≡ true
      → Replaced (d.sequence e) (translations s.sent) (handle_running h a e s)
  unfolding handle_running routing_fallback
  routing_switch a e s o =
      let P = λ (x : Switched d c h).
        x.0 ≡ true → Replaced (d.sequence e) (translations s.sent) (finish_routing e x) in
      option_cases P (failure_of (d.body e)) (λ _ w. absurd (ground arith))
        λ error _.
          option_cases P a.routing_profile_id (λ _ w. absurd (ground arith))
            λ id _.
              if_cases P (is_retryable_fallback h error)
                (λ _.
                  taken_over a e s id (all_attempts h a error s) (all_attempts h a error s).switched
                    o)
                (λ _ w. absurd (ground arith))

  handle_event-active :
      (a : ActiveTranslation d c h) (e : d.Event) (s : WorkerState d c h)
      → s.active ≡ some a
      → handle_event h e s ≡ handle_running h a e s
  unfolding handle_event
  handle_event-active a e s f =
      ap (λ x. elim x as (λ _. WorkerState d c h) [ none ↦ s | some b ↦ handle_running h b e s ]) f

  -- The start and the first text of the operation that took over.
  first_text :
      (a : ActiveTranslation d c h) (start text : d.Event) (t : Text) (s : WorkerState d c h)
      → s.is_closed ≡ false
      → s.active ≡ some a
      → a.fallback_attempted ≡ true
      → a.suppress_fallback_started ≡ true
      → d.body start ≡ EventBody.started
      → d.body text ≡ EventBody.text_delta t
      → translations (handle_events h (start ∷ text ∷ []) s).sent
        ≡ translations s.sent ++ remap_translation_event h text a.next_sequence ∷ []
  unfolding handle_events
  first_text a start text t s o active own sup b b' =
      let a' : ActiveTranslation d c h = record a { suppress_fallback_started = false } in
      let s' : WorkerState d c h = record s { active = some a' } in
      let started_at : handle_event h start s ≡ s' =
        handle_event-active a start s active
        ∙ unfailed a start s (failure_of-started (d.body start) b)
        ∙ unsent a start s sup b in
      let texted : handle_event h text s' ≡ pass_on a' text s' =
        handle_event-active a' text s' refl
        ∙ unfailed a' text s' (failure_of-text (d.body text) t b') in
      let (_, sent_at, _) = pass_on-Passed a' text s' o refl in
      ap (λ x. translations (handle_event h text x).sent) started_at
      ∙ ap (λ x. translations x.sent) texted
      ∙ sent_at
      ∙ rw own refl

  -- A candidate of the routing profile takes over from an operation that fails with its event number
  -- `k`. Its start is not sent, its first text is sent with the number `k`, and a client that still
  -- waits for more, and whose last event has the number `l`, takes that text exactly if `l` is below
  -- `k`. (`k` is the number that the failing operation gave, not the one under which the worker sent
  -- the last event: where an earlier candidate has taken over, `k` may be below `l`.)
  pub routing_switch-number :
      (a : ActiveTranslation d c h) (e start text : d.Event) (t : Text) (s : WorkerState d c h)
      (client : AppState d) (l : ℕ)
      → s.is_closed ≡ false
      → (routing_fallback h a e s).0 ≡ true
      → d.body start ≡ EventBody.started
      → d.body text ≡ EventBody.text_delta t
      → is_terminal client.status ≡ false
      → client.last_sequence ≡ some l
      → let told = remap_translation_event h text (d.sequence e) in
        (translations (handle_events h (start ∷ text ∷ []) (handle_running h a e s)).sent
          ≡ translations s.sent ++ told ∷ [])
        × (d.sequence told ≡ d.sequence e)
        × (is_ok (apply_translation_event told client).1 ≡ ltb l (d.sequence e))
  unfolding remap_translation_event
  routing_switch-number a e start text t s client l o switched b b' open_ last =
      let (still, sent, (a', active, own, sup, next)) = routing_switch a e s o switched in
      let told = remap_translation_event h text (d.sequence e) in
      let number = h.sequence_event_new (d.sequence e) (d.body text) in
      (
        first_text a' start text t (handle_running h a e s) still active own sup b b'
            ∙ rw (sent, next) refl,
        number,
        text-taken client told t l open_ last (h.body_event_new (d.sequence e) (d.body text) ∙ b')
            ∙ ap (ltb l) number,
      )
