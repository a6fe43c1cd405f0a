-- ===== src/Worker/Relay/Fallback.antt =====
-- src/worker.rs, `run_worker`: a whole translation without routing, with or without an approved
-- fallback profile, and the client that receives its events.
use linguamesh_linux.Prelude.{
  ℕ, Option, none, some, false, true, ◌≡◌, ◌<◌, inl, inr, refl, arith, if◌then◌else◌, ap, ◌∙◌,
  subst, sym,
}
use linguamesh_linux.Domain.{Domain, EventBody}
use linguamesh_linux.Worker.Storage.{Core}
use linguamesh_linux.Worker.Host.{Host}
use linguamesh_linux.Worker.Candidates.{ActiveTranslation}
use linguamesh_linux.Worker.Relay.{WorkerState, ActiveCancellation, u64_max, pass_on}
use linguamesh_linux.Worker.Relay.Switch.{
  handle_running, profile_fallback, switched_to, told_fallback, handle_event,
}
use linguamesh_linux.Model.Translation.{is_started}
use linguamesh_linux.Worker.Relay.Passing.{pass_on-Passed}
use linguamesh_linux.Worker.Relay.Running.{running-Relayed, first-Relayed, awaited-Relayed}
use linguamesh_linux.Worker.Relay.Protocol.{
  Fits, Relayed, Going, raw_after, translations, Open, Relayed-over, RelayedBy,
}
use linguamesh_linux.Worker.Relay.Outcomes.{
  Switched, routing_off, profile_fallback_cases, told-Same,
}

module _ {d : Domain} {c : Core d} {h : Host d c} where
  -- The translation goes on with an operation that fits where its stream stands.
  abbrev pub ContinuesWith : Option ℕ → d.Event → Option (ActiveTranslation d c h) → Type 0
  ContinuesWith raw e none = Unit
  ContinuesWith raw e (some a) =
      Fits d raw e × (d.sequence e < u64_max) × (a.next_sequence < u64_max)

  abbrev pub Continues : Option ℕ → d.Event → WorkerState d c h → Type 0
  Continues raw e s = ContinuesWith raw e s.active

  -- The whole branch, on the outcome of the part for a fallback profile.
  abbrev pub finish : d.Event → Switched d c h → WorkerState d c h
  finish e r = if r.0 then record r.1.1 { active = some r.1.0 } else pass_on r.1.0 e r.1.1

  abbrev Kept : d.Event → WorkerState d c h → Type 0
  Kept e t = (t.is_closed ≡ false) × Relayed (raw_after t e) t

  unrouted :
      (a : ActiveTranslation d c h) (e : d.Event) (s : WorkerState d c h)
      → a.routing_profile_id ≡ none
      → handle_running h a e s ≡ finish e (profile_fallback h a e s)
  unfolding handle_running
  unrouted a e s r =
      ap
        (λ (x : Switched d c h).
          if x.0
          then record x.1.1 { active = some x.1.0 }
          else finish e (profile_fallback h x.1.0 e x.1.1))
        (routing_off a e s r)

  -- Another operation takes over: its start is awaited, and the failure of the first is not sent.
  switched-Kept :
      (a next : ActiveTranslation d c h) (x : d.ProfileId) (e : d.Event) (s : WorkerState d c h)
      (l : ℕ)
      → s.is_closed ≡ false
      → a.routing_profile_id ≡ none
      → Open d l (translations s.sent)
      → l < d.sequence e
      → Kept e (
          finish e (
            true,
            (
              switched_to h a next (d.sequence e),
              told_fallback h x record s {
                active_cancellation = some (ActiveCancellation.translation next.operation);
              },
            ),
          ))
  switched-Kept a next x e s l o r open_ lt =
      let (sent, closed, _) =
        told-Same x (some (ActiveCancellation.translation next.operation)) s in
      (closed ∙ o, (r, inr (inl (refl, refl, refl, (l, subst (Open d l) (sym sent) open_, lt)))))

  -- The branch, where the translation is in the middle of the stream of its operation.
  running-Kept :
      (a : ActiveTranslation d c h) (e : d.Event) (s : WorkerState d c h) (l n : ℕ)
      → s.is_closed ≡ false
      → a.routing_profile_id ≡ none
      → a.suppress_fallback_started ≡ false
      → Open d l (translations s.sent)
      → l < a.next_sequence
      → (a.fallback_attempted ≡ false → l ≡ n)
      → Fits d (some n) e
      → d.sequence e < u64_max
      → a.next_sequence < u64_max
      → Kept e (finish e (profile_fallback h a e s))
  running-Kept a e s l n o r sup open_ lt own fits small next =
      profile_fallback_cases (λ x. Kept e (finish e x)) a e s
        (goes_on a s o r sup open_ lt own next)
        (λ taking x _ f. switched-Kept a taking x e s l o r open_ (rw (own f) fits.0))
        λ _.
          goes_on record a { fallback_attempted = true; fallback_profile_id = none }
            record s { fallback_manager = none; fallback_profile = none } o r sup open_ lt
            (λ (f : true ≡ false). absurd (ground arith)) next
    where
      goes_on :
          (b : ActiveTranslation d c h) (t : WorkerState d c h)
          → t.is_closed ≡ false
          → b.routing_profile_id ≡ none
          → b.suppress_fallback_started ≡ false
          → Open d l (translations t.sent)
          → l < b.next_sequence
          → (b.fallback_attempted ≡ false → l ≡ n)
          → b.next_sequence < u64_max
          → Kept e (pass_on b e t)
      goes_on b t o r sup open_ lt own next = (
        (pass_on-Passed b e t o (rw sup refl)).0,
        running-Relayed b e t l n o r sup open_ lt own fits small next,
      )

  -- The branch, where the operation has just been started: nothing takes over.
  started-Kept :
      (a : ActiveTranslation d c h) (e : d.Event) (s : WorkerState d c h)
      → d.body e ≡ EventBody.started
      → Kept e (pass_on a e s)
      → Kept e (finish e (profile_fallback h a e s))
  started-Kept a e s b kept =
      profile_fallback_cases (λ x. Kept e (finish e x)) a e s kept
        (λ next x f _. absurd (unstarted f)) (λ f. absurd (unstarted f))
    where
      unstarted : is_started (d.body e) ≡ false → ⊥
      unstarted f = absurd (ground arith)

  handle_running-Kept :
      (raw : Option ℕ) (a : ActiveTranslation d c h) (e : d.Event) (s : WorkerState d c h)
      → s.is_closed ≡ false
      → a.routing_profile_id ≡ none
      → Going raw a (translations s.sent)
      → Fits d raw e
      → d.sequence e < u64_max
      → a.next_sequence < u64_max
      → Kept e (handle_running h a e s)
  handle_running-Kept raw a e s o r g fits small next =
      subst (Kept e) (sym (unrouted a e s r)) (kept raw g fits)
    where
      kept :
          (raw : Option ℕ)
          → Going raw a (translations s.sent)
          → Fits d raw e
          → Kept e (finish e (profile_fallback h a e s))
      kept none (inl (_, own, sup, nothing)) b = started-Kept a e s b (
        (pass_on-Passed a e s o (rw sup refl)).0,
        first-Relayed a e s o r sup own nothing b small,
      )
      kept none (inr (inl (_, own, sup, (l, open_, lt)))) b =
          let (closed, relayed) = awaited-Relayed a e s l r sup own open_ lt b in
          started-Kept a e s b (closed ∙ o, relayed)
      kept none (inr (inr (n, f, _, _))) b = absurd (ground arith)
      kept (some n) (inl (f, _, _, _)) fits = absurd (ground arith)
      kept (some n) (inr (inl (f, _, _, _))) fits = absurd (ground arith)
      kept (some n) (inr (inr (m, f, sup, (l, open_, lt, own)))) fits =
          running-Kept a e s l m o r sup open_ lt own (subst (λ x. Fits d x e) f fits) small next

  pub handle_event-Kept :
      (raw : Option ℕ) (e : d.Event) (s : WorkerState d c h)
      → s.is_closed ≡ false
      → Relayed raw s
      → Continues raw e s
      → Kept e (handle_event h e s)
  unfolding handle_event
  handle_event-Kept raw e s o = handled s.active refl
    where
      handled :
          (x : Option (ActiveTranslation d c h))
          → s.active ≡ x
          → RelayedBy raw (translations s.sent) x
          → ContinuesWith raw e x
          → Kept e
              (elim x as (λ _. WorkerState d c h) [ none ↦ s | some a ↦ handle_running h a e s ])
      handled none f p _ = (o, Relayed-over (raw_after s e) s f p)
      handled (some a) f (r, g) (fits, small, next) =
          handle_running-Kept raw a e s o r g fits small next
