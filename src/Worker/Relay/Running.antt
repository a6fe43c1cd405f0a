-- ===== src/Worker/Relay/Running.antt =====
-- src/worker.rs, `run_worker`: the events that are passed on continue the stream.
use linguamesh_linux.Prelude.{
  ℕ, none, some, [], ◌∷◌, false, true, ◌≡◌, ◌<◌, inl, inr, refl, arith, ◌++◌, subst, sym, ◌∙◌, ap,
}
use linguamesh_linux.Domain.{Domain, EventBody}
use linguamesh_linux.Model.Stream.{Stream, is_end}
use linguamesh_linux.Worker.Storage.{Core}
use linguamesh_linux.Worker.Host.{Host}
use linguamesh_linux.Worker.Candidates.{ActiveTranslation}
use linguamesh_linux.Worker.Relay.{WorkerState, numbered, pass_on, u64_max, passed}
use linguamesh_linux.Model.Stream.Protocol.{body_cases}
use linguamesh_linux.Worker.Relay.Protocol.{
  Open, translations, Fits, Relayed, raw_after, Relayed-of, raw_after-some, Open-text, Open-first,
  Relayed-over, is_end-terminal, Open-end,
}
use linguamesh_linux.Worker.Relay.Passing.{pass_on-Passed, numbered-grows, numbered-body}

module _ {d : Domain} {c : Core d} {h : Host d c} where
  own_number :
      (a : ActiveTranslation d c h) (e : d.Event)
      → a.fallback_attempted ≡ false
      → d.sequence (numbered a e).0 ≡ d.sequence e
  own_number a e f = rw f refl

  -- An event within the stream of its operation is passed on.
  pub running-Relayed :
      (a : ActiveTranslation d c h) (e : d.Event) (s : WorkerState d c h) (l n : ℕ)
      → s.is_closed ≡ false
      → a.routing_profile_id ≡ none
      → a.suppress_fallback_started ≡ false
      → Open d l (translations s.sent)
      → l < a.next_sequence
      → (a.fallback_attempted ≡ false → l ≡ n)
      → Fits d (some n) e
      → d.sequence e < u64_max
      → a.next_sequence < u64_max
      → Relayed (raw_after (pass_on a e s) e) (pass_on a e s)
  running-Relayed a e s l n o r sup open_ lt own (grows, later) small next =
      let (closed, sent, active) = pass_on-Passed a e s o (rw sup refl) in
      let (above, below) = numbered-grows a e l n lt own grows small next in
      elim (body_cases (d.body e)) [
        | inl b ↦ absurd (cc (b, later))
        | inr (inl (t, b)) ↦
            let going : (pass_on a e s).active ≡ some (passed a e) = active ∙ rw b refl in
            Relayed-of _ (passed a e) (pass_on a e s) going r (
              inr (
                inr (
                  d.sequence e,
                  raw_after-some (pass_on a e s) (passed a e) e going sup,
                  sup,
                  (
                    d.sequence (numbered a e).0,
                    subst (Open d (d.sequence (numbered a e).0)) (sym sent) (
                        Open-text l (translations s.sent) (numbered a e).0 t open_ above
                          (numbered-body a e ∙ b)),
                    below,
                    own_number a e,
                  ),
                )))
        | inr (inr b) ↦
            Relayed-over _ (pass_on a e s) (active ∙ rw (sym (is_end-terminal (d.body e)) ∙ b) refl)
              (subst (Stream d) (sym sent) (
                Open-end l (translations s.sent) (numbered a e).0 open_ above
                  (ap is_end (numbered-body a e) ∙ b)))
      ]

  -- The first event of the translation is passed on.
  pub first-Relayed :
      (a : ActiveTranslation d c h) (e : d.Event) (s : WorkerState d c h)
      → s.is_closed ≡ false
      → a.routing_profile_id ≡ none
      → a.suppress_fallback_started ≡ false
      → a.fallback_attempted ≡ false
      → translations s.sent ≡ []
      → d.body e ≡ EventBody.started
      → d.sequence e < u64_max
      → Relayed (raw_after (pass_on a e s) e) (pass_on a e s)
  first-Relayed a e s o r sup own nothing b small =
      let (closed, sent, active) = pass_on-Passed a e s o (rw sup refl) in
      let going : (pass_on a e s).active ≡ some (passed a e) = active ∙ rw b refl in
      Relayed-of _ (passed a e) (pass_on a e s) going r (
        inr (
          inr (
            d.sequence e,
            raw_after-some (pass_on a e s) (passed a e) e going sup,
            sup,
            (
              d.sequence e,
              subst (Open d (d.sequence e))
                  (sym (
                    sent
                    ∙ ap (λ l. l ++ (numbered a e).0 ∷ []) nothing
                    ∙ ap (λ x. x ∷ []) (itself own)))
                  (Open-first e b),
              next_above own,
              λ f. refl,
            ),
          )))
    where
      itself : a.fallback_attempted ≡ false → (numbered a e).0 ≡ e
      itself f = rw f refl

      next_above : a.fallback_attempted ≡ false → d.sequence e < (numbered a e).1
      next_above f = rw f (omega arith)

  -- The start of the operation that took over is not passed on.
  pub awaited-Relayed :
      (a : ActiveTranslation d c h) (e : d.Event) (s : WorkerState d c h) (l : ℕ)
      → a.routing_profile_id ≡ none
      → a.suppress_fallback_started ≡ true
      → a.fallback_attempted ≡ true
      → Open d l (translations s.sent)
      → l < a.next_sequence
      → d.body e ≡ EventBody.started
      → ((pass_on a e s).is_closed ≡ s.is_closed)
        × Relayed (raw_after (pass_on a e s) e) (pass_on a e s)
  unfolding pass_on
  awaited-Relayed a e s l r sup own open_ lt b =
      rw (sup, b)
        (refl, (r, inr (inr (d.sequence e, refl, refl, (l, open_, lt, λ f. absurd (cc (own, f)))))))
