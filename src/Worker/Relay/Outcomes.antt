-- ===== src/Worker/Relay/Outcomes.antt =====
-- src/worker.rs, `run_worker`, the branch `ActiveStep::Event`: the outcomes of the parts that change
-- the provider, where the translation has no routing.
use linguamesh_linux.Prelude.{
  Option, none, some, Bool, not, false, true, ◌≡◌, refl, arith, option_cases, if_cases, ◌||◌,
}
use linguamesh_linux.Domain.{Domain, EventBody}
use linguamesh_linux.Worker.Storage.{Core}
use linguamesh_linux.Worker.Host.{Host}
use linguamesh_linux.Worker.Candidates.{ActiveTranslation, is_retryable_fallback}
use linguamesh_linux.Worker.Relay.{WorkerState, ActiveCancellation, fallback_selected}
use linguamesh_linux.Worker.Relay.Attempts.{failure_of}
use linguamesh_linux.Worker.Relay.Switch.{
  routing_fallback, profile_fallback, switched_to, told_fallback, fallback_translation,
}
use linguamesh_linux.Model.Translation.{is_started}
use linguamesh_linux.Worker.Relay.Passing.{Same, Same-send_option}

pub failure_not_started :
    {U F : Type 0} (b : EventBody U F) (error : F)
    → failure_of b ≡ some error
    → is_started b ≡ false
failure_not_started EventBody.started error e = absurd (ground arith)
failure_not_started (EventBody.text_delta t) error e = refl
failure_not_started (EventBody.completed u) error e = refl
failure_not_started EventBody.cancelled error e = refl
failure_not_started (EventBody.failed f) error e = refl

abbrev pub Switched : (d : Domain) (c : Core d) → Host d c → Type 0
Switched d c h = Bool × (ActiveTranslation d c h × WorkerState d c h)

module _ {d : Domain} {c : Core d} {h : Host d c} where
  pub routing_off :
      (a : ActiveTranslation d c h) (e : d.Event) (s : WorkerState d c h)
      → a.routing_profile_id ≡ none
      → routing_fallback h a e s ≡ (false, (a, s))
  unfolding routing_fallback
  routing_off a e s r =
      let P = λ (x : Switched d c h). x ≡ (false, (a, s)) in
      option_cases P (failure_of (d.body e)) (λ _. refl)
        λ error _. option_cases P a.routing_profile_id (λ _. refl) λ x f. absurd (cc (r, f))

  -- The outcomes of the part for a fallback profile: nothing to do, another operation takes over, or
  -- none can, and the failure is passed on with the numbering of another operation.
  pub profile_fallback_cases {ℓ} :
      (P : Switched d c h → Type ℓ) (a : ActiveTranslation d c h) (e : d.Event)
      (s : WorkerState d c h)
      → P (false, (a, s))
      → ((next : ActiveTranslation d c h) (x : d.ProfileId)
          → is_started (d.body e) ≡ false
          → a.fallback_attempted ≡ false
          → P (
            true,
            (
              switched_to h a next (d.sequence e),
              told_fallback h x record s {
                active_cancellation = some (ActiveCancellation.translation next.operation);
              },
            ),
          ))
      → (is_started (d.body e) ≡ false
          → P (
            false,
            (
              record a { fallback_attempted = true; fallback_profile_id = none },
              record s { fallback_manager = none; fallback_profile = none },
            ),
          ))
      → P (profile_fallback h a e s)
  unfolding profile_fallback
  profile_fallback_cases P a e s same switched given_up =
      option_cases P (failure_of (d.body e)) (λ _. same)
        λ error f.
          option_cases P a.fallback_profile_id (λ _. same)
            λ x _.
              if_cases P (a.fallback_attempted || not (is_retryable_fallback h error)) (λ _. same)
                λ t.
                  option_cases P (fallback_translation h a x s)
                    (λ _. given_up (failure_not_started (d.body e) error f))
                    λ next _.
                      switched next x (failure_not_started (d.body e) error f) (unattempted error t)
    where
      unattempted :
          (error : d.TranslationError)
          → a.fallback_attempted || not (is_retryable_fallback h error) ≡ false
          → a.fallback_attempted ≡ false
      unattempted error t = ground arith

  -- What counts for the stream after the fallback was told.
  pub told-Same :
      (x : d.ProfileId) (o : Option (ActiveCancellation d c h)) (s : WorkerState d c h)
      → Same s (told_fallback h x record s { active_cancellation = o })
  told-Same x o s =
      option_cases (Same s) s.active_profile (λ _. (refl, refl, refl))
        λ p _.
          Same-send_option (some (fallback_selected (d.id p) x))
            record s { active_cancellation = o } refl
