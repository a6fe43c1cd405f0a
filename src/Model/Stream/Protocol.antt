-- ===== src/Model/Stream/Protocol.antt =====
-- The client takes exactly the streams of the protocol, and shows their text.
use linguamesh_linux.Prelude.{
  ◌≡◌, arith, ℕ, none, false, true, some, ◌<◌, ◌++◌, sym, append-nil, ◌⊎◌, ◌↔◌, refl, inl, ◌∙◌,
  append_assoc, inr, ap,
}
use linguamesh_linux.Domain.{Domain, EventBody}
use linguamesh_linux.Model.State.{AppState}
use linguamesh_linux.Model.Translation.{apply_translation_event, is_started}
use linguamesh_linux.Model.Status.{is_busy, is_terminal, is_ok, ok}
use linguamesh_linux.Prelude.Text.{Text}
use linguamesh_linux.Model.Stream.{is_end, accepts, List, receive, [], texts, Rest, ◌∷◌, Stream}

module _ {d : Domain} (s : AppState d) (e : d.Event) where
  -- One event within a stream: it is taken if its number grows and it is no start.
  take_text :
      (n : ℕ) (t : Text)
      → is_terminal s.status ≡ false
      → s.last_sequence ≡ some n
      → n < d.sequence e
      → d.body e ≡ EventBody.text_delta t
      → apply_translation_event e s ≡ (
        record s {
          last_sequence = some (d.sequence e);
          output = s.output ++ t;
          partial_output = true;
        },
        ok tt,
      )
  unfolding apply_translation_event
  take_text n t h l lt b = ground arith

  take_end :
      (n : ℕ)
      → is_terminal s.status ≡ false
      → s.last_sequence ≡ some n
      → n < d.sequence e
      → is_end (d.body e) ≡ true
      → (is_ok (apply_translation_event e s).1 ≡ true)
        × (is_terminal (apply_translation_event e s).0.status ≡ true)
        × ((apply_translation_event e s).0.output ≡ s.output)
  unfolding apply_translation_event
  take_end n h l lt b = ground arith

  take_start :
      is_busy s.status ≡ true
      → s.last_sequence ≡ none
      → d.body e ≡ EventBody.started
      → apply_translation_event e s ≡ (record s { last_sequence = some (d.sequence e) }, ok tt)
  unfolding apply_translation_event
  take_start h l b = ground arith

  refuse_terminal : is_terminal s.status ≡ true → is_ok (apply_translation_event e s).1 ≡ false
  unfolding apply_translation_event
  refuse_terminal h = ground arith

  first_is_start :
      s.last_sequence ≡ none
      → is_ok (apply_translation_event e s).1 ≡ true
      → d.body e ≡ EventBody.started
  unfolding apply_translation_event
  first_is_start l h = ground arith

  -- What a taken event within a stream is.
  later_grows :
      (n : ℕ)
      → s.last_sequence ≡ some n
      → is_ok (apply_translation_event e s).1 ≡ true
      → (n < d.sequence e) × (is_terminal s.status ≡ false) × (is_started (d.body e) ≡ false)
  unfolding apply_translation_event
  later_grows n l h = ground arith

-- A closed stream takes nothing more.
closed_takes_nothing :
    {d : Domain} (s : AppState d) (es : List d.Event)
    → is_terminal s.status ≡ true
    → accepts es s ≡ true
    → es ≡ []
unfolding accepts
closed_takes_nothing s [] h a = refl
closed_takes_nothing s (e ∷ es) h a = ground (arith, refuse_terminal s e h)

Rest-accepts :
    {d : Domain} {n : ℕ} {es : List d.Event} (s : AppState d)
    → Rest d n es
    → is_terminal s.status ≡ false
    → s.last_sequence ≡ some n
    → (accepts es s ≡ true) × ((receive es s).output ≡ s.output ++ texts d es)
unfolding accepts receive texts
Rest-accepts s Rest.nothing h l = (refl, sym (append-nil s.output))
Rest-accepts {d} {n} s (Rest.text {e = e} {es = es} t lt b rest) h l =
    let taken = take_text s e n t h l lt b in
    let s' : AppState d = record s {
      last_sequence = some (d.sequence e);
      output = s.output ++ t;
      partial_output = true;
    } in
    let (more, shown) = Rest-accepts s' rest h refl in
    (
      rw taken more,
      ap (λ r. (receive es r.0).output) taken
          ∙ shown
          ∙ (rw b (append_assoc s.output t (texts d es))),
    )
Rest-accepts {d} {n} s (Rest.end {e = e} {es = es} lt b empty) h l =
    rw empty (ground (arith, take_end s e n h l lt b, append-nil s.output))

pub body_cases :
    {U F : Type 0} (b : EventBody U F)
    → (is_started b ≡ true) ⊎ ((t : Text) × (b ≡ EventBody.text_delta t)) ⊎ (is_end b ≡ true)
body_cases EventBody.started = inl refl
body_cases (EventBody.text_delta t) = inr (inl (t, refl))
body_cases (EventBody.completed _) = inr (inr refl)
body_cases EventBody.cancelled = inr (inr refl)
body_cases (EventBody.failed _) = inr (inr refl)

-- `accepts` on a first event and the others.
accepts_parts :
    {d : Domain} (e : d.Event) (es : List d.Event) (s : AppState d)
    → accepts (e ∷ es) s ≡ true
    → (is_ok (apply_translation_event e s).1 ≡ true)
      × (accepts es (apply_translation_event e s).0 ≡ true)
unfolding accepts
accepts_parts e es s a = ground arith

accepts-Rest :
    {d : Domain} (n : ℕ) (es : List d.Event) (s : AppState d)
    → s.last_sequence ≡ some n
    → accepts es s ≡ true
    → Rest d n es
unfolding accepts
accepts-Rest n [] s l a = Rest.nothing
accepts-Rest {d} n (e ∷ es) s l a =
    let (taken, more) = accepts_parts e es s a in
    let (grows, open_, no_start) = later_grows s e n l taken in
    elim (body_cases (d.body e)) [
      | inl b ↦ absurd (ground arith)
      | inr (inl (t, b)) ↦ Rest.text t grows b (
          accepts-Rest (d.sequence e) es (apply_translation_event e s).0
            (rw (take_text s e n t open_ l grows b)) more)
      | inr (inr b) ↦ Rest.end grows b (
          closed_takes_nothing (apply_translation_event e s).0 es (take_end s e n open_ l grows b).1
            more)
    ]

-- A client that waits for a stream takes a list of events, every one, exactly if it is a stream of
-- the protocol or the part of one that has arrived; and then it shows the text of its text events,
-- in order, behind what it showed before.
pub accepts_iff_Stream :
    {d : Domain} (s : AppState d) (es : List d.Event)
    → is_busy s.status ≡ true
    → s.last_sequence ≡ none
    → ((accepts es s ≡ true) ↔ Stream d es)
      × (Stream d es → (receive es s).output ≡ s.output ++ texts d es)
unfolding accepts receive texts
accepts_iff_Stream {d} s es h l = ((sound es, λ p. (complete p).0), λ p. (complete p).1)
  where
    taken :
        (e : d.Event)
        → d.body e ≡ EventBody.started
        → apply_translation_event e s ≡ (record s { last_sequence = some (d.sequence e) }, ok tt)
    taken e b = take_start s e h l b

    sound : (es : List d.Event) → accepts es s ≡ true → Stream d es
    sound [] a = Stream.nothing
    sound (e ∷ es) a =
        let (first, more) = accepts_parts e es s a in
        let b = first_is_start s e l first in
        Stream.start b
          (accepts-Rest (d.sequence e) es (apply_translation_event e s).0 (rw (taken e b)) more)

    complete :
        {es : List d.Event}
        → Stream d es
        → (accepts es s ≡ true) × ((receive es s).output ≡ s.output ++ texts d es)
    complete Stream.nothing = (refl, sym (append-nil s.output))
    complete (Stream.start {e = e} {es = es} b rest) =
        let s' : AppState d = record s { last_sequence = some (d.sequence e) } in
        let (more, shown) = Rest-accepts s' rest (ground arith) refl in
        (rw (taken e b) more, ap (λ r. (receive es r.0).output) (taken e b) ∙ shown ∙ rw b)
