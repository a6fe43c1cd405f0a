-- ===== src/Worker/Relay/Protocol.antt =====
-- src/worker.rs, `run_worker`: when the events that the worker has sent of a translation are a stream
-- of the protocol so far.
use linguamesh_linux.Prelude.{
  ℕ, Option, none, some, List, [], ◌∷◌, false, true, ◌≡◌, ◌<◌, ◌⊎◌, refl, arith, ◌++◌, subst, sym,
  append_assoc, if◌then◌else◌,
}
use linguamesh_linux.Domain.{Domain, EventBody}
use linguamesh_linux.Model.Stream.{Stream, Rest, is_end}
use linguamesh_linux.Worker.Storage.{Core}
use linguamesh_linux.Worker.Host.{Host}
use linguamesh_linux.Worker.Candidates.{ActiveTranslation}
use linguamesh_linux.Worker.Relay.{
  WorkerState, WorkerEvent, translation, translation_history_updated,
  translation_history_persistence_failed, translation_memory_persistence_failed,
  routing_fallback_selected, fallback_selected, operation_failed, is_terminal_event,
}
use linguamesh_linux.Prelude.Text.{Text}
use linguamesh_linux.Model.Translation.{is_started}

-- The translation events among those that were sent.
abbrev pub translations : {d : Domain} → List (WorkerEvent d) → List d.Event
translations [] = []
translations (translation e ∷ es) = e ∷ translations es
translations (_ ∷ es) = translations es

pub translations-append :
    {d : Domain} (xs ys : List (WorkerEvent d))
    → translations (xs ++ ys) ≡ translations xs ++ translations ys
translations-append [] ys = refl
translations-append (translation e ∷ xs) ys = ground (arith, translations-append xs ys)
translations-append (translation_history_updated n ∷ xs) ys = translations-append xs ys
translations-append (translation_history_persistence_failed e ∷ xs) ys = translations-append xs ys
translations-append (translation_memory_persistence_failed e ∷ xs) ys = translations-append xs ys
translations-append (routing_fallback_selected a b c n ∷ xs) ys = translations-append xs ys
translations-append (fallback_selected a b ∷ xs) ys = translations-append xs ys
translations-append (operation_failed e ∷ xs) ys = translations-append xs ys

-- Events after which the stream is not over, the last one with the number `l`.
abbrev pub Open : (d : Domain) → ℕ → List d.Event → Type 0
Open d l es = (rest : List d.Event) → Rest d l rest → Stream d (es ++ rest)

pub Open-first :
    {d : Domain} (e : d.Event) → d.body e ≡ EventBody.started → Open d (d.sequence e) (e ∷ [])
Open-first e b rest r = Stream.start b r

pub Open-text :
    {d : Domain} (l : ℕ) (es : List d.Event) (e : d.Event) (t : Text)
    → Open d l es
    → l < d.sequence e
    → d.body e ≡ EventBody.text_delta t
    → Open d (d.sequence e) (es ++ e ∷ [])
Open-text {d} l es e t o lt b rest r =
    subst (Stream d) (sym (append_assoc es (e ∷ []) rest)) (o (e ∷ rest) (Rest.text t lt b r))

pub Open-end :
    {d : Domain} (l : ℕ) (es : List d.Event) (e : d.Event)
    → Open d l es
    → l < d.sequence e
    → is_end (d.body e) ≡ true
    → Stream d (es ++ e ∷ [])
Open-end l es e o lt b = o (e ∷ []) (Rest.end lt b refl)

pub is_end-terminal : {U F : Type 0} (b : EventBody U F) → is_end b ≡ is_terminal_event b
is_end-terminal EventBody.started = refl
is_end-terminal (EventBody.text_delta t) = refl
is_end-terminal (EventBody.completed u) = refl
is_end-terminal EventBody.cancelled = refl
is_end-terminal (EventBody.failed e) = refl

-- What an operation may send after its event with the number `raw`, or as its first event.
abbrev pub Fits : (d : Domain) → Option ℕ → d.Event → Type 0
Fits d none e = d.body e ≡ EventBody.started
Fits d (some n) e = (n < d.sequence e) × (is_started (d.body e) ≡ false)

module _ {d : Domain} {c : Core d} {h : Host d c} where
  -- The translation that is running, with the number of the last event of its present operation, and
  -- the events that were sent: nothing has come yet, or another operation was started and its start
  -- is awaited, or the operation is in the middle of its stream.
  abbrev pub Going : Option ℕ → ActiveTranslation d c h → List d.Event → Type 0
  Going raw a es =
      ((raw ≡ none)
        × (a.fallback_attempted ≡ false)
        × (a.suppress_fallback_started ≡ false)
        × (es ≡ []))
      ⊎ ((raw ≡ none)
          × (a.fallback_attempted ≡ true)
          × (a.suppress_fallback_started ≡ true)
          × ((l : ℕ) × Open d l es × (l < a.next_sequence)))
      ⊎ ((n : ℕ) × (raw ≡ some n)
          × (a.suppress_fallback_started ≡ false)
          × ((l : ℕ) × Open d l es
              × (l < a.next_sequence)
              × ((a.fallback_attempted ≡ false) → l ≡ n)))

  abbrev pub RelayedBy : Option ℕ → List d.Event → Option (ActiveTranslation d c h) → Type 0
  RelayedBy raw es none = Stream d es
  RelayedBy raw es (some a) = (a.routing_profile_id ≡ none) × Going raw a es

  abbrev pub Relayed : Option ℕ → WorkerState d c h → Type 0
  Relayed raw s = RelayedBy raw (translations s.sent) s.active

  -- The number of the last event of the present operation, after an event.
  abbrev pub raw_after : WorkerState d c h → d.Event → Option ℕ
  raw_after s e = elim s.active [
    | none ↦ none
    | some a ↦ if a.suppress_fallback_started then none else some (d.sequence e)
  ]

  pub Relayed-of :
      (raw : Option ℕ) (a : ActiveTranslation d c h) (s : WorkerState d c h)
      → s.active ≡ some a
      → a.routing_profile_id ≡ none
      → Going raw a (translations s.sent)
      → Relayed raw s
  Relayed-of raw a s e r g = rw e (r, g)

  pub Relayed-over :
      (raw : Option ℕ) (s : WorkerState d c h)
      → s.active ≡ none
      → Stream d (translations s.sent)
      → Relayed raw s
  Relayed-over raw s e p = rw e p

  pub raw_after-some :
      (s : WorkerState d c h) (a : ActiveTranslation d c h) (e : d.Event)
      → s.active ≡ some a
      → a.suppress_fallback_started ≡ false
      → raw_after s e ≡ some (d.sequence e)
  raw_after-some s a e f g = rw (f, g) refl
