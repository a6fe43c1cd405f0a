-- ===== src/Model/Stream.antt =====
-- The protocol of an event stream, stated apart from `apply_translation_event`: one start event,
-- then text in order, then at most one terminal event, with growing sequence numbers.
pub mod Protocol
pub mod Outcome
use linguamesh_linux.Prelude.{◌≡◌, Bool, ℕ, List, true, [], ◌∷◌, false, ◌<◌, ◌++◌, ◌&&◌}
use linguamesh_linux.Domain.{Domain, EventBody}
use linguamesh_linux.Prelude.Text.{Text}
use linguamesh_linux.Model.State.{AppState}
use linguamesh_linux.Model.Status.{is_ok}
use linguamesh_linux.Model.Translation.{apply_translation_event}

abbrev pub is_end : {U F : Type 0} → EventBody U F → Bool
is_end (EventBody.completed _) = true
is_end EventBody.cancelled = true
is_end (EventBody.failed _) = true
is_end _ = false

-- What may follow an event of sequence number `last`.
pub data Rest (d : Domain) : ℕ → List d.Event → Type 0 where
  nothing : {last : ℕ} → Rest d last []
  text :
      {last : ℕ} {e : d.Event} {es : List d.Event} (t : Text)
      → last < d.sequence e
      → d.body e ≡ EventBody.text_delta t
      → Rest d (d.sequence e) es
      → Rest d last (e ∷ es)
  end :
      {last : ℕ} {e : d.Event} {es : List d.Event}
      → last < d.sequence e
      → is_end (d.body e) ≡ true
      → es ≡ []
      → Rest d last (e ∷ es)

-- A stream, or the part of one that has arrived.
pub data Stream (d : Domain) : List d.Event → Type 0 where
  nothing : Stream d []
  start :
      {e : d.Event} {es : List d.Event}
      → d.body e ≡ EventBody.started
      → Rest d (d.sequence e) es
      → Stream d (e ∷ es)

-- The text of an event, and of a stream.
abbrev pub text_of : {U F : Type 0} → EventBody U F → Text
text_of (EventBody.text_delta t) = t
text_of _ = []

unfoldable pub texts : (d : Domain) → List d.Event → Text
texts d [] = []
texts d (e ∷ es) = text_of (d.body e) ++ texts d es

module _ {d : Domain} where
  -- Whether the client takes every event, and the state after them.
  unfoldable pub accepts : List d.Event → AppState d → Bool
  accepts [] s = true
  accepts (e ∷ es) s =
      is_ok (apply_translation_event e s).1 && accepts es (apply_translation_event e s).0

  unfoldable pub receive : List d.Event → AppState d → AppState d
  receive [] s = s
  receive (e ∷ es) s = receive es (apply_translation_event e s).0
