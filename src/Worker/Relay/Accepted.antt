-- ===== src/Worker/Relay/Accepted.antt =====
use linguamesh_linux.Domain.{Domain}
use linguamesh_linux.Worker.Storage.{Core}
use linguamesh_linux.Worker.Host.{Host}
use linguamesh_linux.Prelude.{
  List, Option, ℕ, ◌∷◌, ◌≡◌, some, false, none, [], true, subst, append-nil, ◌++◌, inl, inr, refl,
}
use linguamesh_linux.Worker.Candidates.{ActiveTranslation}
use linguamesh_linux.Worker.Relay.{WorkerState}
use linguamesh_linux.Worker.Relay.Protocol.{
  Relayed, raw_after, translations, Open, RelayedBy, Going, Relayed-of,
}
use linguamesh_linux.Model.State.{AppState}
use linguamesh_linux.Worker.Relay.Switch.{handle_event}
use linguamesh_linux.Worker.Relay.Fallback.{Continues, handle_event-Kept}
use linguamesh_linux.Model.Stream.{Stream, accepts, receive, Rest, texts}
use linguamesh_linux.Model.Status.{is_busy}
use linguamesh_linux.Model.Stream.Protocol.{accepts_iff_Stream}

-- src/worker.rs, `run_worker`, and src/model.rs, `AppState`: what the worker sends in the course of a
-- translation, and the client that receives it.
-- The events of the operations, in the order in which the worker takes them.
unfoldable pub handle_events :
    {d : Domain} {c : Core d} (h : Host d c) → List d.Event → WorkerState d c h → WorkerState d c h
handle_events h [] s = s
handle_events h (e ∷ es) s = handle_events h es (handle_event h e s)

module _ {d : Domain} {c : Core d} (h : Host d c) where
  -- Every event fits the stream of the operation that runs when it comes.
  unfoldable pub AllContinue : Option ℕ → List d.Event → WorkerState d c h → Type 0
  AllContinue raw [] s = Unit
  AllContinue raw (e ∷ es) s =
      Continues raw e s × AllContinue (raw_after (handle_event h e s) e) es (handle_event h e s)

  -- A translation without routing that was just started, with or without a fallback profile.
  abbrev pub JustStarted : ActiveTranslation d c h → WorkerState d c h → Type 0
  JustStarted a s =
      (s.active ≡ some a)
      × (s.is_closed ≡ false)
      × (a.routing_profile_id ≡ none)
      × (a.fallback_attempted ≡ false)
      × (a.suppress_fallback_started ≡ false)
      × (translations s.sent ≡ [])

  Relayed-Stream :
      (raw : Option ℕ) (es : List d.Event) (o : Option (ActiveTranslation d c h))
      → RelayedBy raw es o
      → Stream d es
  Relayed-Stream raw es none p = p
  Relayed-Stream raw es (some a) (_, g) = so_far g
    where
      open_so_far : (l : ℕ) → Open d l es → Stream d es
      open_so_far l o = subst (Stream d) (append-nil es) (o [] Rest.nothing)

      so_far : Going raw a es → Stream d es
      so_far (inl (_, _, _, nothing)) = rw nothing Stream.nothing
      so_far (inr (inl (_, _, _, (l, o, _)))) = open_so_far l o
      so_far (inr (inr (_, _, _, (l, o, _, _)))) = open_so_far l o

  handle_events-Relayed :
      (raw : Option ℕ) (es : List d.Event) (s : WorkerState d c h)
      → s.is_closed ≡ false
      → Relayed raw s
      → AllContinue raw es s
      → Stream d (translations (handle_events h es s).sent)
  unfolding handle_events AllContinue
  handle_events-Relayed raw [] s o g all = Relayed-Stream raw (translations s.sent) s.active g
  handle_events-Relayed raw (e ∷ es) s o g (one, all) =
      let (o', g') = handle_event-Kept raw e s o g one in
      handle_events-Relayed (raw_after (handle_event h e s) e) es (handle_event h e s) o' g' all

  -- A translation without routing was just started, nothing of it was sent yet, and the receiver is
  -- there. Its operation, and that of the approved fallback profile if that takes over, send a start
  -- and then numbers that grow and no other start, all below the largest number of 64 bits, as is the
  -- next number of the translation. Then the translation events that the worker has sent are a stream
  -- of the protocol, whatever fails and takes over, and a client that waits for a stream accepts
  -- every one of them and shows their text.
  pub handle_events-accepted :
      (a : ActiveTranslation d c h) (es : List d.Event) (s : WorkerState d c h)
      (client : AppState d)
      → JustStarted a s
      → AllContinue none es s
      → is_busy client.status ≡ true
      → client.last_sequence ≡ none
      → let told = translations (handle_events h es s).sent in
        (Stream d told)
        × (accepts told client ≡ true)
        × ((receive told client).output ≡ client.output ++ texts d told)
  unfolding AllContinue
  handle_events-accepted a es s client (f, o, r, own, sup, nothing) all busy first =
      let told = translations (handle_events h es s).sent in
      let p : Stream d told =
        handle_events-Relayed none es s o (Relayed-of none a s f r (inl (refl, own, sup, nothing)))
          all in
      let (taken, shown) = accepts_iff_Stream client told busy first in (p, taken.1 p, shown p)
