-- ===== src/Worker/Relay/Remaining.antt =====
use linguamesh_linux.Domain.{Domain}
use linguamesh_linux.Prelude.{ℕ, length, ◌-◌, ◌≡◌, ◌<◌, some}
use linguamesh_linux.Worker.Storage.{Core}
use linguamesh_linux.Worker.Host.{Host}
use linguamesh_linux.Worker.Candidates.{ActiveTranslation}
use linguamesh_linux.Worker.Relay.Attempts.{Attempts}
use linguamesh_linux.Prelude.Text.{Text}
use linguamesh_linux.Worker.Relay.{WorkerState}

-- src/worker.rs, `run_worker`: how often the candidates of a routing profile take over.

abbrev pub remaining : {d : Domain} {c : Core d} {h : Host d c} → ActiveTranslation d c h → ℕ
remaining a = length a.routing_candidates - a.routing_fallback_index

module _ {d : Domain} {c : Core d} (h : Host d c) where
  -- The index of the next candidate is the same.
  abbrev SameIndex : Attempts d c h → Attempts d c h → Type 0
  SameIndex t u = u.next_index ≡ t.next_index

  -- The translation of the variables has fewer candidates left than `a`, and the same ones.
  abbrev pub Advanced : ActiveTranslation d c h → WorkerState d c h → Type 0
  Advanced a s =
      (b : ActiveTranslation d c h) × (s.active ≡ some b)
      × (remaining b < remaining a)
      × (b.routing_candidates ≡ a.routing_candidates)
