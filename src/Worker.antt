-- ===== src/Worker.antt =====
-- src/worker.rs: the parts of the worker that decide, apart from its event loop.
pub mod Circuit
pub mod Backoff
pub mod Storage
pub mod Connect
pub mod Host
pub mod Candidates
pub mod Relay
pub mod Documents
use linguamesh_linux.Prelude.{ℕ, Option, none}

-- `RetryPolicy` of LinguaMesh Core, whose numbers the worker reads through accessors, and
-- `bounded_retry_after_ms`, a function of the provider's hint.
pub record RetryPolicy : Type 0 where
  pub circuit_failure_threshold : ℕ
  pub circuit_cooldown_ms : ℕ
  pub base_delay_ms : ℕ
  pub max_backoff_ms : ℕ
  pub jitter_percent : ℕ
  pub bounded_retry_after_ms : Option ℕ → Option ℕ
