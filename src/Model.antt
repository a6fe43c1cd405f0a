-- ===== src/Model.antt =====
-- src/model.rs, the parts of the client's state machine.
pub mod Status
pub mod Locale
pub mod Profiles
pub mod State
pub mod Saved
pub mod Connection
pub mod Translation
pub mod Settings
pub mod Stream
pub mod Diagnostics
pub mod Call
pub mod Rejection
pub mod Invariant
