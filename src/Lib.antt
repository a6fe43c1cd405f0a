-- ===== src/Lib.antt =====
-- LinguaMesh for Linux: the native client of the LinguaMesh translation suite.
--
-- The client has a window (src/main.rs), a worker thread that talks to LinguaMesh Core
-- (src/worker.rs), and between them the state of the application (src/model.rs). The window calls
-- methods of `AppState` when the user acts and when the worker reports; each method checks whether
-- the action fits the state, and then changes the state or refuses. The texts of the window come
-- from gettext catalogs (src/localization.rs).
--
-- The files, and the code that they model:
--   Prelude          shared notation, Rust's options, slices and texts, and their lemmas.
--   Domain           what the client uses of the crate `linguamesh_domain`, as a parameter: opaque
--                    types, their accessors, and the documented behaviour that is relied on.
--   Model/Status, Model/Locale
--                    src/model.rs, the enumerations and `StateError`.
--   Model/Profiles   src/model.rs, the list of saved profiles: lookup, order, insertion.
--   Model/State      src/model.rs, `AppState`, its default and its queries.
--   Model/Saved, Model/Connection, Model/Translation, Model/Settings
--                    src/model.rs, the methods that change the state. A method with `&mut self` is a
--                    function from the state to the new state, and, where it returns a `Result`, to a
--                    pair of the state and the result. Children named Cases hold a case rule for each
--                    method: a property of the old state and of the committed state is one of the
--                    outcome.
--   Model/Call       the methods as messages, one step, and a history of calls.
--   Model/Stream     the protocol of the event stream, and its refinement by the client.
--   Model/Rejection, Model/Invariant
--                    refused calls, and what every reachable state satisfies.
--   Routing          src/model.rs, the order of the routing candidates: the buttons (Moves, Exchange),
--                    drag and drop (Drag) and what is shown (Known).
--   Model/Diagnostics
--                    src/model.rs, the English texts of errors and the diagnostics summary.
--   Localization     src/localization.rs: the reader of compiled gettext catalogs (`from_mo`), the
--                    lookups, the plural slots (Plural) and the catalogs of the locales (Catalogs).
--   Worker/Circuit, Worker/Backoff
--                    src/worker.rs, `RoutingCircuitBreaker` and `routing_backoff_delay`. Instants are
--                    arguments, and the `RetryPolicy` of Core is a record of numbers.
--   Worker/Storage   src/worker.rs, `prepare_model_selection`, `delete_saved_profile` and the checks
--                    of persistence. The provider manager and the store of Core are parameters.
--   Worker/Connect   src/worker.rs, `connect_candidate`. The `select!` loop is a function of what
--                    happens during the connection: the requests for secrets, and how it ends. Finish
--                    has `finish_candidate_connection` and `profile_without_secret`, with the builders
--                    of a profile as a parameter.
--   Worker/Host      what the worker uses of LinguaMesh Core and of the system for translations, as a
--                    parameter: operations, requests, the history, the clock, the connections.
--   Worker/Candidates
--                    src/worker.rs, `begin_translation`, `connect_routing_candidate`,
--                    `connect_fallback_candidate`.
--   Worker/Relay     src/worker.rs, `run_worker`, an event of the running translation: the change to
--                    another candidate of the routing (Switch, Attempts) or to the approved fallback
--                    profile, the renumbering of the events, the records, and the end. The other
--                    children compose it with the client of Model/Stream.
--   Worker/Documents src/worker.rs, the document jobs: the start of a segment (Segment), of a job
--                    (Start) and of a routed or saved job (Routed, Resumed), the part of `run_worker`
--                    that runs while jobs are translated (Loop for the events of their operations,
--                    Commands for the commands and for one step), and its theorems.
--   Tests            witnesses and tests on a concrete instance of the parameter.
--
-- Texts are lists of Unicode scalar values, and bytes are numbers below 256. Recursion is on lists
-- and counts; the one fuel is that of decimal digits, 20, which is enough for `usize` (below
-- 10 ^ 20). `usize` has 64 bits. `sort_by` is an insertion sort: every stable sort gives the same
-- list.
--
-- The loop of the worker is a sequence of steps: what `select!` takes next is an argument, and so is
-- what comes from tokio's channels and tasks. A send is an append to the list of what was sent, and
-- fails if the receiver is gone. A manager that is disconnected is dropped, and a cancellation handle
-- is the operation itself. A hash map of running documents is a list under their identifiers.
--
-- Not modelled: the window and its widgets, the start of the worker and its commands while nothing
-- runs or a text is translated, the files and the database, the D-Bus calls of the secret store, the
-- external OCR processes, and the localized wordings of errors and diagnostics. They are planned, or
-- input and output, code of other crates, or tables of texts.
pub mod Prelude
pub mod Domain
pub mod Model
pub mod Routing
pub mod Localization
pub mod Worker
mod Tests
