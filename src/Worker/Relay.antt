-- ===== src/Worker/Relay.antt =====
-- src/worker.rs, `run_worker`, the branch `ActiveStep::Event`: what the worker does with an event of
-- the translation that is running. Here are the variables of the loop and the last part of the
-- branch, which passes the event on; the change of the provider stands in Switch.
pub mod Attempts
pub mod Switch
pub mod Protocol
pub mod Passing
pub mod Running
pub mod Outcomes
pub mod Fallback
pub mod Accepted
pub mod Renumbered
pub mod Remaining
use linguamesh_linux.Prelude.{
  ℕ, Option, none, some, List, [], ◌∷◌, Bool, not, false, true, ◌^◌, ◌++◌, if◌then◌else◌, ◌||◌, min,
  ◌-◌, ◌&&◌, ◌+◌,
}
use linguamesh_linux.Prelude.Text.{Text, codes}
use linguamesh_linux.Domain.{Domain, EventBody, internal}
use linguamesh_linux.Worker.Storage.{Core, Outcome, done, failed}
use linguamesh_linux.Worker.Circuit.{RoutingCircuitBreaker}
use linguamesh_linux.Worker.Host.{Host}
use linguamesh_linux.Worker.Candidates.{ActiveTranslation}
use linguamesh_linux.Model.Translation.{is_started}

-- The events of the worker that this branch sends.
pub data WorkerEvent (d : Domain) : Type 0 where
  translation : d.Event → WorkerEvent d
  translation_history_updated : ℕ → WorkerEvent d
  translation_history_persistence_failed : d.TranslationError → WorkerEvent d
  translation_memory_persistence_failed : d.TranslationError → WorkerEvent d
  routing_fallback_selected : Text → Text → Text → ℕ → WorkerEvent d
  fallback_selected : d.ProfileId → d.ProfileId → WorkerEvent d
  operation_failed : d.TranslationError → WorkerEvent d

-- What a request for cancellation would cancel.
pub data ActiveCancellation (d : Domain) (c : Core d) (h : Host d c) : Type 0 where
  translation : h.Operation → ActiveCancellation d c h

-- The variables of the loop. `sent` is what was sent, and `is_closed` tells that the receiver is
-- gone, so that sending fails. A manager that is disconnected is dropped.
pub record WorkerState (d : Domain) (c : Core d) (h : Host d c) : Type 0 where
  pub world : h.World
  pub storage : Option c.Storage
  pub routing_circuit : RoutingCircuitBreaker
  pub routing_manager : Option c.Manager
  pub fallback_manager : Option c.Manager
  pub fallback_profile : Option d.Profile
  pub active_profile : Option d.Profile
  pub active : Option (ActiveTranslation d c h)
  pub active_cancellation : Option (ActiveCancellation d c h)
  pub shutting_down : Bool
  pub stop_after_active : Bool
  pub is_closed : Bool
  pub sent : List (WorkerEvent d)

abbrev pub u64_max : ℕ
u64_max = 2 ^ 64 - 1

abbrev pub is_terminal_event : {U F : Type 0} → EventBody U F → Bool
is_terminal_event (EventBody.completed _) = true
is_terminal_event EventBody.cancelled = true
is_terminal_event (EventBody.failed _) = true
is_terminal_event _ = false

abbrev pub is_completed_event : {U F : Type 0} → EventBody U F → Bool
is_completed_event (EventBody.completed _) = true
is_completed_event _ = false

abbrev pub usage_of : {U F : Type 0} → EventBody U F → Option U
usage_of (EventBody.completed u) = u
usage_of _ = none

abbrev pub push_text : {U F : Type 0} → Text → EventBody U F → Text
push_text output (EventBody.text_delta t) = output ++ t
push_text output _ = output

abbrev pub count_event : {d : Domain} → Outcome d ℕ → WorkerEvent d
count_event (done n) = translation_history_updated n
count_event (failed e) = translation_history_persistence_failed e

-- The event of the history after the record.
abbrev pub counted : {d : Domain} → Outcome d ℕ → Outcome d (Unit {0}) → WorkerEvent d
counted count (done _) = count_event count
counted count (failed e) = translation_history_persistence_failed e

abbrev pub recorded : {d : Domain} → Outcome d (Unit {0}) → Option (WorkerEvent d)
recorded (done _) = none
recorded (failed e) = some (translation_memory_persistence_failed e)

-- The event of another operation, with the next number of the translation.
unfoldable pub remap_translation_event :
    {d : Domain} {c : Core d} (h : Host d c) → d.Event → ℕ → d.Event
remap_translation_event {d} h e sequence = h.event_new sequence (d.body e)

module _ {d : Domain} {c : Core d} {h : Host d c} where
  -- `events.send(..)`, with `shutting_down = true` where it fails.
  abbrev pub send : WorkerEvent d → WorkerState d c h → WorkerState d c h
  send e s =
      if s.is_closed
      then record s { shutting_down = true }
      else record s { sent = s.sent ++ e ∷ [] }

  abbrev pub send_option : Option (WorkerEvent d) → WorkerState d c h → WorkerState d c h
  send_option none s = s
  send_option (some e) s = send e s

  -- The record of the history: the store after it, and the event.
  unfoldable pub record_history :
      ActiveTranslation d c h → Option d.Usage → c.Storage → c.Storage × Option (WorkerEvent d)
  record_history a usage storage = elim (h.translation_history_enabled storage) [
    | failed e ↦ (storage, some (translation_history_persistence_failed e))
    | done false ↦ (storage, none)
    | done true ↦
        let (after, outcome) =
          h.record_translation_history_with_usage storage a.request a.output usage in
        (after, some (counted (h.translation_history_count after) outcome))
  ]

  unfoldable pub record_memory :
      ActiveTranslation d c h → c.Storage → c.Storage × Option (WorkerEvent d)
  record_memory a storage = elim (h.translation_memory_enabled storage) [
    | failed e ↦ (storage, some (translation_memory_persistence_failed e))
    | done false ↦ (storage, none)
    | done true ↦
        let (after, outcome) = h.record_translation_memory storage a.request a.output in
        (after, recorded outcome)
  ]

  -- The records of a translation that is completed, unless it is incognito or there is no store.
  unfoldable pub record_completion :
      ActiveTranslation d c h → Option d.Usage → WorkerState d c h → WorkerState d c h
  unfolding record_history record_memory
  record_completion a usage s = elim s.storage [
    | none ↦ s
    | some storage ↦
        let history = record_history a usage storage in
        let told = send_option history.1 (record s { storage = some history.0 }) in
        if told.shutting_down
        then told
        else (let memory = record_memory a history.0 in
            send_option memory.1 (record told { storage = some memory.0 }))
  ]

  -- The end of the branch: the terminal event clears the variables.
  abbrev pub cleared_after : WorkerState d c h → WorkerState d c h
  cleared_after s = record s {
    active_cancellation = none;
    active = none;
    fallback_manager = none;
    fallback_profile = none;
    routing_manager = none;
    shutting_down = s.stop_after_active || s.shutting_down;
  }

  -- The number of the event that is passed on, and the next one.
  abbrev pub numbered : ActiveTranslation d c h → d.Event → d.Event × ℕ
  numbered a e =
      if a.fallback_attempted
      then (remap_translation_event h e a.next_sequence, min (a.next_sequence + 1) u64_max)
      else (e, min (d.sequence e + 1) u64_max)

  -- The translation after the event.
  abbrev pub passed : ActiveTranslation d c h → d.Event → ActiveTranslation d c h
  passed a e = record a {
    next_sequence = (numbered a e).1;
    output = push_text a.output (d.body (numbered a e).0);
  }

  -- The records are made for a completed translation that is not incognito.
  abbrev pub recorded_for :
      ActiveTranslation d c h
      → EventBody d.Usage d.TranslationError
      → WorkerState d c h
      → WorkerState d c h
  recorded_for b body s =
      if is_completed_event body && not (h.request_is_incognito b.request)
      then record_completion b (usage_of body) s
      else s

  abbrev pub closed_after :
      EventBody d.Usage d.TranslationError → WorkerState d c h → WorkerState d c h
  closed_after body s = if is_terminal_event body then cleared_after s else s

  unfoldable pub pass_on : ActiveTranslation d c h → d.Event → WorkerState d c h → WorkerState d c h
  unfolding record_completion
  pass_on a e s =
      if a.suppress_fallback_started && is_started (d.body e)
      then record s { active = some (record a { suppress_fallback_started = false }) }
      else (let next = (numbered a e).0 in
          closed_after (d.body next) (
            send (translation next)
              (recorded_for (passed a e) (d.body next) (record s { active = some (passed a e) }))))

  -- The branch `ActiveStep::Event(None)`.
  unfoldable pub stream_ended : WorkerState d c h → WorkerState d c h
  stream_ended s =
      let told =
        (if s.is_closed then s else record s {
          sent =
              s.sent
              ++ operation_failed (
                  d.error_new internal
                    (codes "The core event stream ended without a terminal event."))
                ∷ [];
        }) in
      record told {
        active_cancellation = none;
        active = none;
        routing_manager = none;
        shutting_down = s.stop_after_active || s.shutting_down;
      }
