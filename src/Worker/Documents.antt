-- ===== src/Worker/Documents.antt =====
use linguamesh_linux.Prelude.{
  ℕ, List, Bool, Option, none, does, ◌∷◌, is_some, some, [], ◌⊎◌, false, inl, if◌then◌else◌, leb,
  ◌&&◌, length, not, inr,
}
use linguamesh_linux.Domain.{Domain, invalid_configuration, model_unavailable}
use linguamesh_linux.Worker.Storage.{Core, Outcome, and_then, done, failed, ok_or_else}
use linguamesh_linux.Prelude.Text.{Text, Text-discrete, codes}
use linguamesh_linux.Worker.Host.{Host}
use linguamesh_linux.Model.Translation.{given_glossary}
use linguamesh_linux.Worker.Relay.Attempts.{joined_at}
use linguamesh_linux.Worker.Candidates.{begin_translation}
-- src/worker.rs: the document jobs that the worker translates, segment by segment. Here are their
-- data; the start of a segment stands in Segment, that of a job in Start and Routed, and the loop in
-- Loop and Commands.
pub mod Segment
pub mod Start
pub mod Routed
pub mod Resumed
pub mod Loop
pub mod Commands
pub mod Jobs
pub mod MapBounds
pub mod Bounds
pub mod Capacity
pub mod Segments
pub mod Stored
pub mod Ended
pub mod Asked
pub mod Continued
pub mod Cancelled
pub mod Refused

-- `DocumentSegment`, the fields that are read.
pub record DocumentSegment : Type 0 where
  pub index : ℕ
  pub is_prose : Bool
  pub translated_text : Option Text

-- `DocumentJobOptions`, which the store keeps for a job.
pub record DocumentJobOptions (d : Domain) : Type 0 where
  pub source_locale : Option Text
  pub target_locale : Text
  pub model_id : Text
  pub provider_id : Text
  pub routing_profile_id : Option Text
  pub quality_mode : d.Quality
  pub translation_preset : d.Preset
  pub glossary : Option d.Glossary

-- What the worker uses of LinguaMesh Core for document jobs: the jobs, their states, and the store
-- of them.
pub record DocumentCore (d : Domain) (c : Core d) : Type 1 where
  pub Job : Type 0
  pub segments : Job → List DocumentSegment
  pub pending_count : Job → ℕ
  -- The text for the provider, or the text of an error.
  pub translation_source_text : Job → ℕ → Text ⊎ Text
  -- `DocumentJobState` and its values.
  pub JobState : Type 0
  pub state_discrete : Discrete JobState
  pub job_pending : JobState
  pub job_running : JobState
  pub job_paused : JobState
  pub job_cancelled : JobState
  pub job_failed : JobState
  pub job_completed : JobState
  pub is_resumable : JobState → Bool
  -- `DocumentJobSnapshot` and its fields.
  pub Snapshot : Type 0
  pub state : Snapshot → JobState
  pub job : Snapshot → Job
  pub options : Snapshot → Option (DocumentJobOptions d)
  pub document_job : c.Storage → Text → Outcome d (Option Snapshot)
  pub set_document_job_state : c.Storage → Text → JobState → c.Storage × Outcome d Snapshot
  pub save_document_job_options :
      c.Storage → Text → DocumentJobOptions d → c.Storage × Outcome d (Unit {0})
  pub update_document_segment : c.Storage → Text → ℕ → Text → c.Storage × Outcome d Snapshot

pub record DocumentTranslationOptions (d : Domain) : Type 0 where
  pub source_locale : Option Text
  pub target_locale : Text
  pub glossary : Option d.Glossary
  pub quality_mode : d.Quality
  pub translation_preset : d.Preset
  pub privacy_mode : d.Privacy
  pub provider_identity : Option Text

-- `ActiveDocumentTranslation`, and `RunningDocumentTranslation`, which keeps only the handle for the
-- cancellation of the operation, in the place of which the operation itself stands.
pub record ActiveDocumentTranslation (d : Domain) (c : Core d) (h : Host d c) : Type 0 where
  pub job_id : Text
  pub segment_index : ℕ
  pub source_locale : Option Text
  pub target_locale : Text
  pub glossary : Option d.Glossary
  pub quality_mode : d.Quality
  pub translation_preset : d.Preset
  pub privacy_mode : d.Privacy
  pub model_id : Text
  pub provider_identity : Option Text
  pub operation : h.Operation
  pub provider_manager : Option c.Manager
  pub output : Text
  pub cancel_requested : Bool
  pub pause_requested : Bool
  pub stop_after_active : Bool

abbrev pub max_active_document_jobs : ℕ
max_active_document_jobs = 4

module _ {d : Domain} {c : Core d} {h : Host d c} where
  -- The map of the running documents, under their job identifiers.
  abbrev pub has_job : Text → ActiveDocumentTranslation d c h → Bool
  has_job job_id t = does (Text-discrete t.job_id job_id)

  unfoldable pub get_document :
      Text → List (ActiveDocumentTranslation d c h) → Option (ActiveDocumentTranslation d c h)
  get_document job_id [] = none
  get_document job_id (t ∷ ts) =
      let rest = get_document job_id ts in if has_job job_id t then some t else rest

  unfoldable pub remove_document :
      Text → List (ActiveDocumentTranslation d c h) → List (ActiveDocumentTranslation d c h)
  remove_document job_id [] = []
  remove_document job_id (t ∷ ts) =
      let rest = remove_document job_id ts in if has_job job_id t then rest else t ∷ rest

  abbrev pub already_running : Text → List (ActiveDocumentTranslation d c h) → Bool
  already_running job_id ts = is_some (get_document job_id ts)

  unfoldable pub ensure_document_job_capacity :
      List (ActiveDocumentTranslation d c h) → Text → Outcome d (Unit {0})
  unfolding get_document
  ensure_document_job_capacity active_documents job_id =
      if leb max_active_document_jobs (length active_documents)
      then failed (
          d.error_new invalid_configuration
            (codes "The document job concurrency limit has been reached."))
      else if already_running job_id active_documents
      then failed
          (d.error_new invalid_configuration (codes "The document job is already translating."))
      else done tt

  -- The map with the translation, whose events arrive from then on.
  unfoldable pub activate_document_translation :
      ActiveDocumentTranslation d c h
      → List (ActiveDocumentTranslation d c h)
      → Outcome d (List (ActiveDocumentTranslation d c h))
  unfolding ensure_document_job_capacity
  activate_document_translation t active_documents =
      and_then (ensure_document_job_capacity active_documents t.job_id)
        λ _. done (t ∷ active_documents)
