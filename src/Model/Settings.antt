-- ===== src/Model/Settings.antt =====
-- src/model.rs, the methods of `AppState` that write one setting, and the worker's readiness.
use linguamesh_linux.Prelude.{ℕ, Bool, Option}
use linguamesh_linux.Prelude.Text.{Text}
use linguamesh_linux.Domain.{Domain}
use linguamesh_linux.Model.Locale.{UiLocale}
use linguamesh_linux.Model.State.{AppState}
use linguamesh_linux.Model.Status.{ThemePreference, WorkerStartup}

module _ {d : Domain} where
  unfoldable pub mark_worker_ready : AppState d → AppState d
  mark_worker_ready s = record s { worker_startup = WorkerStartup.ready }

  unfoldable pub mark_worker_unavailable : AppState d → AppState d
  mark_worker_unavailable s = record s { worker_startup = WorkerStartup.failed }

  unfoldable pub set_source_text : Text → AppState d → AppState d
  set_source_text x s = record s { source_text = x }

  unfoldable pub set_source_locale : Option Text → AppState d → AppState d
  set_source_locale x s = record s { source_locale = x }

  unfoldable pub set_target_locale : Text → AppState d → AppState d
  set_target_locale x s = record s { target_locale = x }

  unfoldable pub set_glossary : Option d.Glossary → AppState d → AppState d
  set_glossary x s = record s { glossary = x }

  unfoldable pub set_privacy_mode : d.Privacy → AppState d → AppState d
  set_privacy_mode x s = record s { privacy_mode = x }

  unfoldable pub set_quality_mode : d.Quality → AppState d → AppState d
  set_quality_mode x s = record s { quality_mode = x }

  unfoldable pub set_translation_preset : d.Preset → AppState d → AppState d
  set_translation_preset x s = record s { translation_preset = x }

  unfoldable pub set_theme : ThemePreference → AppState d → AppState d
  set_theme x s = record s { theme = x }

  unfoldable pub set_locale : UiLocale → AppState d → AppState d
  set_locale x s = record s { locale = x }

  unfoldable pub restore_translation_history_count : ℕ → AppState d → AppState d
  restore_translation_history_count x s = record s { translation_history_count = x }

  unfoldable pub restore_translation_history_enabled : Bool → AppState d → AppState d
  restore_translation_history_enabled x s = record s { translation_history_enabled = x }

  unfoldable pub restore_translation_memory_count : ℕ → AppState d → AppState d
  restore_translation_memory_count x s = record s { translation_memory_count = x }

  unfoldable pub restore_translation_memory_enabled : Bool → AppState d → AppState d
  restore_translation_memory_enabled x s = record s { translation_memory_enabled = x }

  unfoldable pub clear_translation_history_count : AppState d → AppState d
  clear_translation_history_count s = record s { translation_history_count = 0 }

  unfoldable pub clear_translation_memory_count : AppState d → AppState d
  clear_translation_memory_count s = record s { translation_memory_count = 0 }
