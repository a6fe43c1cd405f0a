-- ===== src/Tests/Connection.antt =====
-- Witnesses of the theorems on connections and model selection.
use linguamesh_linux.Prelude.{◌≡◌, refl, none, some, false, is_some, if◌then◌else◌}
use linguamesh_linux.Prelude.Text.{codes}
use linguamesh_linux.Domain.{network}
use linguamesh_linux.Tests.Sample.{sample, Provider, Failure}
use linguamesh_linux.Tests.Running.{running}
use linguamesh_linux.Tests.Model.{beta, two_models}
use linguamesh_linux.Model.State.{AppState, initial}
use linguamesh_linux.Model.Connection.{
  begin_provider_connection_with_persistence, provider_connection_failed,
  provider_connected_with_saved_profile, confirm_model_selection, kept_model, begin_model_selection,
  connected,
}
use linguamesh_linux.Model.Status.{AppStatus, ok}
use linguamesh_linux.Model.Connection.Commit.{
  connected_correlated, connection_rollback, session_selection,
}

-- A client that waits for the connection of a session profile.
abbrev waiting : AppState sample
waiting = (begin_provider_connection_with_persistence beta false (initial sample)).0

abbrev unreachable : Failure
unreachable = record { kind = network; message = codes "unreachable" }

connected_correlated_example :
    (pending : Provider) × (waiting.pending_provider ≡ some pending)
    × (sample.with_selected_model pending (kept_model sample two_models pending) ≡ some beta)
    × (is_some {A = Provider} none ≡ waiting.pending_provider_will_be_saved)
    × ((provider_connected_with_saved_profile beta two_models none waiting).0
        ≡ connected beta two_models none waiting)
unfolding running
connected_correlated_example = connected_correlated waiting beta two_models none refl

connection_rollback_example : provider_connection_failed beta unreachable waiting ≡ (
  record (initial sample) {
    pending_provider = none;
    pending_provider_will_be_saved = false;
    status = if is_some (initial sample).active_provider then AppStatus.ready else AppStatus.failed;
    error = some unreachable;
  },
  ok tt,
)
unfolding running
connection_rollback_example = connection_rollback (initial sample) beta false unreachable refl

-- A client with a session connection.
abbrev connected_state : AppState sample
connected_state = (provider_connected_with_saved_profile beta two_models none waiting).0

session_selection_example :
    confirm_model_selection (codes "m1") (begin_model_selection (codes "m1") connected_state).0 ≡ (
      record connected_state {
        active_provider = some (record beta { model = some (codes "m1") });
        selected_model = some (codes "m1");
        pending_model_selection = none;
        error = none;
      },
      ok tt,
    )
unfolding running
session_selection_example =
    session_selection connected_state (codes "m1") beta (record beta { model = some (codes "m1") })
      refl refl refl refl
