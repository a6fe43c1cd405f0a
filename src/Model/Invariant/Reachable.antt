-- ===== src/Model/Invariant/Reachable.antt =====
-- Every state that a client can reach is well formed.
use linguamesh_linux.Prelude.{List, [], ◌∷◌}
use linguamesh_linux.Domain.{Domain}
use linguamesh_linux.Model.Call.{Call, step, run}
use linguamesh_linux.Model.Invariant.{Inv, initial-Inv}
use linguamesh_linux.Model.Invariant.PendingStep.{step-Pending}
use linguamesh_linux.Model.Invariant.DiscoveredStep.{step-Discovered}
use linguamesh_linux.Model.Invariant.SavedStep.{step-Saved}
use linguamesh_linux.Model.Invariant.ActiveStep.{step-Active}
use linguamesh_linux.Model.State.{AppState, initial}

-- Every method, called with any arguments in a well-formed state, leaves a well-formed state.
pub step-Inv : {d : Domain} (c : Call d) (s : AppState d) → Inv s → Inv (step c s).0
step-Inv c s h = record {
  pending = step-Pending c s h.pending;
  discovered = step-Discovered c s h.discovered;
  saved = step-Saved c s h.pending h.saved;
  active = step-Active c s h.active;
}

pub run-Inv : {d : Domain} (cs : List (Call d)) (s : AppState d) → Inv s → Inv (run cs s)
unfolding run
run-Inv [] s h = h
run-Inv (c ∷ cs) s h = run-Inv cs (step c s).0 (step-Inv c s h)

-- From the start of the client, any history of calls leads to a state in which: a connection that
-- is being made has a pending profile, and one that will be saved has an available store; the
-- selected and the awaited model are discovered ones, and without a provider none is; the saved
-- identifiers are distinct, and none is kept without a store; the identifiers awaited for deletion,
-- selected in the form and kept for the next start are saved ones; and the saved profile of the
-- connection is the one kept for the next start and the active provider's.
pub reachable-Inv : (d : Domain) (cs : List (Call d)) → Inv (run cs (initial d))
reachable-Inv d cs = run-Inv cs (initial d) (initial-Inv d)
