-- ===== src/Tests/Worker.antt =====
-- Witnesses of the theorems on the worker, on a store of one profile.
use linguamesh_linux.Prelude.{
  ◌⊎◌, ◌≡◌, refl, none, some, if◌then◌else◌, List, [], ◌∷◌, true, arith, ◌≤◌, ◌+◌, min, does,
  is_some, Option, false,
}
use linguamesh_linux.Prelude.Text.{Text, codes, Text-discrete}
use linguamesh_linux.Tests.Sample.{sample, Provider, Ref, Ref-discrete}
use linguamesh_linux.Tests.Model.{disk_error, alpha, two_models}
use linguamesh_linux.Worker.Storage.{
  Core, done, failed, delete_saved_profile, persistent_refs, prepare_model_selection, select_model,
}
use linguamesh_linux.Worker.{RetryPolicy}
use linguamesh_linux.Worker.Circuit.Failures.{
  failures, skips, is_open-failures, is_open-record_success, is_open-is_open,
}
use linguamesh_linux.Worker.Circuit.{
  RoutingCircuitBreaker, is_open, operate, failure, operate-other, record_failure, record_success,
}
use linguamesh_linux.Worker.Backoff.{
  routing_backoff_delay, base_ms, jitter_bound, routing_backoff_delay-bounds,
}
use linguamesh_linux.Model.Connection.{is_discovered}
use linguamesh_linux.Worker.Storage.Selection.{
  StoredWithModel, StoreFailed, prepare_model_selection_refused, prepare_model_selection-done,
}
use linguamesh_linux.Worker.Storage.SecretRefs.{count, kept_count, delete_saved_profile-done}

abbrev pub policy : RetryPolicy
policy = record {
  circuit_failure_threshold = 2;
  circuit_cooldown_ms = 30;
  base_delay_ms = 100;
  max_backoff_ms = 1000;
  jitter_percent = 20;
  bounded_retry_after_ms = λ hint. hint;
}

abbrev pub closed : RoutingCircuitBreaker
closed = record { states = λ k. none; policy = policy }

is_open-failures_example :
    (is_open 35 (codes "a") (failures (codes "a") (10 ∷ 5 ∷ []) closed)).1 ≡ true
is_open-failures_example = is_open-failures (codes "a") (10 ∷ 5 ∷ []) closed 35 refl (omega arith)

-- A candidate that was skipped until 40.
abbrev skipped : RoutingCircuitBreaker
skipped = failures (codes "a") (10 ∷ 5 ∷ []) closed

is_open-record_success_example :
    (is_open 35 (codes "a") (failures (codes "a") (30 ∷ []) (record_success (codes "a") skipped))).1
    ≡ skips policy 35 (30 ∷ [])
unfolding record_failure
is_open-record_success_example =
    is_open-record_success (codes "a") (30 ∷ []) skipped 35 (omega arith)

is_open-is_open_example :
    ((is_open 40 (codes "a") skipped).1 ≡ false)
    × ((is_open 60
          (codes "a")
          (failures (codes "a") (50 ∷ []) (is_open 40 (codes "a") skipped).0)).1
        ≡ skips policy 60 (50 ∷ []))
unfolding record_failure Text-discrete
is_open-is_open_example =
    is_open-is_open (codes "a") (50 ∷ []) skipped
      record { consecutive_failures = 2; open_until = some 40 } 40 40 60 refl refl (omega arith)
      (omega arith)

operate-other_example :
    (operate (failure 5 (codes "a")) closed).states (codes "b") ≡ closed.states (codes "b")
operate-other_example = operate-other (failure 5 (codes "a")) closed (codes "b") (λ e. ground arith)

routing_backoff_delay-bounds_example :
    (routing_backoff_delay none 1 (codes "a") policy ≤ policy.max_backoff_ms)
    × (min policy.base_delay_ms policy.max_backoff_ms
        ≤ routing_backoff_delay none 1 (codes "a") policy)
    × (routing_backoff_delay none 1 (codes "a") policy ≤ base_ms policy 1 + jitter_bound policy 1)
routing_backoff_delay-bounds_example =
    routing_backoff_delay-bounds none 1 (codes "a") policy refl (omega arith)

-- A store is the list of its profiles.
abbrev found : List Provider → Text → Option Provider
found [] x = none
found (p ∷ ps) x = if does (Text-discrete p.key x) then some p else found ps x

abbrev removed : List Provider → Text → List Provider
removed [] x = []
removed (p ∷ ps) x = if does (Text-discrete p.key x) then ps else p ∷ removed ps x

abbrev pub core : Core sample
core = record {
  secret_discrete = Ref-discrete;
  secret_custom_headers_ref = λ p. p.headers;
  proxy_auth_ref = λ p. p.proxy;
  client_certificate_identity_ref = λ p. p.certificate;
  profile_error = λ p m. codes "empty model";
  Manager = Text;
  active_profile_id = λ m. some m;
  manager_models = λ m. two_models;
  Storage = List Provider;
  provider_profile = λ s x. done (found s x);
  delete_provider_profile = λ s x. (removed s x, done (is_some (found s x)));
  save_and_activate_provider = λ s p. (p ∷ removed s p.key, done tt);
}

delete_saved_profile-done_example :
    (s : List Provider) × (p : Provider) × (some (alpha ∷ []) ≡ some s)
    × (core.provider_profile s (codes "a") ≡ done (some p))
    × ((core.delete_provider_profile s (codes "a")).1 ≡ done true)
    × ((delete_saved_profile sample core (some (alpha ∷ [])) (codes "a")).0
        ≡ some (core.delete_provider_profile s (codes "a")).0)
    × ((r : Ref) → count sample core r (Ref.persistent ∷ []) ≡ kept_count sample core p r)
unfolding delete_saved_profile persistent_refs Text-discrete Ref-discrete
delete_saved_profile-done_example =
    delete_saved_profile-done sample core (some (alpha ∷ [])) (codes "a") (Ref.persistent ∷ []) refl

abbrev chosen : Provider
chosen = record alpha { model = some (codes "m1") }

prepare_model_selection-done_example :
    (core.active_profile_id (codes "a") ≡ some (codes "a"))
    × (is_discovered sample (core.manager_models (codes "a")) (codes "m1") ≡ true)
    × ((p : Provider) × (some alpha ≡ some p)
        × (p.key ≡ codes "a")
        × (sample.with_selected_model p (some (codes "m1")) ≡ some chosen))
    × StoredWithModel sample core (some alpha) (some (alpha ∷ [])) (codes "m1") (
      (prepare_model_selection sample core
          (codes "a")
          (some alpha)
          (some alpha)
          (some (alpha ∷ []))
          (codes "a")
          (codes "m1")).0,
      some chosen,
    )
unfolding prepare_model_selection select_model Text-discrete
prepare_model_selection-done_example =
    prepare_model_selection-done sample core (codes "a") (some alpha) (some alpha)
      (some (alpha ∷ [])) (codes "a") (codes "m1") chosen (some chosen) refl

-- A store that keeps what it has, and refuses to save.
abbrev full : Core sample
full = record core { save_and_activate_provider = λ s p. (s, failed disk_error) }

prepare_model_selection_refused_example :
    let r =
      prepare_model_selection sample full
        (codes "a")
        (some alpha)
        (some alpha)
        (some (alpha ∷ []))
        (codes "a")
        (codes "m1") in
    (r.0 ≡ some (alpha ∷ []))
    ⊎ ((some (codes "a") ≡ some (codes "a"))
        × (is_discovered sample two_models (codes "m1") ≡ true)
        × ((p : Provider) × (u : Provider) × (some alpha ≡ some p)
            × (p.key ≡ codes "a")
            × (sample.with_selected_model p (some (codes "m1")) ≡ some u))
        × StoreFailed sample full (some alpha) (some (alpha ∷ [])) (codes "m1") disk_error r.0)
unfolding prepare_model_selection select_model Text-discrete
prepare_model_selection_refused_example =
    prepare_model_selection_refused sample full (codes "a") (some alpha) (some alpha)
      (some (alpha ∷ [])) (codes "a") (codes "m1") disk_error refl
