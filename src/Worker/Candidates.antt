-- ===== src/Worker/Candidates.antt =====
-- src/worker.rs: the start of a translation, and the connection of the candidates that take over
-- from a provider that fails.
use linguamesh_linux.Prelude.{
  ℕ, Option, none, List, Bool, not, false, [], does, if◌then◌else◌, ◌||◌,
}
use linguamesh_linux.Prelude.Text.{Text, codes, Text-discrete}
use linguamesh_linux.Domain.{
  Domain, invalid_configuration, model_unavailable, persistence, network, timeout,
  ErrorKind-discrete,
}
use linguamesh_linux.Worker.Storage.{Core, Outcome, done, failed, ok_or_else, and_then}
use linguamesh_linux.Worker.Connect.{connect_candidate, no_secrets}
use linguamesh_linux.Worker.Host.{Host, RoutingCandidate}
use linguamesh_linux.Model.Connection.{is_discovered}

pub record ActiveTranslation (d : Domain) (c : Core d) (h : Host d c) : Type 0 where
  pub operation : h.Operation
  pub request : d.Request
  pub output : Text
  pub fallback_profile_id : Option d.ProfileId
  pub fallback_model : Option Text
  pub fallback_attempted : Bool
  pub suppress_fallback_started : Bool
  pub next_sequence : ℕ
  pub routing_profile_id : Option Text
  pub routing_candidates : List RoutingCandidate
  pub routing_fallback_index : ℕ
  pub routing_provider_id : Option Text

module _ {d : Domain} {c : Core d} (h : Host d c) where
  abbrev started_with : h.Engine → d.Request → ActiveTranslation d c h
  started_with engine request = record {
    operation = h.translate engine request;
    request = request;
    output = [];
    fallback_profile_id = none;
    fallback_model = none;
    fallback_attempted = false;
    suppress_fallback_started = false;
    next_sequence = 0;
    routing_profile_id = none;
    routing_candidates = [];
    routing_fallback_index = 0;
    routing_provider_id = none;
  }

  unfoldable pub begin_translation :
      c.Manager → Option Text → d.Request → Outcome d (ActiveTranslation d c h)
  begin_translation manager selected_model request =
      and_then
        (ok_or_else (h.active_engine manager)
          (d.error_new invalid_configuration (codes "Connect a provider before translating.")))
        λ engine.
          and_then
            (ok_or_else selected_model
              (d.error_new model_unavailable (codes "Select a model before translating.")))
            λ model.
              if not (does (Text-discrete (h.request_model_id request) model))
              then failed (
                  d.error_new model_unavailable
                    (codes "The translation request does not use the confirmed model selection."))
              else done (started_with engine request)

  -- Only network and timeout errors make a candidate take over.
  unfoldable pub is_retryable_fallback : d.TranslationError → Bool
  is_retryable_fallback e =
      does (ErrorKind-discrete (d.kind e) network) || does (ErrorKind-discrete (d.kind e) timeout)

  -- `storage.provider_profile(..)?.ok_or_else(..)?`, without a store the first error.
  abbrev pub stored_profile :
      Option c.Storage → d.ProfileId → d.TranslationError → d.TranslationError → Outcome d d.Profile
  stored_profile storage profile_id unavailable gone =
      and_then (ok_or_else storage unavailable)
        λ s. and_then (c.provider_profile s profile_id) λ p. ok_or_else p gone

  -- The candidates are connected without secrets of a session.
  abbrev pub connect_saved : h.World → d.Profile → h.World × Outcome d (c.Manager × List d.Model)
  connect_saved w p =
      let (after, (requests, ending)) = h.connection w p in
      (
        after,
        (connect_candidate d c h.Secret h.cancelled_error h.gui p no_secrets requests ending).1,
      )

  -- The connected manager, if the model is among the discovered ones.
  abbrev pub with_available :
      Text → Text → d.Profile → c.Manager × List d.Model → Outcome d (c.Manager × d.Profile × Text)
  with_available message model p (manager, models) =
      if not (is_discovered d models model)
      then failed (d.error_new model_unavailable message)
      else done (manager, p, model)

  unfoldable pub connect_routing_candidate :
      h.World
      → Option c.Storage
      → RoutingCandidate
      → h.World × Outcome d (c.Manager × d.Profile × Text)
  connect_routing_candidate w storage candidate =
      elim (and_then
        (ok_or_else (h.parse_profile_id candidate.provider_id) (
          d.error_new invalid_configuration
            (codes "The routing candidate provider identifier is invalid.")))
        λ profile_id.
          stored_profile storage profile_id
            (d.error_new persistence (codes "Local routing profile storage is unavailable."))
            (d.error_new invalid_configuration
              (codes "The routing candidate provider profile is no longer saved."))) [
                | failed e ↦ (w, failed e)
                | done p ↦
                    let (after, connection) = connect_saved w p in
                    (
                      after,
                      and_then connection (
                          with_available
                            (codes
                              "The routing candidate model is not available from its provider.")
                            candidate.model_id p),
                    )
              ]

  -- The fallback profile and its model.
  abbrev pub fallback_choice : Option c.Storage → d.ProfileId → Outcome d (d.Profile × Text)
  fallback_choice storage profile_id =
      and_then
        (stored_profile storage profile_id
          (d.error_new invalid_configuration (codes "Saved fallback profiles are unavailable."))
          (d.error_new invalid_configuration
            (codes "The selected fallback profile is no longer saved.")))
        λ p.
          and_then
            (ok_or_else (d.profile_model p) (
              d.error_new model_unavailable
                (codes "Select a model for the approved fallback profile before translating.")))
            λ model. done (p, model)

  unfoldable pub connect_fallback_candidate :
      h.World → Option c.Storage → d.ProfileId → h.World × Outcome d (c.Manager × d.Profile × Text)
  connect_fallback_candidate w storage profile_id = elim (fallback_choice storage profile_id) [
    | failed e ↦ (w, failed e)
    | done (p, model) ↦
        let (after, connection) = connect_saved w p in
        (
          after,
          and_then connection (
              with_available
                (codes "The selected model is not available from the approved fallback provider.")
                model p),
        )
  ]
