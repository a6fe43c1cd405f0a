-- ===== src/Worker/Documents/Routed.antt =====
use linguamesh_linux.Prelude.{
  Option, List, ℕ, ◌∷◌, Bool, map, ◌⊎◌, ◌++◌, length, if◌then◌else◌, [], not, some, inl, inr, true,
  false,
}
use linguamesh_linux.Worker.Host.{RoutingCandidate, Host}
use linguamesh_linux.Domain.{Domain, invalid_configuration}
use linguamesh_linux.Prelude.Text.{Text, codes}
use linguamesh_linux.Worker.Storage.{Core, Outcome, failed, and_then, done, ok_or_else}
use linguamesh_linux.Worker.Documents.{
  ActiveDocumentTranslation, DocumentCore, DocumentTranslationOptions,
}
use linguamesh_linux.Worker.Documents.Segment.{pending_segment, begin_document_segment}
use linguamesh_linux.Worker.Documents.Start.{chain, known_job, is_allowed}
use linguamesh_linux.Worker.Candidates.{connect_routing_candidate}
use linguamesh_linux.Worker.Relay.Attempts.{joined_at, utf8_bytes}

-- src/worker.rs: the start of the translation of a document job with the provider that a routing
-- profile selects, and the choice between that and the saved options.

-- `RoutingContext`, `RoutingDecision` and what the worker uses of LinguaMesh Core for routing. A
-- rejection is its candidate and the text of its reason, a rank its candidate and the texts of its
-- scores.
pub record RoutingContext : Type 0 where
  pub source_locale : Option Text
  pub target_locale : Text
  pub request_bytes : ℕ
  pub require_streaming : Bool
  pub require_document : Bool
  pub privacy_sensitive : Bool

pub record RoutingDecision : Type 0 where
  pub selected : RoutingCandidate
  pub eligible_candidates : List RoutingCandidate
  pub rejected_candidates : List (RoutingCandidate × Text)
  pub ranking : List (RoutingCandidate × List Text)
  pub fallback_order : List RoutingCandidate

pub record RoutingCore (d : Domain) (c : Core d) : Type 1 where
  pub RoutingProfile : Type 0
  pub routing_profile : c.Storage → Text → Outcome d (Option RoutingProfile)
  pub select : RoutingProfile → RoutingContext → Text ⊎ RoutingDecision

pub record RoutingDecisionDetails : Type 0 where
  pub eligible_candidates : List Text
  pub rejected_candidates : List Text
  pub ranking_inputs : List Text
  pub fallback_order : List Text

pub record RoutedDocumentStart (d : Domain) (c : Core d) (h : Host d c) : Type 0 where
  pub translation : ActiveDocumentTranslation d c h
  pub manager : c.Manager
  pub profile : d.Profile
  pub profile_id : Text
  pub provider_id : Text
  pub model_id : Text
  pub eligible_count : ℕ
  pub rejected_count : ℕ
  pub decision_details : RoutingDecisionDetails

-- `[..].join(",")`.
unfoldable pub joined_by_comma : List Text → Text
joined_by_comma [] = []
joined_by_comma (x ∷ []) = x
joined_by_comma (x ∷ y ∷ xs) = let rest = joined_by_comma (y ∷ xs) in x ++ codes "," ++ rest

module _ {d : Domain} {c : Core d} (h : Host d c) where
  abbrev rejection_text : RoutingCandidate × Text → Text
  rejection_text (x, reason) = h.candidate_key x ++ codes " (" ++ reason ++ codes ")"

  abbrev rank_text : RoutingCandidate × List Text → Text
  rank_text (x, scores) = h.candidate_key x ++ codes " [" ++ joined_by_comma scores ++ codes "]"

  unfoldable pub from_decision : RoutingDecision → RoutingDecisionDetails
  unfolding joined_by_comma
  from_decision decision = record {
    eligible_candidates = map h.candidate_key decision.eligible_candidates;
    rejected_candidates = map rejection_text decision.rejected_candidates;
    ranking_inputs = map rank_text decision.ranking;
    fallback_order = map h.candidate_key decision.fallback_order;
  }

module _ {d : Domain} {c : Core d} (h : Host d c) (k : DocumentCore d c) (r : RoutingCore d c) where
  abbrev refuse : {A : Type 0} → Text → Outcome d A
  refuse message = failed (d.error_new invalid_configuration message)

  -- The number of bytes of the first segment that is to be translated.
  abbrev pub request_size : k.Job → Outcome d ℕ
  request_size job =
      and_then
        (ok_or_else (pending_segment (k.segments job)) (
          d.error_new invalid_configuration
            (codes "The document job has no pending prose segment.")))
        λ segment. elim (k.translation_source_text job segment.index) [
          | inl message ↦ refuse message
          | inr text ↦ done (length (utf8_bytes text))
        ]

  -- The decision of the routing profile for the job.
  abbrev pub routing_decision :
      c.Storage → Text → DocumentTranslationOptions d → Text → Bool → Outcome d RoutingDecision
  routing_decision storage job_id o routing_profile_id retry =
      and_then (r.routing_profile storage routing_profile_id) λ found.
        and_then
          (ok_or_else found (
            d.error_new invalid_configuration
              (codes "The selected routing profile no longer exists.")))
          λ profile. and_then (known_job h k storage job_id) λ snapshot.
            if not (is_allowed h k retry (k.state snapshot))
            then refuse (codes "The document job is not ready to translate.")
            else and_then (request_size (k.job snapshot)) λ bytes.
              elim (r.select profile record {
                source_locale = o.source_locale;
                target_locale = o.target_locale;
                request_bytes = bytes;
                require_streaming = true;
                require_document = true;
                privacy_sensitive = false;
              }) [ inl message ↦ refuse message | inr decision ↦ done decision ]

  -- The start with the connection of the selected candidate, where the options are saved first.
  abbrev pub start_selected :
      c.Storage
      → Text
      → DocumentTranslationOptions d
      → Text
      → RoutingDecision
      → c.Manager × d.Profile × Text
      → c.Storage × Outcome d (ActiveDocumentTranslation d c h)
  start_selected storage job_id o routing_profile_id decision (manager, profile, model_id) =
      chain h k
        (k.save_document_job_options storage job_id record {
          source_locale = o.source_locale;
          target_locale = o.target_locale;
          model_id = model_id;
          provider_id = d.as_str (d.id profile);
          routing_profile_id = some routing_profile_id;
          quality_mode = o.quality_mode;
          translation_preset = o.translation_preset;
          glossary = o.glossary;
        })
        λ s _. chain h k (k.set_document_job_state s job_id k.job_running) λ s running. (
          s,
          begin_document_segment h k manager (some profile) (some model_id) job_id (k.job running)
              record o {
                provider_identity =
                    some (joined_at decision.selected.provider_id decision.selected.model_id);
              },
        )

  -- Where the start fails, the job is pending again.
  abbrev pub routed_start :
      Text
      → Text
      → RoutingDecision
      → c.Manager × d.Profile × Text
      → c.Storage × Outcome d (ActiveDocumentTranslation d c h)
      → c.Storage × Outcome d (RoutedDocumentStart d c h)
  routed_start job_id routing_profile_id decision (manager, profile, model_id) (s, done t) = (
    s,
    done record {
      translation = t;
      manager = manager;
      profile = profile;
      profile_id = routing_profile_id;
      provider_id = decision.selected.provider_id;
      model_id = model_id;
      eligible_count = length decision.eligible_candidates;
      rejected_count = length decision.rejected_candidates;
      decision_details = from_decision h decision;
    },
  )
  routed_start job_id routing_profile_id decision connection (s, failed e) =
      ((k.set_document_job_state s job_id k.job_pending).0, failed e)

  unfoldable pub start_routed_document_job_translation :
      h.World
      → c.Storage
      → Text
      → DocumentTranslationOptions d
      → Text
      → Bool
      → h.World × (c.Storage × Outcome d (RoutedDocumentStart d c h))
  unfolding from_decision
  start_routed_document_job_translation w storage job_id o routing_profile_id retry =
      if d.is_incognito_mode o.privacy_mode
      then (w, (storage, refuse (codes "Incognito mode cannot persist document job progress.")))
      else elim (routing_decision storage job_id o routing_profile_id retry) [
        | failed e ↦ (w, (storage, failed e))
        | done decision ↦
            let connection = connect_routing_candidate h w (some storage) decision.selected in
            (
              connection.0,
              elim connection.1 [
                | failed e ↦ (storage, failed e)
                | done x ↦
                    routed_start job_id routing_profile_id decision x
                      (start_selected storage job_id o routing_profile_id decision x)
              ],
            )
      ]
