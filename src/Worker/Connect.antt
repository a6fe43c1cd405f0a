-- ===== src/Worker/Connect.antt =====
-- src/worker.rs: how the worker connects a provider. The `select!` loop of `connect_candidate` is a
-- function of what happens during the connection: the secrets that Core requests, and how it ends.
pub mod Secrets
pub mod Finish
pub mod Kept
pub mod Finished
use linguamesh_linux.Prelude.{
  ℕ, List, Option, none, some, not, Bool, true, false, is_some_and, ◌∷◌, is_some, [], if◌then◌else◌,
  ◌||◌, does, ◌&&◌,
}
use linguamesh_linux.Prelude.Text.{Text, codes}
use linguamesh_linux.Domain.{
  Domain, invalid_configuration, cancelled, model_unavailable, secret_unavailable, persistence,
}
use linguamesh_linux.Worker.Storage.{Core, Outcome, done, failed, ok_or_else, and_then}

-- The secret store of the desktop, asked for a persistent reference (src/secret_service.rs).
pub data Resolution (Secret : Type 0) : Type 0 where
  found : Secret → Resolution Secret
  missing : Resolution Secret
  unreadable : Resolution Secret

-- A request of Core for a secret: what it is for, what the secret store answers, whether Core still
-- takes the response, and whether the connection is cancelled by then.
pub record SecretRequest (d : Domain) (Secret : Type 0) : Type 0 where
  pub required : d.SecretRef
  pub resolution : Resolution Secret
  pub is_active : Bool
  pub is_cancelled : Bool

-- What the worker answers to a request.
pub data Response (d : Domain) (Secret : Type 0) : Type 0 where
  provide_secret : d.SecretRef → Secret → Response d Secret
  reject_unavailable : d.SecretRef → Response d Secret
  reject_secure_storage_unavailable : d.SecretRef → Response d Secret

-- How a connection ends, when all requests before that are answered: by cancellation, because the
-- channel of the requests closes, or with the result of Core.
pub data Ending (d : Domain) (c : Core d) : Type 0 where
  cancelled_first : Ending d c
  channel_closed : Ending d c
  connected : Outcome d (c.Manager × List d.Model) → Ending d c

-- The manager with the connection and the models, or the error. The manager of a connection that
-- fails is not used any more.
abbrev pub Connection : (d : Domain) → Core d → Type 0
Connection d c = Outcome d (c.Manager × List d.Model)

-- The secrets of the session that a command carries; each is taken at most once.
pub record SessionSecrets (Secret : Type 0) : Type 0 where
  pub secret : Option Secret
  pub secret_custom_headers : Option Secret
  pub proxy_authentication : Option Secret
  pub client_certificate_identity : Option Secret

abbrev pub no_secrets : {Secret : Type 0} → SessionSecrets Secret
no_secrets = record {
  secret = none;
  secret_custom_headers = none;
  proxy_authentication = none;
  client_certificate_identity = none;
}

module _ (d : Domain) (c : Core d) (Secret : Type 0) where
  abbrev pub is_ref : Option d.SecretRef → d.SecretRef → Bool
  is_ref o r = is_some_and o (λ x. does (c.secret_discrete x r))

  -- The secret for a reference of the profile, and the secrets that are left.
  abbrev pub take_secret :
      d.Profile → d.SecretRef → SessionSecrets Secret → Option Secret × SessionSecrets Secret
  take_secret p r s =
      if is_ref (d.secret_ref p) r
      then (s.secret, record s { secret = none })
      else if is_ref (c.secret_custom_headers_ref p) r
      then (s.secret_custom_headers, record s { secret_custom_headers = none })
      else if is_ref (c.proxy_auth_ref p) r
      then (s.proxy_authentication, record s { proxy_authentication = none })
      else (s.client_certificate_identity, record s { client_certificate_identity = none })

  abbrev pub is_known_ref : d.Profile → d.SecretRef → Bool
  is_known_ref p r =
      is_ref (d.secret_ref p) r
      || is_ref (c.secret_custom_headers_ref p) r
      || is_ref (c.proxy_auth_ref p) r
      || is_ref (c.client_certificate_identity_ref p) r

  abbrev pub resolved : d.SecretRef → Resolution Secret → Response d Secret
  resolved r (found s) = provide_secret r s
  resolved r missing = reject_unavailable r
  resolved r unreadable = reject_secure_storage_unavailable r

  -- With the feature `gui` a persistent secret is looked up, without it none is.
  abbrev pub without_session_secret : Bool → d.SecretRef → Resolution Secret → Response d Secret
  without_session_secret gui r answer =
      if d.is_persistent r
      then (if gui then resolved r answer else reject_secure_storage_unavailable r)
      else reject_unavailable r

  abbrev pub answer_with : Bool → SecretRequest d Secret → Option Secret → Response d Secret
  answer_with gui q (some s) = provide_secret q.required s
  answer_with gui q none = without_session_secret gui q.required q.resolution

  -- One request: the response, and the secrets that are left.
  unfoldable pub respond :
      Bool
      → d.Profile
      → SecretRequest d Secret
      → SessionSecrets Secret
      → Response d Secret × SessionSecrets Secret
  respond gui p q s =
      if is_known_ref p q.required
      then (answer_with gui q (take_secret p q.required s).0, (take_secret p q.required s).1)
      else (reject_unavailable q.required, s)

  -- `TranslationError::cancelled()` is a parameter, since Core words it.
  module _ (cancellation : d.TranslationError) where
    abbrev pub ended : Ending d c → Connection d c
    ended cancelled_first = failed cancellation
    ended channel_closed =
        failed (d.error_new secret_unavailable (codes "The host secret request channel closed."))
    ended (connected o) = o

    -- The loop: the responses, and the result.
    unfoldable pub answer_requests :
        Bool
        → d.Profile
        → List (SecretRequest d Secret)
        → Ending d c
        → SessionSecrets Secret
        → List (Response d Secret) × Connection d c
    unfolding respond
    answer_requests gui p [] e s = ([], ended e)
    answer_requests gui p (q ∷ qs) e s =
        let rest = answer_requests gui p qs e (respond gui p q s).1 in
        if q.is_active
        then ((respond gui p q s).0 ∷ rest.0, rest.1)
        else if q.is_cancelled
        then ([], failed cancellation)
        else (
          [],
          failed (
              d.error_new secret_unavailable
                (codes "The Core secret request was no longer active.")),
        )

    abbrev pub misses_ref : Option Secret → Option d.SecretRef → Bool
    misses_ref s r = is_some s && not (is_some r)

    abbrev pub refused_with : Text → List (Response d Secret) × Connection d c
    refused_with message = ([], failed (d.error_new invalid_configuration message))

    unfoldable pub connect_candidate :
        Bool
        → d.Profile
        → SessionSecrets Secret
        → List (SecretRequest d Secret)
        → Ending d c
        → List (Response d Secret) × Connection d c
    unfolding answer_requests
    connect_candidate gui p s requests e =
        if misses_ref s.secret (d.secret_ref p)
        then refused_with
            (codes "A session credential requires an explicit session secret reference.")
        else if misses_ref s.secret_custom_headers (c.secret_custom_headers_ref p)
        then refused_with
            (codes "Session custom headers require an explicit session secret reference.")
        else if misses_ref s.proxy_authentication (c.proxy_auth_ref p)
        then refused_with
            (codes "Session proxy credentials require an explicit session secret reference.")
        else if misses_ref s.client_certificate_identity (c.client_certificate_identity_ref p)
        then refused_with (
            codes
              "Session client certificate identity requires an explicit session secret reference.")
        else answer_requests gui p requests e s
