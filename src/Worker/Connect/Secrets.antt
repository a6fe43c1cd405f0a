-- ===== src/Worker/Connect/Secrets.antt =====
-- src/worker.rs, `connect_candidate`: where the secrets of the session go.
use linguamesh_linux.Prelude.{
  inl, inr, refl, ℕ, List, some, Bool, [], ◌∷◌, ◌≡◌, suc, ◌≤◌, arith, false, true, ◌⊎◌,
  if◌then◌else◌, does, is_some, All, if_cases, Option, none,
}
use linguamesh_linux.Domain.{Domain}
use linguamesh_linux.Worker.Storage.{Core}
use linguamesh_linux.Worker.Connect.{
  SecretRequest, SessionSecrets, Response, Ending, respond, answer_requests, take_secret, found,
  provide_secret, is_known_ref, reject_unavailable, connect_candidate,
  reject_secure_storage_unavailable, Connection, misses_ref, Resolution, without_session_secret,
  resolved, answer_with, missing, unreadable,
}

module _ (d : Domain) (c : Core d) (Secret : Type 0) where
  -- A secret of the session that belongs to a reference of the profile.
  abbrev pub Belongs : d.Profile → SessionSecrets Secret → d.SecretRef → Secret → Type 0
  Belongs p s r x =
      ((s.secret ≡ some x) × (d.secret_ref p ≡ some r))
      ⊎ ((s.secret_custom_headers ≡ some x) × (c.secret_custom_headers_ref p ≡ some r))
      ⊎ ((s.proxy_authentication ≡ some x) × (c.proxy_auth_ref p ≡ some r))
      ⊎ ((s.client_certificate_identity ≡ some x) × (c.client_certificate_identity_ref p ≡ some r))

  -- Core asked for the reference, and the secret store of the desktop answers with the secret.
  abbrev pub Found : List (SecretRequest d Secret) → d.SecretRef → Secret → Type 0
  Found [] r x = ⊥
  Found (q ∷ qs) r x = ((q.required ≡ r) × (q.resolution ≡ found x)) ⊎ Found qs r x

  abbrev pub Justified :
      Bool
      → d.Profile
      → SessionSecrets Secret
      → List (SecretRequest d Secret)
      → Response d Secret
      → Type 0
  Justified gui p s qs (provide_secret r x) =
      Belongs p s r x
      ⊎ ((gui ≡ true)
          × (d.is_persistent r ≡ true)
          × (is_known_ref d c Secret p r ≡ true)
          × Found qs r x)
  Justified gui p s qs _ = Unit

  -- The secrets that are left are among those before.
  respond-Belongs :
      (gui : Bool) (p : d.Profile) (q : SecretRequest d Secret) (s : SessionSecrets Secret)
      (r : d.SecretRef) (x : Secret)
      → Belongs p (respond d c Secret gui p q s).1 r x
      → Belongs p s r x
  unfolding respond
  respond-Belongs gui p q s r x b = ground arith

  take_secret-Belongs :
      (p : d.Profile) (r : d.SecretRef) (s : SessionSecrets Secret) (x : Secret)
      → is_known_ref d c Secret p r ≡ true
      → (take_secret d c Secret p r s).0 ≡ some x
      → Belongs p s r x
  take_secret-Belongs p r s x k e = ground arith

  resolved-Justified :
      (p : d.Profile) (q : SecretRequest d Secret) (s : SessionSecrets Secret)
      (a : Resolution Secret)
      → q.resolution ≡ a
      → is_known_ref d c Secret p q.required ≡ true
      → d.is_persistent q.required ≡ true
      → Justified true p s (q ∷ []) (resolved d c Secret q.required a)
  resolved-Justified p q s (found x) e k h = inr (refl, h, k, inl (refl, e))
  resolved-Justified p q s missing e k h = tt
  resolved-Justified p q s unreadable e k h = tt

  looked_up-Justified :
      (gui : Bool) (p : d.Profile) (q : SecretRequest d Secret) (s : SessionSecrets Secret)
      → is_known_ref d c Secret p q.required ≡ true
      → Justified gui p s (q ∷ []) (without_session_secret d c Secret gui q.required q.resolution)
  looked_up-Justified true p q s k =
      if_cases (Justified true p s (q ∷ [])) (d.is_persistent q.required)
        (λ h. resolved-Justified p q s q.resolution refl k h) (λ _. tt)
  looked_up-Justified false p q s k =
      if_cases (Justified false p s (q ∷ [])) (d.is_persistent q.required) (λ _. tt) (λ _. tt)

  answer_with-Justified :
      (gui : Bool) (p : d.Profile) (q : SecretRequest d Secret) (s : SessionSecrets Secret)
      (o : Option Secret)
      → (take_secret d c Secret p q.required s).0 ≡ o
      → is_known_ref d c Secret p q.required ≡ true
      → Justified gui p s (q ∷ []) (answer_with d c Secret gui q o)
  answer_with-Justified gui p q s none e k = looked_up-Justified gui p q s k
  answer_with-Justified gui p q s (some x) e k = inl (take_secret-Belongs p q.required s x k e)

  respond-Justified :
      (gui : Bool) (p : d.Profile) (q : SecretRequest d Secret) (s : SessionSecrets Secret)
      → Justified gui p s (q ∷ []) (respond d c Secret gui p q s).0
  unfolding respond
  respond-Justified gui p q s =
      if_cases (λ (r : Response d Secret × SessionSecrets Secret). Justified gui p s (q ∷ []) r.0)
        (is_known_ref d c Secret p q.required)
        (λ k. answer_with-Justified gui p q s (take_secret d c Secret p q.required s).0 refl k)
        (λ _. tt)

  -- A response that is justified by one request, or by the others with the secrets that are left.
  first-Justified :
      (gui : Bool) (p : d.Profile) (s : SessionSecrets Secret) (q : SecretRequest d Secret)
      (qs : List (SecretRequest d Secret)) (a : Response d Secret)
      → Justified gui p s (q ∷ []) a
      → Justified gui p s (q ∷ qs) a
  first-Justified gui p s q qs (provide_secret r x) (inl b) = inl b
  first-Justified gui p s q qs (provide_secret r x) (inr (g, k, i, inl f)) = inr (g, k, i, inl f)
  first-Justified gui p s q qs (provide_secret r x) (inr (g, k, i, inr f)) = absurd f
  first-Justified gui p s q qs (reject_unavailable r) j = tt
  first-Justified gui p s q qs (reject_secure_storage_unavailable r) j = tt

  later-Justified :
      (gui : Bool) (p : d.Profile) (s : SessionSecrets Secret) (q : SecretRequest d Secret)
      (qs : List (SecretRequest d Secret)) (a : Response d Secret)
      → Justified gui p (respond d c Secret gui p q s).1 qs a
      → Justified gui p s (q ∷ qs) a
  later-Justified gui p s q qs (provide_secret r x) (inl b) = inl (respond-Belongs gui p q s r x b)
  later-Justified gui p s q qs (provide_secret r x) (inr (g, k, i, f)) = inr (g, k, i, inr f)
  later-Justified gui p s q qs (reject_unavailable r) j = tt
  later-Justified gui p s q qs (reject_secure_storage_unavailable r) j = tt

  All-later :
      (gui : Bool) (p : d.Profile) (s : SessionSecrets Secret) (q : SecretRequest d Secret)
      (qs : List (SecretRequest d Secret)) (rs : List (Response d Secret))
      → All (Justified gui p (respond d c Secret gui p q s).1 qs) rs
      → All (Justified gui p s (q ∷ qs)) rs
  All-later gui p s q qs [] j = tt
  All-later gui p s q qs (a ∷ rs) (j, js) =
      (later-Justified gui p s q qs a j, All-later gui p s q qs rs js)

  -- How often a response provides a secret for a reference.
  abbrev pub provided : d.SecretRef → List (Response d Secret) → ℕ
  provided r [] = 0
  provided r (provide_secret x s ∷ rs) =
      if does (c.secret_discrete x r) then suc (provided r rs) else provided r rs
  provided r (_ ∷ rs) = provided r rs

  abbrev left : d.Profile → d.SecretRef → SessionSecrets Secret → ℕ
  left p r s = if is_some (take_secret d c Secret p r s).0 then 1 else 0

  respond-left :
      (gui : Bool) (p : d.Profile) (q : SecretRequest d Secret) (s : SessionSecrets Secret)
      (r : d.SecretRef) (rs : List (Response d Secret))
      → d.is_persistent r ≡ false
      → provided r rs ≤ left p r (respond d c Secret gui p q s).1
      → provided r ((respond d c Secret gui p q s).0 ∷ rs) ≤ left p r s
  unfolding respond
  respond-left gui p q s r rs session h = ground arith

  module _ (cancellation : d.TranslationError) (gui : Bool) (p : d.Profile) (e : Ending d c) where
    answer_requests-Justified :
        (qs : List (SecretRequest d Secret)) (s : SessionSecrets Secret)
        → All (Justified gui p s qs) (answer_requests d c Secret cancellation gui p qs e s).0
    unfolding answer_requests
    answer_requests-Justified [] s = tt
    answer_requests-Justified (q ∷ qs) s =
        if_cases
          (λ (r : List (Response d Secret) × Connection d c). All (Justified gui p s (q ∷ qs)) r.0)
          q.is_active
          (λ _. (
            first-Justified gui p s q qs _ (respond-Justified gui p q s),
            All-later gui p s q qs _
                (answer_requests-Justified qs (respond d c Secret gui p q s).1),
          ))
          (λ _.
            if_cases
              (λ (r : List (Response d Secret) × Connection d c).
                All (Justified gui p s (q ∷ qs)) r.0)
              q.is_cancelled (λ _. tt) (λ _. tt))

    provided-answer_requests :
        (qs : List (SecretRequest d Secret)) (s : SessionSecrets Secret) (r : d.SecretRef)
        → d.is_persistent r ≡ false
        → provided r (answer_requests d c Secret cancellation gui p qs e s).0 ≤ left p r s
    unfolding answer_requests
    provided-answer_requests [] s r h = omega arith
    provided-answer_requests (q ∷ qs) s r h =
        if_cases (λ (x : List (Response d Secret) × Connection d c). provided r x.0 ≤ left p r s)
          q.is_active
          (λ _.
            respond-left gui p q s r _ h
              (provided-answer_requests qs (respond d c Secret gui p q s).1 r h))
          (λ _.
            if_cases
              (λ (x : List (Response d Secret) × Connection d c). provided r x.0 ≤ left p r s)
              q.is_cancelled (λ _. omega arith) (λ _. omega arith))

    -- While a provider is connected, each secret that Core is given for a reference is the one of the
    -- session that belongs to this reference of the profile, or the one that the desktop's secret
    -- store has for it, which is asked only in a build with the GUI, and only for a persistent
    -- reference of the profile; and for a reference that is not persistent a secret is given once at
    -- most.
    pub connect_candidate-secrets :
        (qs : List (SecretRequest d Secret)) (s : SessionSecrets Secret)
        → All (Justified gui p s qs) (connect_candidate d c Secret cancellation gui p s qs e).0
          × ((r : d.SecretRef)
              → d.is_persistent r ≡ false
              → provided r (connect_candidate d c Secret cancellation gui p s qs e).0 ≤ 1)
    unfolding connect_candidate
    connect_candidate-secrets qs s =
        if_cases Safe (misses_ref d c Secret cancellation s.secret (d.secret_ref p))
          (λ _. (tt, silent))
          λ _.
            if_cases Safe
              (misses_ref d c Secret cancellation s.secret_custom_headers
                (c.secret_custom_headers_ref p))
              (λ _. (tt, silent))
              λ _.
                if_cases Safe
                  (misses_ref d c Secret cancellation s.proxy_authentication (c.proxy_auth_ref p))
                  (λ _. (tt, silent))
                  λ _.
                    if_cases Safe
                      (misses_ref d c Secret cancellation s.client_certificate_identity
                        (c.client_certificate_identity_ref p))
                      (λ _. (tt, silent))
                      λ _. (
                        answer_requests-Justified qs s,
                        λ r h. ground (arith, provided-answer_requests qs s r h),
                      )
      where
        Safe : List (Response d Secret) × Connection d c → Type 0
        Safe x =
            All (Justified gui p s qs) x.0
            × ((r : d.SecretRef) → d.is_persistent r ≡ false → provided r x.0 ≤ 1)

        silent : (r : d.SecretRef) → d.is_persistent r ≡ false → provided r [] ≤ 1
        silent r h = omega arith
