-- ===== src/Worker/Connect/Finished.antt =====
use linguamesh_linux.Domain.{Domain}
use linguamesh_linux.Worker.Storage.{Outcome, Core, done, failed, and_then, outcome_cases}
use linguamesh_linux.Worker.Connect.Finish.{
  Builder, finish_candidate_connection, save_profile, ConnectedCandidate, refs,
  profile_without_secret, confirmed_model, mapped, model_built,
}
use linguamesh_linux.Prelude.{
  Bool, Option, List, ◌≡◌, none, true, some, filter_some, false, if_cases, ◌∙◌, option_cases, ap,
  if◌then◌else◌, refl, subst,
}
use linguamesh_linux.Worker.Connect.Kept.{
  persistent_only, profile_without_secret-refs, model_built-refs, mapped_built,
}
use linguamesh_linux.Model.Connection.{is_discovered}
use linguamesh_linux.Prelude.Text.{Text}

-- src/worker.rs, `finish_candidate_connection`: the store and the result.

-- A property of the result, where there is one.
abbrev OnDone : {d : Domain} {A : Type 0} → (A → Type 0) → Outcome d A → Type 0
OnDone P (done a) = P a
OnDone P (failed e) = Unit

module _ {d : Domain} {c : Core d} (b : Builder d c) where
  -- What is saved of the profile `p`, from one store to another.
  abbrev pub Saved :
      Bool → d.Profile → Option c.Storage → Option c.Storage → Option d.Profile → Type 0
  Saved false p before after q = (q ≡ none) × (after ≡ before)
  Saved true p before after q =
      (s : c.Storage) × (saved : d.Profile) × (before ≡ some s)
      × (q ≡ some saved)
      × (refs c saved ≡ persistent_only (refs c p))
      × (after ≡ some (c.save_and_activate_provider s saved).0)

  save_profile-Saved :
      (cancellation : d.TranslationError) (cancelled_later : Bool) (p : d.Profile)
      (storage : Option c.Storage)
      → let v = save_profile b cancellation cancelled_later p storage in
        OnDone (Saved true p storage v.0) v.1
  save_profile-Saved cancellation cancelled_later p storage =
      let P = λ (v : Option c.Storage × Outcome d (Option d.Profile)).
        OnDone (Saved true p storage v.0) v.1 in
      outcome_cases P (profile_without_secret b p) (λ _ _. tt)
        λ saved f.
          if_cases P cancelled_later (λ _. tt)
            λ _.
              option_cases P storage (λ _. tt)
                λ s g.
                  stored s saved g (profile_without_secret-refs b p saved f)
                    (c.save_and_activate_provider s saved).1 refl
    where
      stored :
          (s : c.Storage) (saved : d.Profile)
          → storage ≡ some s
          → refs c saved ≡ persistent_only (refs c p)
          → (o : Outcome d (Unit {0})) → (c.save_and_activate_provider s saved).1 ≡ o
          → OnDone
              (Saved true p storage (some (c.save_and_activate_provider s saved).0))
              (and_then o λ _. done (some saved))
      stored s saved g r (done _) _ = (s, saved, g, refl, r, refl)
      stored s saved g r (failed _) _ = tt

  transferred :
      (persistent : Bool) (p runtime : d.Profile) (before after : Option c.Storage)
      (q : Option d.Profile)
      → refs c runtime ≡ refs c p
      → Saved persistent runtime before after q
      → Saved persistent p before after q
  transferred false p runtime before after q same g = g
  transferred true p runtime before after q same (s, saved, has, is, r, stored) =
      (s, saved, has, is, r ∙ ap persistent_only same, stored)

  abbrev Good :
      Option c.Storage
      → d.Profile
      → List d.Model
      → Bool
      → Option c.Storage
      → ConnectedCandidate d
      → Type 0
  Good after p models persistent before r =
      Saved persistent p before after r.saved_profile
      × (refs c r.runtime_profile ≡ refs c p)
      × (r.selected_model ≡ filter_some (λ m. is_discovered d models m) (d.profile_model p))

  -- What a connection that succeeds leaves. If it is to be kept for the session only, no profile is
  -- saved and the store is as before. If it is to be persistent, there is a store, in which Core has
  -- saved and activated a profile whose references to secrets are those of the connected profile that
  -- are persistent: no reference of the session is stored. In both cases the profile of the
  -- connection has the references of the connected profile, and the selected model is that of the
  -- connected profile if it was discovered, and else none.
  pub finish_candidate_connection-done :
      (cancellation : d.TranslationError) (cancelled_at_start cancelled_later : Bool)
      (p : d.Profile) (models : List d.Model) (persistent : Bool) (storage : Option c.Storage)
      (r : ConnectedCandidate d)
      → (finish_candidate_connection b cancellation cancelled_at_start cancelled_later p models
          persistent storage).1
        ≡ done r
      → Saved persistent p storage
          (finish_candidate_connection b cancellation cancelled_at_start cancelled_later p models
            persistent storage).0
          r.saved_profile
        × (refs c r.runtime_profile ≡ refs c p)
        × (r.selected_model ≡ filter_some (λ m. is_discovered d models m) (d.profile_model p))
  unfolding finish_candidate_connection
  finish_candidate_connection-done cancellation cancelled_at_start cancelled_later p models
        persistent storage r e =
      subst (OnDone (Good storage' p models persistent storage)) e whole
    where
      storage' : Option c.Storage
      storage' =
          (finish_candidate_connection b cancellation cancelled_at_start cancelled_later p models
            persistent storage).0

      model : Option Text
      model = confirmed_model b p models

      P : Option c.Storage × Outcome d (ConnectedCandidate d) → Type 0
      P v = OnDone (Good v.0 p models persistent storage) v.1

      result : d.Profile → Option d.Profile → ConnectedCandidate d
      result runtime q = record {
        runtime_profile = runtime;
        saved_profile = q;
        models = models;
        selected_model = model;
      }

      with_result :
          (runtime : d.Profile) (v : Option c.Storage × Outcome d (Option d.Profile))
          → refs c runtime ≡ refs c p
          → OnDone (Saved persistent runtime storage v.0) v.1
          → P (v.0, and_then v.1 λ q. done (result runtime q))
      with_result runtime (after, done q) same g =
          (transferred persistent p runtime storage after q same g, same, refl)
      with_result runtime (after, failed _) same g = tt

      saved_by :
          (keeps : Bool) (runtime : d.Profile)
          → (let v =
                (if keeps
                  then save_profile b cancellation cancelled_later runtime storage
                  else (storage, done none)) in
              OnDone (Saved keeps runtime storage v.0) v.1)
      saved_by true runtime = save_profile-Saved cancellation cancelled_later runtime storage
      saved_by false runtime = (refl, refl)

      whole : P (
          finish_candidate_connection b cancellation cancelled_at_start cancelled_later p models
            persistent storage)
      whole =
          if_cases P cancelled_at_start (λ _. tt)
            λ _.
              outcome_cases P (mapped b (model_built b model p)) (λ _ _. tt)
                λ runtime f.
                  with_result runtime
                    (if persistent
                      then save_profile b cancellation cancelled_later runtime storage
                      else (storage, done none))
                    (model_built-refs b model p runtime
                      (mapped_built b (model_built b model p) runtime f))
                    (saved_by persistent runtime)
