-- ===== src/Worker/Storage/Selection.antt =====
-- src/worker.rs, `prepare_model_selection`: when a selection of a model is carried out.
use linguamesh_linux.Prelude.{
  Option, none, some, inl, inr, ◌≡◌, arith, true, refl, Option-cases, ◌⊎◌, subst,
}
use linguamesh_linux.Prelude.Text.{Text}
use linguamesh_linux.Domain.{Domain}
use linguamesh_linux.Worker.Storage.{
  Core, select_model, done, runtime_with_model, save_selection, prepare_model_selection,
  Outcome-cases, failed,
}
use linguamesh_linux.Model.Connection.{is_discovered}

module _ (d : Domain) (c : Core d) where
  -- The provider manager has the requested provider connected, with the model.
  pub select_model-done :
      (m : c.Manager) (requested : d.ProfileId) (model : Text)
      → select_model d c m requested model ≡ done tt
      → (c.active_profile_id m ≡ some requested)
        × (is_discovered d (c.manager_models m) model ≡ true)
  unfolding select_model
  select_model-done m requested model e = elim (Option-cases (c.active_profile_id m)) [
    | inl f ↦ ground arith
    | inr (x, f) ↦ ground arith
  ]

  runtime_with_model-done :
      (active : Option d.Profile) (requested : d.ProfileId) (model : Text) (u : d.Profile)
      → runtime_with_model d c active requested model ≡ done u
      → (p : d.Profile) × (active ≡ some p)
        × (d.id p ≡ requested)
        × (d.with_selected_model p (some model) ≡ some u)
  runtime_with_model-done none requested model u e = ground arith
  runtime_with_model-done (some p) requested model u e = (p, refl, ground arith, ground arith)

  -- What a selection does to the store and the saved profile.
  abbrev pub StoredWithModel :
      Option d.Profile → Option c.Storage → Text → Option c.Storage × Option d.Profile → Type 0
  StoredWithModel none storage model r = (r.0 ≡ storage) × (r.1 ≡ none)
  StoredWithModel (some q) storage model r =
      (s : c.Storage) × (v : d.Profile) × (storage ≡ some s)
      × (d.with_selected_model q (some model) ≡ some v)
      × ((c.save_and_activate_provider s v).1 ≡ done tt)
      × (r.0 ≡ some (c.save_and_activate_provider s v).0)
      × (r.1 ≡ some v)

  -- The store was asked to save the saved profile with the model, and gave the error.
  abbrev pub StoreFailed :
      Option d.Profile → Option c.Storage → Text → d.TranslationError → Option c.Storage → Type 0
  StoreFailed active_saved storage model error after =
      (q : d.Profile) × (s : c.Storage) × (v : d.Profile) × (active_saved ≡ some q)
      × (storage ≡ some s)
      × (d.with_selected_model q (some model) ≡ some v)
      × ((c.save_and_activate_provider s v).1 ≡ failed error)
      × (after ≡ some (c.save_and_activate_provider s v).0)

  save_selection-done :
      (active_saved : Option d.Profile) (storage : Option c.Storage) (model : Text)
      (saved : Option d.Profile)
      → (save_selection d c active_saved storage model).1 ≡ done saved
      → StoredWithModel active_saved storage model
          ((save_selection d c active_saved storage model).0, saved)
  save_selection-done none storage model saved e = ground arith
  save_selection-done (some q) none model saved e =
      elim (Option-cases (d.with_selected_model q (some model))) [
        | inl f ↦ ground arith
        | inr (v, f) ↦ ground arith
      ]
  save_selection-done (some q) (some s) model saved e =
      elim (Option-cases (d.with_selected_model q (some model))) [
        | inl f ↦ ground arith
        | inr (v, f) ↦ elim (Outcome-cases (c.save_and_activate_provider s v).1) [
          | inl (error, g) ↦ ground arith
          | inr (tt, g) ↦ (s, v, refl, f, g, ground arith, ground arith)
        ]
      ]

  -- A selection that is carried out: the provider manager has the requested provider connected with
  -- the model, the runtime profile is the connection's with the model, and the saved profile, if the
  -- connection has one, is written to the store with the model, which succeeds.
  pub prepare_model_selection-done :
      (m : c.Manager) (active active_saved : Option d.Profile) (storage : Option c.Storage)
      (requested : d.ProfileId) (model : Text) (u : d.Profile) (saved : Option d.Profile)
      → (prepare_model_selection d c m active active_saved storage requested model).1
        ≡ done (u, saved)
      → (c.active_profile_id m ≡ some requested)
        × (is_discovered d (c.manager_models m) model ≡ true)
        × ((p : d.Profile) × (active ≡ some p)
            × (d.id p ≡ requested)
            × (d.with_selected_model p (some model) ≡ some u))
        × StoredWithModel active_saved storage model
            ((prepare_model_selection d c m active active_saved storage requested model).0, saved)
  unfolding prepare_model_selection
  prepare_model_selection-done m active active_saved storage requested model u saved e =
      elim (Outcome-cases (select_model d c m requested model)) [
        | inl (error, f) ↦ ground arith
        | inr (tt, f) ↦ elim (Outcome-cases (runtime_with_model d c active requested model)) [
          | inl (error, g) ↦ ground arith
          | inr (p, g) ↦ elim (Outcome-cases (save_selection d c active_saved storage model).1) [
            | inl (error, h) ↦ ground arith
            | inr (v, h) ↦
                let (connected, found) = select_model-done m requested model f in
                (
                  connected,
                  found,
                  runtime_with_model-done active requested model u (ground arith),
                  subst (λ r. StoredWithModel active_saved storage model (r, saved)) (ground arith)
                      (save_selection-done active_saved storage model saved (ground arith)),
                )
          ]
        ]
      ]

  save_selection-failed :
      (active_saved : Option d.Profile) (storage : Option c.Storage) (model : Text)
      (error : d.TranslationError)
      → (save_selection d c active_saved storage model).1 ≡ failed error
      → ((save_selection d c active_saved storage model).0 ≡ storage)
        ⊎ StoreFailed active_saved storage model error
            (save_selection d c active_saved storage model).0
  save_selection-failed none storage model error e = ground arith
  save_selection-failed (some q) none model error e =
      elim (Option-cases (d.with_selected_model q (some model))) [
        | inl f ↦ inl (ground arith)
        | inr (v, f) ↦ inl (ground arith)
      ]
  save_selection-failed (some q) (some s) model error e =
      elim (Option-cases (d.with_selected_model q (some model))) [
        | inl f ↦ inl (ground arith)
        | inr (v, f) ↦ elim (Outcome-cases (c.save_and_activate_provider s v).1) [
          | inl (err, g) ↦ inr (q, s, v, refl, refl, f, ground arith, ground arith)
          | inr (tt, g) ↦ absurd (ground arith)
        ]
      ]

  -- A selection that fails, for whatever reason, leaves the store alone, or its error is the store's
  -- own: every check of the provider manager and of the runtime profile has passed, the store was
  -- asked to save the connection's saved profile with the model, and refused with that error.
  pub prepare_model_selection_refused :
      (m : c.Manager) (active active_saved : Option d.Profile) (storage : Option c.Storage)
      (requested : d.ProfileId) (model : Text) (error : d.TranslationError)
      → (prepare_model_selection d c m active active_saved storage requested model).1 ≡ failed error
      → ((prepare_model_selection d c m active active_saved storage requested model).0 ≡ storage)
        ⊎ ((c.active_profile_id m ≡ some requested)
            × (is_discovered d (c.manager_models m) model ≡ true)
            × ((p : d.Profile) × (u : d.Profile) × (active ≡ some p)
                × (d.id p ≡ requested)
                × (d.with_selected_model p (some model) ≡ some u))
            × StoreFailed active_saved storage model error
                (prepare_model_selection d c m active active_saved storage requested model).0)
  unfolding prepare_model_selection
  prepare_model_selection_refused m active active_saved storage requested model error e =
      elim (Outcome-cases (select_model d c m requested model)) [
        | inl (err, f) ↦ inl (ground arith)
        | inr (tt, f) ↦ elim (Outcome-cases (runtime_with_model d c active requested model)) [
          | inl (err, g) ↦ inl (ground arith)
          | inr (u, g) ↦
              let (connected, found) = select_model-done m requested model f in
              let (p, at, same, with_it) = runtime_with_model-done active requested model u g in
              elim (Outcome-cases (save_selection d c active_saved storage model).1) [
                | inr (v, h) ↦ absurd (ground arith)
                | inl (err, h) ↦
                    elim (save_selection-failed active_saved storage model error (ground arith)) [
                      | inl kept ↦ inl (ground arith)
                      | inr asked ↦ inr (
                        connected,
                        found,
                        (p, u, at, same, with_it),
                        subst (StoreFailed active_saved storage model error) (ground arith) asked,
                      )
                    ]
              ]
        ]
      ]
