-- ===== src/Worker/Documents/MapBounds.antt =====
-- src/worker.rs, `active_documents`: the changes of the map keep its bounds.
use linguamesh_linux.Domain.{Domain}
use linguamesh_linux.Worker.Storage.{Core, done}
use linguamesh_linux.Worker.Host.{Host}
use linguamesh_linux.Worker.Documents.{
  ActiveDocumentTranslation, get_document, activate_document_translation,
  ensure_document_job_capacity, remove_document, has_job, max_active_document_jobs,
}
use linguamesh_linux.Worker.Documents.Commands.{modify_document}
use linguamesh_linux.Prelude.Text.{Text}
use linguamesh_linux.Prelude.{
  List, ◌≡◌, none, length, map, some, ◌∷◌, subst, if◌then◌else◌, arith, sym, [], if_cases, refl,
  ◌<◌,
}
use linguamesh_linux.Worker.Documents.Jobs.{
  UniqueJobs, Bounded, length-remove, length-remove_present, remove-Unique, get-remove,
}

module _ {d : Domain} {c : Core d} {h : Host d c} where
  -- A function that leaves the job of an entry as it is.
  abbrev pub KeepsJob : (ActiveDocumentTranslation d c h → ActiveDocumentTranslation d c h) → Type 0
  KeepsJob f = (t : ActiveDocumentTranslation d c h) → (f t).job_id ≡ t.job_id

  get-map :
      (f : ActiveDocumentTranslation d c h → ActiveDocumentTranslation d c h)
      → KeepsJob f
      → (x : Text) (ts : List (ActiveDocumentTranslation d c h)) → get_document x ts ≡ none
      → get_document x (map f ts) ≡ none
  unfolding get_document
  get-map f keeps x [] e = refl
  get-map f keeps x (t ∷ ts) e = rw (keeps t) (ground (arith, get-map f keeps x ts))

  map-Unique :
      (f : ActiveDocumentTranslation d c h → ActiveDocumentTranslation d c h)
      → KeepsJob f
      → (ts : List (ActiveDocumentTranslation d c h)) → UniqueJobs ts
      → UniqueJobs (map f ts)
  map-Unique f keeps [] u = tt
  map-Unique f keeps (t ∷ ts) (n, u) =
      (rw (keeps t) (get-map f keeps t.job_id ts n), map-Unique f keeps ts u)

  length-map :
      (f : ActiveDocumentTranslation d c h → ActiveDocumentTranslation d c h)
      (ts : List (ActiveDocumentTranslation d c h))
      → length (map f ts) ≡ length ts
  length-map f [] = refl
  length-map f (t ∷ ts) = ground (arith, length-map f ts)

  -- `get_mut` changes one entry, as a map over all does.
  modify_map :
      (x : Text) (f : ActiveDocumentTranslation d c h → ActiveDocumentTranslation d c h)
      (ts : List (ActiveDocumentTranslation d c h))
      → modify_document x f ts ≡ map (λ t. if has_job x t then f t else t) ts
  unfolding modify_document
  modify_map x f [] = refl
  modify_map x f (t ∷ ts) = rw (modify_map x f ts) refl

  pub map-Bounded :
      (f : ActiveDocumentTranslation d c h → ActiveDocumentTranslation d c h)
      → KeepsJob f
      → (ts : List (ActiveDocumentTranslation d c h)) → Bounded ts
      → Bounded (map f ts)
  map-Bounded f keeps ts (b, u) = (rw (length-map f ts) b, map-Unique f keeps ts u)

  pub modify-Bounded :
      (x : Text) (f : ActiveDocumentTranslation d c h → ActiveDocumentTranslation d c h)
      → KeepsJob f
      → (ts : List (ActiveDocumentTranslation d c h)) → Bounded ts
      → Bounded (modify_document x f ts)
  modify-Bounded x f keeps ts b = subst Bounded (sym (modify_map x f ts)) (
      map-Bounded (λ t. if has_job x t then f t else t)
        (λ t.
          if_cases (λ (v : ActiveDocumentTranslation d c h). v.job_id ≡ t.job_id) (has_job x t)
            (λ _. keeps t) (λ _. refl))
        ts b)

  pub remove-Bounded :
      (x : Text) (ts : List (ActiveDocumentTranslation d c h))
      → Bounded ts
      → Bounded (remove_document x ts)
  remove-Bounded x ts (b, u) = (omega (arith, length-remove x ts, b), remove-Unique x ts u)

  -- A running job is put back under its key.
  pub put_back-Bounded :
      (x : Text) (ts : List (ActiveDocumentTranslation d c h))
      (t v : ActiveDocumentTranslation d c h)
      → get_document x ts ≡ some t
      → v.job_id ≡ x
      → Bounded ts
      → Bounded (v ∷ remove_document x ts)
  put_back-Bounded x ts t v e key (b, u) = (
    omega (arith, length-remove_present x ts t e, b),
    (rw key (get-remove x ts), remove-Unique x ts u),
  )

  pub activated :
      (t : ActiveDocumentTranslation d c h) (ts us : List (ActiveDocumentTranslation d c h))
      → activate_document_translation t ts ≡ done us
      → (length ts < max_active_document_jobs) × (get_document t.job_id ts ≡ none) × (us ≡ t ∷ ts)
  unfolding activate_document_translation ensure_document_job_capacity
  activated t ts us e = ground arith
