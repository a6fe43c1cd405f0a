-- ===== src/Worker/Documents/Jobs.antt =====
use linguamesh_linux.Domain.{Domain}
use linguamesh_linux.Worker.Storage.{Core}
use linguamesh_linux.Worker.Host.{Host}
use linguamesh_linux.Worker.Documents.{
  ActiveDocumentTranslation, get_document, remove_document, max_active_document_jobs, has_job,
}
use linguamesh_linux.Prelude.{
  List, ◌∷◌, length, if_cases, ◌≡◌, ◌≤◌, ◌≢◌, none, some, arith, [], ◌<◌, refl, if◌then◌else◌, does,
  subst, sym, ◌∙◌,
}
use linguamesh_linux.Prelude.Text.{Text, Text-discrete}
-- src/worker.rs, `active_documents`: the map of the running document jobs.
use mathlib.Core.Option.{some-injective}

module _ {d : Domain} {c : Core d} {h : Host d c} where
  -- No job runs twice, and there are not more than the worker allows.
  abbrev pub UniqueJobs : List (ActiveDocumentTranslation d c h) → Type 0
  UniqueJobs [] = Unit
  UniqueJobs (t ∷ ts) = (get_document t.job_id ts ≡ none) × UniqueJobs ts

  abbrev pub Bounded : List (ActiveDocumentTranslation d c h) → Type 0
  Bounded ts = (length ts ≤ max_active_document_jobs) × UniqueJobs ts

  pub get_document-key :
      (x : Text) (ts : List (ActiveDocumentTranslation d c h)) (t : ActiveDocumentTranslation d c h)
      → get_document x ts ≡ some t
      → t.job_id ≡ x
  unfolding get_document
  get_document-key x [] t e = absurd (ground arith)
  get_document-key x (u ∷ ts) t e =
      elim (Text-discrete u.job_id x)
          as (λ b. (if does b then some u else get_document x ts) ≡ some t → t.job_id ≡ x) [
            | yes p ↦ λ f. subst (λ v. v.job_id ≡ x) (some-injective u t f) p
            | no n ↦ get_document-key x ts t
          ]
        e

  pub get-remove :
      (x : Text) (ts : List (ActiveDocumentTranslation d c h))
      → get_document x (remove_document x ts) ≡ none
  unfolding get_document remove_document
  get-remove x [] = refl
  get-remove x (u ∷ ts) =
      if_cases (λ v. get_document x v ≡ none) (has_job x u) {x = remove_document x ts}
        {y = u ∷ remove_document x ts} (λ _. get-remove x ts) (λ f. rw f (get-remove x ts))

  pub get-remove_other :
      (x y : Text) (ts : List (ActiveDocumentTranslation d c h))
      → x ≢ y
      → get_document y (remove_document x ts) ≡ get_document y ts
  unfolding get_document remove_document
  get-remove_other x y [] n = refl
  get-remove_other x y (u ∷ ts) n =
      elim (Text-discrete u.job_id x)
        as (λ b.
          get_document y (if does b then remove_document x ts else u ∷ remove_document x ts)
          ≡ (if has_job y u then some u else get_document y ts)) [
            | yes p ↦
                elim (Text-discrete u.job_id y)
                  as (λ b.
                    get_document y (remove_document x ts)
                    ≡ (if does b then some u else get_document y ts)) [
                      | yes q ↦ absurd (n (sym p ∙ q))
                      | no _ ↦ get-remove_other x y ts n
                    ]
            | no m ↦ rw (get-remove_other x y ts n) refl
          ]

  remove_absent :
      (x y : Text) (ts : List (ActiveDocumentTranslation d c h))
      → get_document y ts ≡ none
      → get_document y (remove_document x ts) ≡ none
  unfolding get_document remove_document
  remove_absent x y [] e = refl
  remove_absent x y (u ∷ ts) e = ground (arith, remove_absent x y ts)

  pub remove-Unique :
      (x : Text) (ts : List (ActiveDocumentTranslation d c h))
      → UniqueJobs ts
      → UniqueJobs (remove_document x ts)
  unfolding remove_document
  remove-Unique x [] u = tt
  remove-Unique x (t ∷ ts) (n, u) =
      if_cases UniqueJobs (has_job x t) (λ _. remove-Unique x ts u)
        (λ _. (remove_absent x t.job_id ts n, remove-Unique x ts u))

  pub length-remove :
      (x : Text) (ts : List (ActiveDocumentTranslation d c h))
      → length (remove_document x ts) ≤ length ts
  unfolding remove_document
  length-remove x [] = omega arith
  length-remove x (t ∷ ts) = ground (arith, length-remove x ts)

  pub length-remove_present :
      (x : Text) (ts : List (ActiveDocumentTranslation d c h)) (t : ActiveDocumentTranslation d c h)
      → get_document x ts ≡ some t
      → length (remove_document x ts) < length ts
  unfolding remove_document get_document
  length-remove_present x [] t e = absurd (ground arith)
  length-remove_present x (u ∷ ts) t e =
      ground (arith, length-remove x ts, length-remove_present x ts t)

  pub get-head :
      (x : Text) (t : ActiveDocumentTranslation d c h) (ts : List (ActiveDocumentTranslation d c h))
      → t.job_id ≡ x
      → get_document x (t ∷ ts) ≡ some t
  unfolding get_document
  get-head x t ts e = rw e (ground arith)

  pub get-tail :
      (x : Text) (t : ActiveDocumentTranslation d c h) (ts : List (ActiveDocumentTranslation d c h))
      → t.job_id ≢ x
      → get_document x (t ∷ ts) ≡ get_document x ts
  unfolding get_document
  get-tail x t ts n =
      elim (Text-discrete t.job_id x)
        as (λ b. (if does b then some t else get_document x ts) ≡ get_document x ts) [
          | yes p ↦ absurd (n p)
          | no _ ↦ refl
        ]
