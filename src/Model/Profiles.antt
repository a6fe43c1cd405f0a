-- ===== src/Model/Profiles.antt =====
-- src/model.rs, the list of saved profiles: lookup, the sorted order, insertion, and the
-- comparison that leaves the secret out.
pub mod Lookup
pub mod Unique
pub mod Kept
pub mod Sorted
pub mod Secrets
use Prim.Native.Nat.{Ordering}
use linguamesh_linux.Prelude.{
  ℕ, Bool, true, false, not, ◌&&◌, ◌||◌, any, is_some, is_some_and, List, [], ◌∷◌, ◌++◌, Option,
  none, some, does, position, set, if◌then◌else◌,
}
use linguamesh_linux.Prelude.Text.{Text, Text-discrete, text_cmp, then_with}
use linguamesh_linux.Domain.{Domain}

-- `Ordering::is_le`, by which a stable sort decides that two neighbours are in order.
abbrev pub is_le : Ordering → Bool
is_le Ordering.lt = true
is_le Ordering.eq = true
is_le Ordering.gt = false

unfoldable pub Bool-discrete : Discrete Bool
Bool-discrete = hlevel

unfoldable pub Model-discrete : Discrete (Option Text)
unfolding Text-discrete
Model-discrete = hlevel Text-discrete

-- `!set.insert(x)` on a `HashSet`, as the list of what was inserted before.
abbrev pub contains : List Text → Text → Bool
contains seen x = any (λ y. does (Text-discrete y x)) seen

module _ (d : Domain) where
  open d use {
    ProfileId, id_discrete, as_str, Profile, id, secret_ref, is_persistent, display_name, preset_id,
    adapter_discrete, adapter_type, base_endpoint, enabled, profile_model,
  }

  abbrev pub same_id : ProfileId → ProfileId → Bool
  same_id x y = does (id_discrete x y)

  -- `iter().find(|profile| profile.id() == profile_id)`.
  unfoldable pub saved_profile_by_id : List Profile → ProfileId → Option Profile
  saved_profile_by_id [] x = none
  saved_profile_by_id (p ∷ ps) x = if same_id (id p) x then some p else saved_profile_by_id ps x

  -- The key of the sort: the display name, then the identifier.
  unfoldable pub profile_cmp : Profile → Profile → Ordering
  profile_cmp p q =
      then_with (text_cmp (display_name p) (display_name q))
        (text_cmp (as_str (id p)) (as_str (id q)))

  unfoldable pub insert_sorted : Profile → List Profile → List Profile
  insert_sorted p [] = p ∷ []
  insert_sorted p (q ∷ qs) = if is_le (profile_cmp p q) then p ∷ q ∷ qs else q ∷ insert_sorted p qs

  -- `sort_by` is stable, and so is an insertion sort from the right: all stable sorts agree.
  unfoldable pub sort_saved_profiles : List Profile → List Profile
  unfolding insert_sorted
  sort_saved_profiles [] = []
  sort_saved_profiles (p ∷ ps) = insert_sorted p (sort_saved_profiles ps)

  -- `iter().position(|profile| profile.id() == profile_id)`.
  abbrev pub profile_position : List Profile → ProfileId → Option ℕ
  profile_position ps x = position (λ q. same_id (id q) x) ps

  -- The match of `upsert_saved_profile`.
  unfoldable pub replace_or_push : List Profile → Profile → List Profile
  replace_or_push ps p = elim (profile_position ps (id p)) [
    | some index ↦ set ps index p
    | none ↦ ps ++ p ∷ []
  ]

  unfoldable pub upsert_saved_profile : List Profile → Profile → List Profile
  unfolding sort_saved_profiles replace_or_push
  upsert_saved_profile ps p = sort_saved_profiles (replace_or_push ps p)

  unfoldable pub profiles_match_except_secret : Profile → Profile → Bool
  profiles_match_except_secret runtime saved =
      does (id_discrete (id runtime) (id saved))
      && does (Text-discrete (display_name runtime) (display_name saved))
      && does (Text-discrete (preset_id runtime) (preset_id saved))
      && does (adapter_discrete (adapter_type runtime) (adapter_type saved))
      && does (Text-discrete (base_endpoint runtime) (base_endpoint saved))
      && does (Bool-discrete (enabled runtime) (enabled saved))
      && does (Model-discrete (profile_model runtime) (profile_model saved))

  -- `secret_ref().is_some_and(|secret_ref| !secret_ref.is_persistent())`.
  abbrev pub has_session_secret : Profile → Bool
  has_session_secret p = is_some_and (secret_ref p) (λ r. not (is_persistent r))

  -- `iter().any(|profile| !profile_ids.insert(profile.id().as_str()))`.
  unfoldable pub has_duplicate : List Text → List Profile → Bool
  has_duplicate seen [] = false
  has_duplicate seen (p ∷ ps) =
      contains seen (as_str (id p)) || has_duplicate (as_str (id p) ∷ seen) ps

  -- `saved_profile_by_id(..).is_none_or(|profile| !profile.enabled())`.
  abbrev pub missing_or_disabled : List Profile → ProfileId → Bool
  missing_or_disabled ps x = elim (saved_profile_by_id ps x) [
    | none ↦ true
    | some p ↦ not (enabled p)
  ]

  abbrev pub is_missing : List Profile → ProfileId → Bool
  is_missing ps x = not (is_some (saved_profile_by_id ps x))

  -- `option.as_ref() == Some(profile_id)`.
  abbrev pub is_id : Option ProfileId → ProfileId → Bool
  is_id o x = is_some_and o (λ y. same_id y x)

  abbrev pub cleared : ProfileId → Option ProfileId → Option ProfileId
  cleared x o = if is_id o x then none else o
