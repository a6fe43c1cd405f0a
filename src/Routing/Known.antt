-- ===== src/Routing/Known.antt =====
-- src/model.rs, `ordered_routing_profile_ids`: which candidates of a saved order are shown.
use linguamesh_linux.Prelude.{
  List, [], ◌∷◌, ◌≡◌, if◌then◌else◌, is_some, arith, sym, refl, if_cases,
}
use linguamesh_linux.Domain.{Domain}
use linguamesh_linux.Routing.{ordered_routing_profile_ids, is_known}
use linguamesh_linux.Routing.Moves.{count}
use linguamesh_linux.Model.Profiles.{saved_profile_by_id}

module _ (d : Domain) where
  is_known-find :
      (saved : List d.Profile) (x : d.ProfileId)
      → is_known d saved x ≡ is_some (saved_profile_by_id d saved x)
  unfolding saved_profile_by_id
  is_known-find [] x = refl
  is_known-find (p ∷ ps) x = ground (arith, is_known-find ps x)

  count-known :
      (saved : List d.Profile) (ids : List d.ProfileId) (x : d.ProfileId)
      → count d x (ordered_routing_profile_ids d saved ids)
        ≡ (if is_known d saved x then count d x ids else 0)
  unfolding ordered_routing_profile_ids
  count-known saved [] x = ground arith
  count-known saved (y ∷ ys) x = ground (arith, count-known saved ys x)

  -- The first list is the second with some of its members left out, the others in their order.
  pub data Sublist : List d.ProfileId → List d.ProfileId → Type 0 where
    none_left : Sublist [] []
    left_out : {xs ys : List d.ProfileId} (y : d.ProfileId) → Sublist xs ys → Sublist xs (y ∷ ys)
    kept : {xs ys : List d.ProfileId} (y : d.ProfileId) → Sublist xs ys → Sublist (y ∷ xs) (y ∷ ys)

  known-Sublist :
      (saved : List d.Profile) (ids : List d.ProfileId)
      → Sublist (ordered_routing_profile_ids d saved ids) ids
  unfolding ordered_routing_profile_ids
  known-Sublist saved [] = none_left
  known-Sublist saved (y ∷ ys) =
      if_cases (λ xs. Sublist xs (y ∷ ys)) (is_known d saved y)
        (λ _. kept y (known-Sublist saved ys)) (λ _. left_out y (known-Sublist saved ys))

  -- The candidates that are shown stand in the order of the routing candidates, and each is shown
  -- as often as that order has it if a saved profile has its identifier, and never if none has.
  pub ordered_routing_profile_ids_lem :
      (saved : List d.Profile) (ids : List d.ProfileId)
      → Sublist (ordered_routing_profile_ids d saved ids) ids
        × ((x : d.ProfileId)
            → count d x (ordered_routing_profile_ids d saved ids)
              ≡ (if is_some (saved_profile_by_id d saved x) then count d x ids else 0))
  ordered_routing_profile_ids_lem saved ids =
      (known-Sublist saved ids, λ x. rw (sym (is_known-find saved x)) (count-known saved ids x))
