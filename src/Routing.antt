-- ===== src/Routing.antt =====
-- src/model.rs, the routing candidates: the mode of the dropdown, and the order of the candidates
-- under the buttons and under drag and drop.
pub mod Moves
pub mod Exchange
pub mod Drag
pub mod Known
use linguamesh_linux.Prelude.{
  ℕ, List, Option, ◌^◌, if◌then◌else◌, Bool, ◌∷◌, position, some, ltb, ◌-◌, ◌==◌, any, does, min,
  [], false, ◌+◌, suc, none, leb, insert_at, length, remove_at, swap, true,
}
use linguamesh_linux.Prelude.Int.{ℤ, pos, negsuc}
use linguamesh_linux.Domain.{Domain}

-- `isize::MAX`, for 64 bits.
abbrev pub isize_max : ℕ
isize_max = 2 ^ 63 - 1

-- `index.saturating_add(offset)`, where it is not negative.
abbrev pub move_target : ℕ → ℤ → Option ℕ
move_target i (pos n) = some (min (i + n) isize_max)
move_target i (negsuc n) = if ltb n i then some (i - suc n) else none

-- The index of the target once the dragged identifier is taken out.
abbrev pub adjusted : ℕ → ℕ → ℕ
adjusted dragged target = if ltb dragged target then target - 1 else target

module _ (d : Domain) where
  open d use {ProfileId, Profile, RoutingMode, manual, ordered, automatic, id, id_discrete}

  unfoldable pub routing_mode_for_selection : ℕ → RoutingMode
  routing_mode_for_selection index =
      if index == 0 then manual else if index == 1 then ordered else automatic

  abbrev pub is_known : List Profile → ProfileId → Bool
  is_known saved x = any (λ p. does (id_discrete (id p) x)) saved

  unfoldable pub ordered_routing_profile_ids : List Profile → List ProfileId → List ProfileId
  ordered_routing_profile_ids saved [] = []
  ordered_routing_profile_ids saved (x ∷ xs) =
      if is_known saved x
      then x ∷ ordered_routing_profile_ids saved xs
      else ordered_routing_profile_ids saved xs

  abbrev pub id_position : List ProfileId → ProfileId → Option ℕ
  id_position ids x = position (λ y. does (id_discrete y x)) ids

  unfoldable pub move_routing_profile_id : List ProfileId → ProfileId → ℤ → List ProfileId × Bool
  move_routing_profile_id ids x offset = elim (id_position ids x) [
    | none ↦ (ids, false)
    | some index ↦ if ltb isize_max index then (ids, false) else elim (move_target index offset) [
      | none ↦ (ids, false)
      | some target ↦
          if leb (min (length ids) isize_max) target
          then (ids, false)
          else (swap ids index target, true)
    ]
  ]

  unfoldable pub move_routing_profile_id_before :
      List ProfileId → ProfileId → ProfileId → List ProfileId × Bool
  move_routing_profile_id_before ids dragged target =
      if does (id_discrete dragged target) then (ids, false) else elim (id_position ids dragged) [
        | none ↦ (ids, false)
        | some i ↦ elim (id_position ids target) [
          | none ↦ (ids, false)
          | some j ↦ (insert_at (remove_at ids i) (adjusted i j) dragged, true)
        ]
      ]
