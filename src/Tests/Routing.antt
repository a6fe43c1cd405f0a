-- ===== src/Tests/Routing.antt =====
-- Witnesses of the theorems on the order of the routing candidates.
use linguamesh_linux.Prelude.{
  ◌≢◌, zero, suc, ℕ, ◌<◌, ◌≤◌, ◌⊎◌, length, ◌≡◌, refl, some, if◌then◌else◌, List, [], ◌∷◌, ◌||◌,
  not, is_some, does, true, false, arith, get_elem?,
}
use linguamesh_linux.Prelude.Int.{pos, negsuc}
use linguamesh_linux.Prelude.Text.{Text, codes, Text-discrete}
use linguamesh_linux.Tests.Sample.{sample}
use linguamesh_linux.Tests.Model.{alpha, beta}
use linguamesh_linux.Routing.Moves.{count, move_routing_profile_id-keeps}
use linguamesh_linux.Routing.Exchange.{move_routing_profile_id_moved, FirstAt, Offset, Exchanged}
use linguamesh_linux.Model.Profiles.{saved_profile_by_id}
use linguamesh_linux.Routing.{
  move_routing_profile_id, move_routing_profile_id_before, id_position, ordered_routing_profile_ids,
}
use linguamesh_linux.Routing.Drag.{put_before, without, move_routing_profile_id_before_lem}
use linguamesh_linux.Routing.Known.{ordered_routing_profile_ids_lem, Sublist}

abbrev three : List Text
three = codes "a" ∷ codes "b" ∷ codes "c" ∷ []

move_routing_profile_id-keeps_example :
    ((y : Text)
      → count sample y (move_routing_profile_id sample three (codes "a") (pos 1)).0
        ≡ count sample y three)
    × ((move_routing_profile_id sample three (codes "a") (pos 1)).1 ≡ false
        → (move_routing_profile_id sample three (codes "a") (pos 1)).0 ≡ three)
move_routing_profile_id-keeps_example =
    move_routing_profile_id-keeps sample three (codes "a") (pos 1)

c_at : FirstAt sample three (codes "c") 2
c_at = (refl, before)
  where
    before : (j : ℕ) → j < 2 → get_elem? three j ≢ some (codes "c")
    before zero h e = ground arith
    before (suc zero) h e = ground arith
    before (suc (suc j)) h e = absurd (omega arith)

move_routing_profile_id_moved_example :
    let moved = move_routing_profile_id sample three (codes "c") (negsuc 1) in
    ((t : ℕ) × Offset 2 (negsuc 1) t
      × (t < length three)
      × Exchanged sample three 2 t moved.0
      × (moved.1 ≡ true))
    ⊎ (((t : ℕ) → Offset 2 (negsuc 1) t → length three ≤ t) × (moved ≡ (three, false)))
move_routing_profile_id_moved_example =
    move_routing_profile_id_moved sample three (codes "c") 2 (omega arith) c_at (negsuc 1)

move_routing_profile_id_before_lem_example :
    move_routing_profile_id_before sample three (codes "a") (codes "c") ≡ (
      if does (sample.id_discrete (codes "a") (codes "c"))
        || not (is_some (id_position sample three (codes "a")))
        || not (is_some (id_position sample three (codes "c")))
      then (three, false)
      else (put_before sample (codes "c") (codes "a") (without sample (codes "a") three), true))
move_routing_profile_id_before_lem_example =
    move_routing_profile_id_before_lem sample three (codes "a") (codes "c")

moved_before :
    move_routing_profile_id_before sample three (codes "a") (codes "c")
    ≡ (codes "b" ∷ codes "a" ∷ codes "c" ∷ [], true)
unfolding Text-discrete move_routing_profile_id_before
moved_before = refl

ordered_routing_profile_ids_lem_example :
    Sublist sample (ordered_routing_profile_ids sample (alpha ∷ beta ∷ []) three) three
    × ((x : Text)
        → count sample x (ordered_routing_profile_ids sample (alpha ∷ beta ∷ []) three) ≡ (
            if is_some (saved_profile_by_id sample (alpha ∷ beta ∷ []) x)
            then count sample x three
            else 0))
ordered_routing_profile_ids_lem_example =
    ordered_routing_profile_ids_lem sample (alpha ∷ beta ∷ []) three
