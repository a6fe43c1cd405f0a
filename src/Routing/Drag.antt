-- ===== src/Routing/Drag.antt =====
-- Drag and drop puts the dragged candidate directly before the target.
use linguamesh_linux.Prelude.{
  inl, inr, ◌≡◌, refl, arith, List, ◌∷◌, ℕ, if◌then◌else◌, does, ◌≢◌, some, ◌||◌, [], insert_at,
  remove_at, not, suc, is_some, false, zero, true, Option-cases, ap, if_cases, does_iff,
}
use linguamesh_linux.Domain.{Domain}
use linguamesh_linux.Routing.{move_routing_profile_id_before, id_position, adjusted}

module _ (d : Domain) where
  open d use {ProfileId, id_discrete}

  -- The list without the first `x`, and with `x` directly before the first `t`.
  abbrev pub without : ProfileId → List ProfileId → List ProfileId
  without x [] = []
  without x (y ∷ ys) = if does (id_discrete y x) then ys else y ∷ without x ys

  abbrev pub put_before : ProfileId → ProfileId → List ProfileId → List ProfileId
  put_before t x [] = []
  put_before t x (y ∷ ys) = if does (id_discrete y t) then x ∷ y ∷ ys else y ∷ put_before t x ys

  insert-put_before :
      (ids : List ProfileId) (t x : ProfileId) (j : ℕ)
      → id_position d ids t ≡ some j
      → insert_at ids j x ≡ put_before t x ids
  insert-put_before [] t x j e = ground arith
  insert-put_before (y ∷ ys) t x zero e = ground arith
  insert-put_before (y ∷ ys) t x (suc j) e = ground (arith, insert-put_before ys t x j)

  remove-without :
      (ids : List ProfileId) (x : ProfileId) (i : ℕ)
      → id_position d ids x ≡ some i
      → remove_at ids i ≡ without x ids
  remove-without [] x i e = ground arith
  remove-without (y ∷ ys) x zero e = ground arith
  remove-without (y ∷ ys) x (suc i) e = ground (arith, remove-without ys x i)

  -- Taking `x` out moves the first `t` to the adjusted index.
  position-without :
      (ids : List ProfileId) (x t : ProfileId) (i j : ℕ)
      → x ≢ t
      → id_position d ids x ≡ some i
      → id_position d ids t ≡ some j
      → id_position d (without x ids) t ≡ some (adjusted i j)
  position-without [] x t i j n e f = ground arith
  position-without (y ∷ ys) x t zero zero n e f = ground arith
  position-without (y ∷ ys) x t zero (suc j) n e f = ground arith
  position-without (y ∷ ys) x t (suc i) zero n e f = ground arith
  position-without (y ∷ ys) x t (suc i) (suc j) n e f =
      ground (arith, position-without ys x t i j n)

  -- Dropping a candidate on another one that stands in the list takes it out of its place and puts it
  -- directly before the other; dropping it on itself, or where one of the two does not stand in the
  -- list, changes nothing.
  pub move_routing_profile_id_before_lem :
      (ids : List ProfileId) (dragged target : ProfileId)
      → move_routing_profile_id_before d ids dragged target ≡ (
          if does (id_discrete dragged target)
            || not (is_some (id_position d ids dragged))
            || not (is_some (id_position d ids target))
          then (ids, false)
          else (put_before target dragged (without dragged ids), true))
  unfolding move_routing_profile_id_before
  move_routing_profile_id_before_lem ids x t =
      if_cases
        (λ w. w ≡ (
          if does (id_discrete x t)
            || not (is_some (id_position d ids x))
            || not (is_some (id_position d ids t))
          then (ids, false)
          else (put_before t x (without x ids), true)))
        (does (id_discrete x t)) (λ same. rw same refl)
        (λ apart. elim (Option-cases (id_position d ids x)) [
          | inl e ↦ rw (apart, e) refl
          | inr (i, e) ↦ elim (Option-cases (id_position d ids t)) [
            | inl f ↦ rw (apart, e, f) refl
            | inr (j, f) ↦
                rw (apart, e, f)
                  (ap (λ l. (l, true))
                    (rw (remove-without ids x i e) (
                      insert-put_before (without x ids) t x (adjusted i j) (
                        position-without ids x t i j (λ s. cc ((does_iff (id_discrete x t)).1 s)) e
                          f))))
          ]
        ])
