-- ===== src/Routing/Moves.antt =====
-- src/model.rs, `move_routing_profile_id`: no move by the buttons loses or repeats a candidate.
use linguamesh_linux.Prelude.{
  ◌≡◌, refl, arith, List, ℕ, ◌∷◌, get_elem?, swap, some, if◌then◌else◌, does, set, ◌+◌, [],
  Option-cases, suc, inl, inr, zero, length, false, Bool, option_cases, if_cases, ltb, leb, min,
}
use linguamesh_linux.Domain.{Domain}
use linguamesh_linux.Routing.{id_position, move_routing_profile_id, isize_max, move_target}
use linguamesh_linux.Prelude.Int.{ℤ}

module _ (d : Domain) where
  open d use {ProfileId, id_discrete}

  -- How often an identifier stands in a list.
  abbrev pub count : ProfileId → List ProfileId → ℕ
  count x [] = 0
  count x (y ∷ ys) = (if does (id_discrete y x) then 1 else 0) + count x ys

  count-set :
      (x : ProfileId) (ids : List ProfileId) (i : ℕ) (b v : ProfileId)
      → get_elem? ids i ≡ some b
      → count x (set ids i v) + count x (b ∷ []) ≡ count x ids + count x (v ∷ [])
  count-set x [] i b v e = ground arith
  count-set x (y ∷ ys) zero b v e = ground arith
  count-set x (y ∷ ys) (suc i) b v e = omega (arith, count-set x ys i b v e)

  -- Writing the value of one place into another keeps it in the first.
  get-set_same :
      (ids : List ProfileId) (i j : ℕ) (b : ProfileId)
      → get_elem? ids j ≡ some b
      → get_elem? (set ids i b) j ≡ some b
  get-set_same [] i j b e = e
  get-set_same (y ∷ ys) zero zero b e = refl
  get-set_same (y ∷ ys) zero (suc j) b e = e
  get-set_same (y ∷ ys) (suc i) zero b e = e
  get-set_same (y ∷ ys) (suc i) (suc j) b e = get-set_same ys i j b e

  count-exchange :
      (x : ProfileId) (ids : List ProfileId) (i j : ℕ) (a b : ProfileId)
      → get_elem? ids i ≡ some a
      → get_elem? ids j ≡ some b
      → count x (set (set ids i b) j a) ≡ count x ids
  count-exchange x ids i j a b e f =
      omega
        (arith, count-set x ids i a b e, count-set x (set ids i b) j b a (get-set_same ids i j b f))

  count-swap :
      (x : ProfileId) (ids : List ProfileId) (i j : ℕ) → count x (swap ids i j) ≡ count x ids
  count-swap x ids i j = elim (Option-cases (get_elem? ids i)) [
    | inl e ↦ rw (e, swap) refl
    | inr (a, e) ↦ elim (Option-cases (get_elem? ids j)) [
      | inl f ↦ rw (e, f, swap) refl
      | inr (b, f) ↦ rw (e, f, swap) (count-exchange x ids i j a b e f)
    ]
  ]

  -- A move by the buttons, whatever the offset, keeps every identifier as often as it stood in the
  -- list, and a move that is not made changes nothing.
  pub move_routing_profile_id-keeps :
      (ids : List ProfileId) (x : ProfileId) (offset : ℤ)
      → ((y : ProfileId) → count y (move_routing_profile_id d ids x offset).0 ≡ count y ids)
        × ((move_routing_profile_id d ids x offset).1 ≡ false
            → (move_routing_profile_id d ids x offset).0 ≡ ids)
  unfolding move_routing_profile_id
  move_routing_profile_id-keeps ids x offset =
      option_cases Keeps (id_position d ids x) (λ _. still)
        λ i _.
          if_cases Keeps (ltb isize_max i) (λ _. still)
            λ _.
              option_cases Keeps (move_target i offset) (λ _. still)
                λ t _.
                  if_cases Keeps (leb (min (length ids) isize_max) t) (λ _. still)
                    λ _. (λ y. count-swap y ids i t, λ e. cc)
    where
      Keeps : List ProfileId × Bool → Type 0
      Keeps r = ((y : ProfileId) → count y r.0 ≡ count y ids) × (r.1 ≡ false → r.0 ≡ ids)

      still : Keeps (ids, false)
      still = (λ y. refl, λ e. refl)
