-- ===== src/Routing/Exchange.antt =====
-- src/model.rs, `move_routing_profile_id`: where the candidates stand after a move by the buttons.
use linguamesh_linux.Prelude.{
  ap, subst, ℕ_discrete, ◌≡◌, ◌≢◌, refl, arith, List, ℕ, ◌∷◌, get_elem?, swap, some, set, ◌+◌, [],
  suc, inl, inr, zero, length, ◌<◌, false, ◌≤◌, true, ◌⊎◌, sym, ◌∙◌, ltb, Bool-cases, ◌-◌,
}
use linguamesh_linux.Domain.{Domain}
use linguamesh_linux.Routing.{id_position, move_routing_profile_id, isize_max}
use linguamesh_linux.Prelude.Int.{ℤ, pos, negsuc}

-- The index `t` is the index `i` plus the offset.
abbrev pub Offset : ℕ → ℤ → ℕ → Type 0
Offset i (pos n) t = t ≡ i + n
Offset i (negsuc n) t = t + suc n ≡ i

module _ (d : Domain) where
  open d use {ProfileId, id_discrete}

  ltb_cases : (m n : ℕ) → (m < n) ⊎ (n ≤ m)
  ltb_cases m n = elim (Bool-cases (ltb m n)) [
    | inl e ↦ inl (ground arith)
    | inr e ↦ inr (ground arith)
  ]

  -- The index of the first occurrence of an identifier.
  abbrev pub FirstAt : List ProfileId → ProfileId → ℕ → Type 0
  FirstAt ids x i = (get_elem? ids i ≡ some x) × ((j : ℕ) → j < i → get_elem? ids j ≢ some x)

  position-FirstAt :
      (ids : List ProfileId) (x : ProfileId) (i : ℕ)
      → FirstAt ids x i
      → id_position d ids x ≡ some i
  position-FirstAt [] x i (e, h) = ground arith
  position-FirstAt (y ∷ ys) x zero (e, h) = ground arith
  position-FirstAt (y ∷ ys) x (suc i) (e, h) =
      let rest = position-FirstAt ys x i (e, λ j lt. h (suc j) (omega arith)) in
      let first = h 0 (omega arith) in ground arith

  get-length :
      (ids : List ProfileId) (i : ℕ) (x : ProfileId) → get_elem? ids i ≡ some x → i < length ids
  get-length [] i x e = ground arith
  get-length (y ∷ ys) zero x e = omega arith
  get-length (y ∷ ys) (suc i) x e = omega (arith, get-length ys i x e)

  get-set_other :
      (ids : List ProfileId) (i j : ℕ) (v : ProfileId)
      → i ≢ j
      → get_elem? (set ids i v) j ≡ get_elem? ids j
  get-set_other [] i j v h = refl
  get-set_other (y ∷ ys) zero zero v h = absurd (h refl)
  get-set_other (y ∷ ys) zero (suc j) v h = refl
  get-set_other (y ∷ ys) (suc i) zero v h = refl
  get-set_other (y ∷ ys) (suc i) (suc j) v h = get-set_other ys i j v (omega arith)

  get-set_at :
      (ids : List ProfileId) (i : ℕ) (v : ProfileId)
      → i < length ids
      → get_elem? (set ids i v) i ≡ some v
  get-set_at [] i v h = elim h [ ]
  get-set_at (y ∷ ys) zero v h = refl
  get-set_at (y ∷ ys) (suc i) v h = get-set_at ys i v (omega arith)

  length-set : (ids : List ProfileId) (i : ℕ) (v : ProfileId) → length (set ids i v) ≡ length ids
  length-set [] i v = refl
  length-set (y ∷ ys) zero v = refl
  length-set (y ∷ ys) (suc i) v = ap suc (length-set ys i v)

  get-some :
      (ids : List ProfileId) (i : ℕ) → i < length ids → (a : ProfileId) × (get_elem? ids i ≡ some a)
  get-some [] i h = elim h [ ]
  get-some (y ∷ ys) zero h = (y, refl)
  get-some (y ∷ ys) (suc i) h = get-some ys i (omega arith)

  -- Two candidates have exchanged their places, and all others stand where they stood.
  pub record Exchanged (before : List ProfileId) (i t : ℕ) (after : List ProfileId) : Type 0 where
    pub moved : get_elem? after t ≡ get_elem? before i
    pub displaced : get_elem? after i ≡ get_elem? before t
    pub others : (j : ℕ) → j ≢ i → j ≢ t → get_elem? after j ≡ get_elem? before j

  set-Exchanged :
      (ids : List ProfileId) (i t : ℕ) (x y : ProfileId)
      → get_elem? ids i ≡ some x
      → get_elem? ids t ≡ some y
      → Exchanged ids i t (set (set ids i y) t x)
  set-Exchanged ids i t x y e f = record {
    moved = get-set_at (set ids i y) t x (rw (length-set ids i y) within) ∙ sym e;
    displaced = elim (ℕ_discrete i t) [
      | yes s ↦
          rw (sym s)
            (get-set_at (set ids i y) i x (omega (arith, length-set ids i y, get-length ids i x e)))
          ∙ sym e
          ∙ ap (get_elem? ids) s
      | no n ↦
          get-set_other (set ids i y) t i x (λ s. n (sym s))
          ∙ get-set_at ids i y (get-length ids i x e)
          ∙ sym f
    ];
    others = λ j h k.
        get-set_other (set ids i y) t j x (λ s. k (sym s)) ∙ get-set_other ids i j y λ s. h (sym s);
  }
    where
      within : t < length ids
      within = get-length ids t y f

  swap-Exchanged :
      (ids : List ProfileId) (i t : ℕ) (x : ProfileId)
      → get_elem? ids i ≡ some x
      → t < length ids
      → Exchanged ids i t (swap ids i t)
  swap-Exchanged ids i t x e h =
      let (y, f) = get-some ids t h in
      subst (Exchanged ids i t) (rw (e, f, swap) refl) (set-Exchanged ids i t x y e f)

  module _ (ids : List ProfileId) (x : ProfileId) (i : ℕ) (cap : length ids ≤ isize_max)
      (at : FirstAt ids x i) where
    made :
        (offset : ℤ) (t : ℕ)
        → Offset i offset t
        → t < length ids
        → move_routing_profile_id d ids x offset ≡ (swap ids i t, true)
    unfolding move_routing_profile_id
    made (pos n) t o lt =
        let found = position-FirstAt ids x i at in
        let within = get-length ids i x at.0 in ground arith
    made (negsuc n) t o lt =
        let found = position-FirstAt ids x i at in
        let within = get-length ids i x at.0 in ground arith

    refused :
        (offset : ℤ)
        → ((t : ℕ) → Offset i offset t → length ids ≤ t)
        → move_routing_profile_id d ids x offset ≡ (ids, false)
    unfolding move_routing_profile_id
    refused (pos n) h =
        let found = position-FirstAt ids x i at in let out = h (i + n) refl in ground arith
    refused (negsuc n) h =
        let found = position-FirstAt ids x i at in
        let within = get-length ids i x at.0 in
        elim (ltb_cases n i) [
          | inl lt ↦ absurd (omega (arith, h (i - suc n) (omega arith)))
          | inr ge ↦ ground arith
        ]

    made-Exchanged :
        (offset : ℤ) (t : ℕ)
        → Offset i offset t
        → t < length ids
        → Exchanged ids i t (move_routing_profile_id d ids x offset).0
          × ((move_routing_profile_id d ids x offset).1 ≡ true)
    made-Exchanged offset t o lt =
        let e = made offset t o lt in
        let there = swap-Exchanged ids i t x at.0 lt in
        (subst (λ r. Exchanged ids i t r.0) (sym e) there, rw e refl)

    -- A move by the buttons of a candidate that stands in a list no longer than a Rust slice can be,
    -- first at the index `i`: if the index plus the offset is an index of the list, the candidate
    -- stands there afterwards, the one from there at `i`, and all others where they stood; if it is
    -- not, the move is refused and the list kept.
    pub move_routing_profile_id_moved :
        (offset : ℤ)
        → ((t : ℕ) × Offset i offset t
            × (t < length ids)
            × Exchanged ids i t (move_routing_profile_id d ids x offset).0
            × ((move_routing_profile_id d ids x offset).1 ≡ true))
          ⊎ (((t : ℕ) → Offset i offset t → length ids ≤ t)
              × (move_routing_profile_id d ids x offset ≡ (ids, false)))
    move_routing_profile_id_moved (pos n) = elim (ltb_cases (i + n) (length ids)) [
      | inl lt ↦
          let (there, told) = made-Exchanged (pos n) (i + n) refl lt in
          inl (i + n, refl, lt, there, told)
      | inr ge ↦
          let out : (t : ℕ) → t ≡ i + n → length ids ≤ t = λ t e. omega arith in
          inr (out, refused (pos n) out)
    ]
    move_routing_profile_id_moved (negsuc n) = elim (ltb_cases n i) [
      | inl lt ↦
          let o : i - suc n + suc n ≡ i = omega arith in
          let within : i - suc n < length ids = omega (arith, get-length ids i x at.0) in
          let (there, told) = made-Exchanged (negsuc n) (i - suc n) o within in
          inl (i - suc n, o, within, there, told)
      | inr ge ↦
          let out : (t : ℕ) → t + suc n ≡ i → length ids ≤ t = λ t e. absurd (omega arith) in
          inr (out, refused (negsuc n) out)
    ]
