-- ===== src/Prelude/TextOrder.antt =====
-- The order of texts is total and transitive, and its equality is equality.
use Prim.Native.Nat.{Ordering}
use linguamesh_linux.Prelude.Text.{Text, text_cmp}
use mathlib.Core.Path.{◌≡◌, refl}
use mathlib.Core.List.{[], ◌∷◌}
use native.Mathlib.Omega.{arith}

abbrev pub swapped : Ordering → Ordering
swapped Ordering.lt = Ordering.gt
swapped Ordering.eq = Ordering.eq
swapped Ordering.gt = Ordering.lt

pub text_cmp-swap : (s t : Text) → text_cmp t s ≡ swapped (text_cmp s t)
unfolding text_cmp
text_cmp-swap [] [] = refl
text_cmp-swap [] (_ ∷ _) = refl
text_cmp-swap (_ ∷ _) [] = refl
text_cmp-swap (a ∷ s) (b ∷ t) = ground (arith, text_cmp-swap s t)

pub text_cmp-eq : (s t : Text) → text_cmp s t ≡ Ordering.eq → s ≡ t
unfolding text_cmp
text_cmp-eq [] [] h = refl
text_cmp-eq [] (_ ∷ _) h = cc
text_cmp-eq (_ ∷ _) [] h = cc
text_cmp-eq (a ∷ s) (b ∷ t) h = ground (arith, text_cmp-eq s t)

pub text_cmp_refl : (s : Text) → text_cmp s s ≡ Ordering.eq
unfolding text_cmp
text_cmp_refl [] = refl
text_cmp_refl (a ∷ s) = ground (arith, text_cmp_refl s)

pub text_lt_trans :
    (s t u : Text)
    → text_cmp s t ≡ Ordering.lt
    → text_cmp t u ≡ Ordering.lt
    → text_cmp s u ≡ Ordering.lt
unfolding text_cmp
text_lt_trans [] [] u h k = cc
text_lt_trans [] (_ ∷ _) [] h k = cc
text_lt_trans [] (_ ∷ _) (_ ∷ _) h k = refl
text_lt_trans (_ ∷ _) [] u h k = cc
text_lt_trans (_ ∷ _) (_ ∷ _) [] h k = cc
text_lt_trans (a ∷ s) (b ∷ t) (c ∷ u) h k = ground (arith, text_lt_trans s t u)
