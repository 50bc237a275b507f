-- ===== src/Prelude/Trim.antt =====
-- Where a trimmed text stands in the text, and what is found in it.
use Prim.Native.Nat.{ℕ}
use mathlib.Core.Path.{◌≡◌, refl, ap, ◌∙◌}
use mathlib.Core.Logic.{inl, inr}
use mathlib.Core.Bool.{true, false, ◌&&◌}
use mathlib.Core.List.{[], ◌∷◌, ◌++◌}
use native.Mathlib.Omega.{arith}
use erzhuang_project.Prelude.Tests.{Bool-cases}
use erzhuang_project.Prelude.Text.{
  Text, is_space, is_empty, trim_left, trim_right, trim_space, has_prefix, contains,
}

has_prefix-append : (p s : Text) → has_prefix (p ++ s) p ≡ true
unfolding has_prefix
has_prefix-append [] s = ground arith
has_prefix-append (c ∷ p) s = ground (arith, has_prefix-append p s)

pub contains-append : (a p s : Text) → contains (a ++ (p ++ s)) p ≡ true
unfolding contains has_prefix
contains-append [] [] [] = ground arith
contains-append [] [] (d ∷ s) = ground (arith, has_prefix-append [] (d ∷ s))
contains-append [] (c ∷ p) s = ground (arith, has_prefix-append (c ∷ p) s)
contains-append (c ∷ a) p s = ground (arith, contains-append a p s)

trim_left-append : (s : Text) → (pre : Text) × (s ≡ pre ++ trim_left s)
unfolding trim_left
trim_left-append [] = ([], refl)
trim_left-append (c ∷ s) =
    let (pre, e) = trim_left-append s in
    elim (Bool-cases (is_space c)) [
      | inl space ↦ (c ∷ pre, rw (space, trim_left) (cc e))
      | inr other ↦ ([], rw (other, trim_left) refl)
    ]

trim_right-append : (s : Text) → (post : Text) × (s ≡ trim_right s ++ post)
unfolding trim_right
trim_right-append [] = ([], refl)
trim_right-append (c ∷ s) =
    let (post, e) = trim_right-append s in
    elim (Bool-cases (is_empty (trim_right s) && is_space c)) [
      | inl space ↦ (c ∷ s, rw (space, trim_right) refl)
      | inr other ↦ (post, rw (other, trim_right) (cc e))
    ]

pub trim_space-append : (s : Text) → (pre post : Text) × (s ≡ pre ++ (trim_space s ++ post))
unfolding trim_space
trim_space-append s =
    let (pre, e) = trim_left-append s in
    let (post, e') = trim_right-append (trim_left s) in (pre, post, e ∙ ap (λ t. pre ++ t) e')

trim_left-head : (s t : Text) (c : ℕ) → trim_left s ≡ c ∷ t → is_space c ≡ false
unfolding trim_left
trim_left-head [] t c e = absurd (cc e)
trim_left-head (d ∷ s) t c e = ground (arith, trim_left-head s t c)

trim_right-head : (s t : Text) (c : ℕ) → trim_right s ≡ c ∷ t → (u : Text) × (s ≡ c ∷ u)
unfolding trim_right
trim_right-head [] t c e = absurd (cc e)
trim_right-head (d ∷ s) t c e = (s, ground arith)

-- A trimmed text starts with no space.
pub trim_space-head : (s t : Text) (c : ℕ) → trim_space s ≡ c ∷ t → is_space c ≡ false
unfolding trim_space
trim_space-head s t c e =
    let (u, e') = trim_right-head (trim_left s) t c e in trim_left-head s u c e'
