-- ===== src/Prelude/Map.antt =====
-- Go maps as association lists, over keys with a Boolean equality.
use mathlib.Core.Path.{◌≡◌, refl, subst}
use mathlib.Core.Logic.{◌↔◌, inl, inr}
use mathlib.Core.Bool.{Bool, true}
use mathlib.Core.Option.{Option, none, some}
use mathlib.Core.List.{List, [], ◌∷◌}
use native.Mathlib.Omega.{arith}
use Prim.Native.Nat.{ℕ}
use erzhuang_project.Prelude.Tests.{if◌then◌else◌, ◌==◌, ==_iff, Bool-cases}
use erzhuang_project.Prelude.Lists.{All}

pub record Eq {ℓ} (A : Type ℓ) : Type ℓ where
  pub beq : A → A → Bool
  pub beq_iff : (a b : A) → (beq a b ≡ true) ↔ (a ≡ b)

instance abbrev pub nat_eq : Eq ℕ
nat_eq = record { beq = ◌==◌; beq_iff = ==_iff }

abbrev pub Map : Type 0 → Type 0 → Type 0
Map K V = List (K × V)

module _ {K V : Type 0} ⦃e : Eq K⦄ where
  -- `v, ok := m[k]`
  unfoldable pub lookup : K → Map K V → Option V
  lookup k [] = none
  lookup k ((j, v) ∷ m) = if e.beq j k then some v else lookup k m

  -- `m[k] = v`
  unfoldable pub insert : K → V → Map K V → Map K V
  insert k v [] = (k, v) ∷ []
  insert k v ((j, w) ∷ m) = if e.beq j k then (j, v) ∷ m else (j, w) ∷ insert k v m

  -- `delete(m, k)`
  unfoldable pub erase : K → Map K V → Map K V
  erase k [] = []
  erase k ((j, w) ∷ m) = if e.beq j k then erase k m else (j, w) ∷ erase k m

  pub lookup-insert :
      (k j : K) (v : V) (m : Map K V)
      → lookup j (insert k v m) ≡ (if e.beq k j then some v else lookup j m)
  unfolding lookup insert
  lookup-insert k j v [] = refl
  lookup-insert k j v ((i, w) ∷ m) =
      ground (arith, e.beq_iff k j, e.beq_iff i k, e.beq_iff i j, lookup-insert k j v m)

  pub lookup-erase :
      (k j : K) (m : Map K V) → lookup j (erase k m) ≡ (if e.beq k j then none else lookup j m)
  unfolding lookup erase
  lookup-erase k j [] = ground arith
  lookup-erase k j ((i, w) ∷ m) =
      ground (arith, e.beq_iff k j, e.beq_iff i k, e.beq_iff i j, lookup-erase k j m)

  pub All-insert :
      (P : K × V → Type 0) (k : K) (v : V) (m : Map K V) → P (k, v) → All P m → All P (insert k v m)
  unfolding insert
  All-insert P k v [] p h = (p, tt)
  All-insert P k v ((j, w) ∷ m) p h = elim (Bool-cases (e.beq j k)) [
    | inl same ↦ rw same (rw (← (e.beq_iff j k).0 same) at p, h.1)
    | inr other ↦ rw other (h.0, All-insert P k v m p h.1)
  ]

  pub All-erase : (P : K × V → Type 0) (k : K) (m : Map K V) → All P m → All P (erase k m)
  unfolding erase
  All-erase P k [] h = tt
  All-erase P k ((j, w) ∷ m) h = ground (arith, h, All-erase P k m h.1)

  pub All-lookup :
      (P : K × V → Type 0) (k : K) (m : Map K V) {v : V} → All P m → lookup k m ≡ some v → P (k, v)
  unfolding lookup
  All-lookup P k [] h f = absurd (cc f)
  All-lookup P k ((j, w) ∷ m) {v} h f = elim (Bool-cases (e.beq j k)) [
    | inl same ↦
        let found : some w ≡ some v = rw (same, lookup) at f in
        subst (λ x. P (k, x)) (cc found) (subst (λ x. P (x, w)) ((e.beq_iff j k).0 same) h.0)
    | inr other ↦ All-lookup P k m h.1 (rw (other, lookup) at f)
  ]
