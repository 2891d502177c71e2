-- ===== src/Common/Assoc.antt =====
-- A Go map as an association list: a write replaces the entry of its key or adds one at the end,
-- and `range` visits the entries in some order.
use Prim.Native.Nat.{ℕ, ◌+◌}
use Prim.Native.String.{String}
use mathlib.Core.Path.{◌≡◌, refl, subst₂, ap, ap₂}
use mathlib.Core.Logic.{◌↔◌, ◌≢◌, inl, inr}
use mathlib.Core.Bool.{Bool, true, ◌&&◌}
use mathlib.Core.Option.{Option, none, some}
use mathlib.Core.List.{List, [], ◌∷◌}
use native.Mathlib.Omega.{arith}
use rayavriti_netmonitor.Common.Tests.{
  ◌==◌, ==_iff, str_eq, str_eq_iff, if◌then◌else◌, Bool-cases, and_left, and_right,
}

-- A type of keys that can be compared.
pub record Eq {ℓ} (K : Type ℓ) : Type ℓ where
  pub beq : K → K → Bool
  pub beq_iff : (a b : K) → (beq a b ≡ true) ↔ (a ≡ b)

instance abbrev pub nat_eq : Eq ℕ
nat_eq = record { beq = ◌==◌; beq_iff = ==_iff }

instance abbrev pub string_eq : Eq String
string_eq = record { beq = str_eq; beq_iff = str_eq_iff }

abbrev both_eq : ℕ × ℕ → ℕ × ℕ → Bool
both_eq (a, b) (c, d) = (a == c) && (b == d)

pub both_eq_iff : (x y : ℕ × ℕ) → (both_eq x y ≡ true) ↔ (x ≡ y)
both_eq_iff (a, b) (c, d) = (
  λ h.
      ap₂ (λ x y. (x, y)) ((==_iff a c).0 (and_left (a == c) (b == d) h))
        ((==_iff b d).0 (and_right (a == c) (b == d) h)),
  λ e. ground (arith, ap (λ x. x.0) e, ap (λ x. x.1) e),
)

-- Pairs of ids as keys.
instance abbrev pub pair_eq : Eq (ℕ × ℕ)
pair_eq = record { beq = both_eq; beq_iff = both_eq_iff }

-- What an optional value adds to a count.
abbrev pub share {ℓ} : {V : Type ℓ} → (V → Bool) → Option V → ℕ
share p none = 0
share p (some v) = if p v then 1 else 0

module _ {ℓ κ} {K : Type ℓ} {V : Type κ} ⦃e : Eq K⦄ where
  abbrev pub lookup : K → List (K × V) → Option V
  lookup k [] = none
  lookup k ((j, v) ∷ m) = if e.beq j k then some v else lookup k m

  abbrev pub insert : K → V → List (K × V) → List (K × V)
  insert k v [] = (k, v) ∷ []
  insert k v ((j, w) ∷ m) = if e.beq j k then (k, v) ∷ m else (j, w) ∷ insert k v m

  abbrev pub erase : K → List (K × V) → List (K × V)
  erase k [] = []
  erase k ((j, w) ∷ m) = let rest = erase k m in if e.beq j k then rest else (j, w) ∷ rest

  pub lookup-insert :
      (k j : K) (v : V) (m : List (K × V))
      → lookup j (insert k v m) ≡ (if e.beq k j then some v else lookup j m)
  lookup-insert k j v [] = refl
  lookup-insert k j v ((i, w) ∷ m) =
      ground (arith, e.beq_iff k j, e.beq_iff i k, e.beq_iff i j, lookup-insert k j v m)

  pub lookup-erase :
      (k j : K) (m : List (K × V)) → lookup j (erase k m) ≡ (if e.beq k j then none else lookup j m)
  lookup-erase k j [] = ground arith
  lookup-erase k j ((i, w) ∷ m) =
      ground (arith, e.beq_iff k j, e.beq_iff i k, e.beq_iff i j, lookup-erase k j m)

  pub lookup-insert_self : (k : K) (v : V) (m : List (K × V)) → lookup k (insert k v m) ≡ some v
  lookup-insert_self k v m = ground (arith, lookup-insert k k v m, e.beq_iff k k)

  pub lookup-insert_ne :
      (k j : K) (v : V) (m : List (K × V)) → k ≢ j → lookup j (insert k v m) ≡ lookup j m
  lookup-insert_ne k j v m h = ground (arith, lookup-insert k j v m, e.beq_iff k j)

  pub lookup-erase_self : (k : K) (m : List (K × V)) → lookup k (erase k m) ≡ none
  lookup-erase_self k m = ground (arith, lookup-erase k k m, e.beq_iff k k)

  -- How many values pass a test, and the size of the map.
  abbrev pub count_values : (V → Bool) → List (K × V) → ℕ
  count_values p [] = 0
  count_values p ((k, v) ∷ m) = (if p v then 1 else 0) + count_values p m

  -- A write moves a count by the shares of the new and of the replaced value.
  pub count_values-insert :
      (p : V → Bool) (k : K) (v : V) (m : List (K × V))
      → count_values p (insert k v m) + share p (lookup k m)
        ≡ count_values p m + (if p v then 1 else 0)
  count_values-insert p k v [] = omega arith
  count_values-insert p k v ((j, w) ∷ m) = ground (arith, count_values-insert p k v m)

  -- A statement about every binding of the map.
  abbrev pub Every {μ} : (K → V → Type μ) → List (K × V) → Type μ
  Every P [] = Unit
  Every P ((k, v) ∷ m) = P k v × Every P m

  pub lookup-Every {μ} :
      (P : K → V → Type μ) (m : List (K × V)) (k : K) (v : V)
      → Every P m
      → lookup k m ≡ some v
      → P k v
  lookup-Every P [] k v every h = cc
  lookup-Every P ((j, w) ∷ m) k v every h = elim (Bool-cases (e.beq j k)) [
    | inl same ↦ let found : w ≡ v = ground arith in subst₂ P ((e.beq_iff j k).0 same) found every.0
    | inr other ↦ lookup-Every P m k v every.1 (rw other at h)
  ]

  pub insert-Every {μ} :
      (P : K → V → Type μ) (k : K) (v : V) (m : List (K × V))
      → Every P m
      → P k v
      → Every P (insert k v m)
  insert-Every P k v [] every p = (p, tt)
  insert-Every P k v ((j, w) ∷ m) every p = elim (Bool-cases (e.beq j k)) [
    | inl same ↦ rw same (p, every.1)
    | inr other ↦ rw other (every.0, insert-Every P k v m every.1 p)
  ]

  pub erase-Every {μ} :
      (P : K → V → Type μ) (k : K) (m : List (K × V)) → Every P m → Every P (erase k m)
  erase-Every P k [] every = tt
  erase-Every P k ((j, w) ∷ m) every = elim (Bool-cases (e.beq j k)) [
    | inl same ↦ rw same (erase-Every P k m every.1)
    | inr other ↦ rw other (every.0, erase-Every P k m every.1)
  ]
