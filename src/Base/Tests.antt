-- ===== src/Base/Tests.antt =====
-- Boolean tests: orders on the native numbers, equality by a decision, the conditional.
use Prim.Native.Nat.{ℕ, ◌≤◌, ◌<◌, compare, Ordering}
use mathlib.Core.Path.{◌≡◌, refl}
use mathlib.Core.Logic.{◌⊎◌, inl, inr}
use mathlib.Core.Bool.{Bool, true, false, Bool-discrete}
use mathlib.Core.Option
use mathlib.Core.Option.{Option, none, some}
use mathlib.Core.List.{List}
use native.Mathlib.Omega.{arith}
use native.Mathlib.Decide.{ℕ_discrete}

abbrev pub ltb : ℕ → ℕ → Bool
ltb a b = elim (compare a b) [ Ordering.lt ↦ true | _ ↦ false ]

abbrev pub leb : ℕ → ℕ → Bool
leb a b = elim (compare a b) [ Ordering.gt ↦ false | _ ↦ true ]

infix 1 if◌then◌else◌
abbrev pub if◌then◌else◌ {ℓ} : {A : Type ℓ} → Bool → A → A → A
if true then x else y = x
if false then x else y = y

-- A type whose values the source compares by `==`, `bytes.Equal` or `reflect.DeepEqual`.
pub record Comparable {ℓ} (A : Type ℓ) : Type ℓ where
  pub discrete : Discrete A

infix 50 ◌==◌ ◌!=◌
abbrev pub ◌==◌ {ℓ} : {A : Type ℓ} ⦃c : Comparable A⦄ → A → A → Bool
◌==◌ ⦃c⦄ a b = elim (c.discrete a b) [ yes _ ↦ true | no _ ↦ false ]

abbrev pub ◌!=◌ {ℓ} : {A : Type ℓ} ⦃c : Comparable A⦄ → A → A → Bool
◌!=◌ ⦃c⦄ a b = elim (c.discrete a b) [ yes _ ↦ false | no _ ↦ true ]

instance abbrev pub ℕ-comparable : Comparable ℕ
ℕ-comparable = record { discrete = ℕ_discrete }

unfoldable pub Bytes-discrete : Discrete (List ℕ)
Bytes-discrete = hlevel ℕ_discrete

instance abbrev pub Bytes-comparable : Comparable (List ℕ)
Bytes-comparable = record { discrete = Bytes-discrete }

instance abbrev pub Bool-comparable : Comparable Bool
Bool-comparable = record { discrete = Bool-discrete }

instance abbrev pub Option-comparable {ℓ} : {A : Type ℓ} ⦃c : Comparable A⦄ → Comparable (Option A)
Option-comparable ⦃c⦄ = record { discrete = Option.discrete c.discrete }

abbrev pub is_some {ℓ} : {A : Type ℓ} → Option A → Bool
is_some none = false
is_some (some _) = true

abbrev pub is_none {ℓ} : {A : Type ℓ} → Option A → Bool
is_none none = true
is_none (some _) = false

-- To split on a computed value and keep the equation.
pub Bool-cases : (b : Bool) → (b ≡ true) ⊎ (b ≡ false)
Bool-cases true = inl refl
Bool-cases false = inr refl

pub Option-cases {ℓ} : {A : Type ℓ} (o : Option A) → (o ≡ none) ⊎ ((a : A) × (o ≡ some a))
Option-cases none = inl refl
Option-cases (some a) = inr (a, refl)

pub le→ltb_false : (a b : ℕ) → b ≤ a → ltb a b ≡ false
le→ltb_false a b h = ground arith

pub lt→ltb : (a b : ℕ) → a < b → ltb a b ≡ true
lt→ltb a b h = ground arith

pub !=-eq_false {ℓ} : {A : Type ℓ} ⦃c : Comparable A⦄ (x y : A) → x ≡ y → (x != y) ≡ false
!=-eq_false ⦃c⦄ x y e =
    elim (c.discrete x y) as (λ d. elim d [ yes _ ↦ false | no _ ↦ true ] ≡ false) [
      | yes p ↦ refl
      | no n ↦ absurd (n e)
    ]
