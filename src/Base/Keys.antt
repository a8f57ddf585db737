-- ===== src/Base/Keys.antt =====
-- Keys: types with a Boolean equality, and membership in a list of keys.
use Prim.Native.Nat.{ℕ}
use Prim.Native.String.{String}
use mathlib.Core.Path.{◌≡◌, refl, sym, ap, ◌∙◌}
use mathlib.Core.Logic.{◌↔◌, inl, inr}
use mathlib.Core.Bool.{Bool, true, false, ◌&&◌, ◌||◌}
use mathlib.Core.List.{List, [], ◌∷◌, ◌++◌}
use native.Mathlib.Omega.{arith}
use text.Mathlib.Text.{◌==◌ as text_same}
use text.Mathlib.TextEquality.{eq_iff}
use siatt.Base.Tests.{nat_same, nat_same_iff, Bool-cases}

pub record Keyed {ℓ} (A : Type ℓ) : Type ℓ where
  pub same : A → A → Bool
  pub same_iff : (a b : A) → (same a b ≡ true) ↔ (a ≡ b)

infix 50 ◌==◌
abbrev pub ◌==◌ {ℓ} : {A : Type ℓ} ⦃e : Keyed A⦄ → A → A → Bool
◌==◌ ⦃e⦄ = e.same

instance abbrev pub nat_keyed : Keyed ℕ
nat_keyed = record { same = nat_same; same_iff = nat_same_iff }

instance abbrev pub string_keyed : Keyed String
string_keyed = record { same = text_same; same_iff = eq_iff }

module _ {ℓ} {K : Type ℓ} ⦃e : Keyed K⦄ where
  -- `k in ks`
  abbrev pub elem : K → List K → Bool
  elem k [] = false
  elem k (j ∷ ks) = j == k || elem k ks

  -- No key stands twice.
  abbrev pub Distinct : List K → Type 0
  Distinct [] = Unit
  Distinct (k ∷ ks) = (elem k ks ≡ false) × Distinct ks

  pub same_refl : (k : K) → (k == k) ≡ true
  same_refl k = (e.same_iff k k).1 refl

  pub same_sym : (j k : K) → (j == k) ≡ (k == j)
  same_sym j k = elim (Bool-cases (j == k)) [
    | inl p ↦ p ∙ sym ((e.same_iff k j).1 (sym ((e.same_iff j k).0 p)))
    | inr p ↦ elim (Bool-cases (k == j)) [
      | inl q ↦ (e.same_iff j k).1 (sym ((e.same_iff k j).0 q)) ∙ sym q
      | inr q ↦ p ∙ sym q
    ]
  ]

  pub elem-append : (k : K) (xs ys : List K) → elem k (xs ++ ys) ≡ (elem k xs || elem k ys)
  elem-append k [] ys = refl
  elem-append k (x ∷ xs) ys = ground (arith, elem-append k xs ys)

module _ {ℓ} {K : Type ℓ} ⦃e : Keyed K⦄ where
  -- A new key may follow the others.
  pub Distinct-append :
      (k : K) (ks : List K) → Distinct ks → elem k ks ≡ false → Distinct (ks ++ k ∷ [])
  Distinct-append k [] d h = (refl, tt)
  Distinct-append k (j ∷ ks) d h = (
    rw (elem-append j ks (k ∷ [])) (ground (arith, same_sym j k)),
    Distinct-append k ks d.1 (ground arith),
  )

module _ {ℓ} {A B : Type ℓ} ⦃a : Keyed A⦄ ⦃b : Keyed B⦄ where
  abbrev pub pair_same : A × B → A × B → Bool
  pair_same p q = a.same p.0 q.0 && b.same p.1 q.1

  pub pair_same_iff : (p q : A × B) → (pair_same p q ≡ true) ↔ (p ≡ q)
  pair_same_iff p q = (
    λ h. ground (arith, a.same_iff p.0 q.0, b.same_iff p.1 q.1),
    λ h. ground (
      arith,
      a.same_iff p.0 q.0,
      b.same_iff p.1 q.1,
      ap (λ (r : A × B). r.0) h,
      ap (λ (r : A × B). r.1) h,
    ),
  )

-- A key of several columns.
instance abbrev pub pair_keyed {ℓ} : {A B : Type ℓ} ⦃a : Keyed A⦄ ⦃b : Keyed B⦄ → Keyed (A × B)
pair_keyed = record { same = pair_same; same_iff = pair_same_iff }

module _ {ℓ} {K : Type ℓ} ⦃e : Keyed K⦄ where
  -- Two lists of distinct keys with none in common.
  pub Distinct-append_disjoint :
      (xs ys : List K)
      → Distinct xs
      → Distinct ys
      → ((k : K) → elem k xs ≡ true → elem k ys ≡ false)
      → Distinct (xs ++ ys)
  Distinct-append_disjoint [] ys dx dy h = dy
  Distinct-append_disjoint (x ∷ xs) ys dx dy h = (
    rw (elem-append x xs ys) (ground (arith, h x, same_refl x)),
    Distinct-append_disjoint xs ys dx.1 dy (λ k p. h k (ground arith)),
  )
