-- ===== src/Backoff.antt =====
-- siatt/core/backoff.py: how long a durable queue waits before it tries again.
-- Delays are counted in milliseconds, where the source has seconds as floats.
mod Tests
use native.Mathlib.Nat.{pow-suc}
use siatt.Base.{
  ℕ, zero, suc, ◌+◌, ◌-◌, ◌*◌, ◌/◌, ◌%◌, ◌^◌, ◌≤◌, ◌<◌, min, max, String, ◌≡◌, refl, sym, ap, ap₂,
  ◌∙◌, subst, ◌≢◌, ◌↔◌, ◌⊎◌, inl, inr, Bool, true, false, not, ◌&&◌, ◌||◌, Option, none, some, List,
  [], ◌∷◌, ◌++◌, map, arith, ltb, leb, nat_same, nat_same_iff, if◌then◌else◌, Bool-cases,
  Option-cases, Keyed, ◌==◌, nat_keyed, string_keyed, elem, Distinct, same_refl, same_sym,
  elem-append, length, take, null, any, Every, length-append, length-take-le, any-append, any_congr,
  any_none, Every-append, length-map,
}

pub record Backoff : Type 0 where
  pub max_attempts : ℕ
  pub base : ℕ
  pub cap : ℕ

-- `base * 2 ** (attempts - 1)`: half the base where no try is counted yet.
raw_delay : ℕ → ℕ → ℕ
raw_delay base zero = base / 2
raw_delay base (suc n) = base * 2 ^ n

-- `none` is the source's None: give up.
unfoldable pub delay_after : Backoff → ℕ → Option ℕ
unfolding raw_delay
delay_after b attempts =
    if leb b.max_attempts attempts then none else some (min b.cap (raw_delay b.base attempts))

-- There is a delay exactly while tries are left, and it is never above the ceiling.
pub delay_after_bounds :
    (b : Backoff) (n d : ℕ) → delay_after b n ≡ some d → (n < b.max_attempts) × (d ≤ b.cap)
unfolding delay_after
delay_after_bounds b n d h = ground arith

pub delay_after-eq-none : (b : Backoff) (n : ℕ) → (delay_after b n ≡ none) ↔ (b.max_attempts ≤ n)
unfolding delay_after
delay_after-eq-none b n = (λ h. ground arith, λ h. ground arith)

-- While tries are left, each delay is twice the one before, up to the ceiling.
pub delay_after-suc :
    (b : Backoff) (n : ℕ)
    → suc (suc n) < b.max_attempts
    → (d : ℕ) × (delay_after b (suc n) ≡ some d)
      × (delay_after b (suc (suc n)) ≡ some (min b.cap (2 * d)))
unfolding delay_after
delay_after-suc b n h = (min b.cap (b.base * 2 ^ n), ground arith, ground (arith, doubled))
  where
    doubled : min b.cap (b.base * 2 ^ suc n) ≡ min b.cap (2 * min b.cap (b.base * 2 ^ n))
    doubled = rw (pow-suc 2 n) (omega arith)
