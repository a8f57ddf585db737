-- ===== src/Cron/Progressions.antt =====
-- Which numbers a part of a cron expression stands for: the ranges of `_part` in runner/cron.py.
use siatt.Base.{
  ℕ, zero, suc, ◌+◌, ◌-◌, ◌*◌, ◌≤◌, ◌<◌, ◌≡◌, refl, sym, ◌∙◌, ◌≢◌, ◌↔◌, inl, inr, true, List, arith,
  leb, Bool-cases, ◌==◌, nat_keyed, string_keyed, elem, pair_keyed,
}
use native.Mathlib.Nat.{suc-mul}
use siatt.Cron.{range_from}

-- `v` is one of `start`, `start + step`, ... up to `stop`.
pub record Listed (start stop step v : ℕ) : Type 0 where
  pub turns : ℕ
  pub at : v ≡ start + turns * step
  pub below : v ≤ stop

pub record IsProgression (low high : ℕ) (vs : List ℕ) : Type 0 where
  pub start : ℕ
  pub stop : ℕ
  pub step : ℕ
  pub lowest : low ≤ start
  pub ordered : start ≤ stop
  pub highest : stop ≤ high
  pub moves : 0 < step
  pub listed : (v : ℕ) → (elem v vs ≡ true) ↔ Listed start stop step v

pub turn : (start step j : ℕ) → start + suc j * step ≡ start + step + j * step
turn start step j = rw (suc-mul j step) (omega arith)

pub Listed-next :
    (start stop step v turns : ℕ)
    → start ≢ v
    → v ≡ start + turns * step
    → v ≤ stop
    → Listed (start + step) stop step v
Listed-next start stop step v zero apart at below = absurd (apart (omega (arith, at)))
Listed-next start stop step v (suc j) apart at below = record {
  turns = j;
  at = at ∙ turn start step j;
  below = below;
}

pub range_from_sound :
    (count start stop step v : ℕ)
    → elem v (range_from count start stop step) ≡ true
    → Listed start stop step v
range_from_sound zero start stop step v e = absurd (cc e)
range_from_sound (suc count) start stop step v e = elim (Bool-cases (leb start stop)) [
  | inr over ↦ absurd (cc (rw (over, range_from) at e))
  | inl within ↦ elim (Bool-cases (start == v)) [
    | inl here ↦
        let same : start ≡ v = (nat_keyed.same_iff start v).0 here in
        record { turns = 0; at = omega (arith, same); below = ground arith }
    | inr there ↦
        let rest =
          range_from_sound count (start + step) stop step v (rw (within, range_from, there) at e) in
        record {
          turns = suc rest.turns;
          at = rest.at ∙ sym (turn start step rest.turns);
          below = rest.below;
        }
  ]
]

pub range_from_complete :
    (count start stop step v : ℕ)
    → stop - start < count
    → 0 < step
    → Listed start stop step v
    → elem v (range_from count start stop step) ≡ true
range_from_complete zero start stop step v h g e = absurd (omega (arith, h))
range_from_complete (suc count) start stop step v h g e =
    let before : start ≤ v = omega (arith, e.at) in
    let within : leb start stop ≡ true = ground (arith, e.below, before) in
    rw (within, range_from)
      (elim (Bool-cases (start == v)) [
        | inl here ↦ rw here refl
        | inr there ↦
            let more : start < v = ground (arith, before) in
            let later =
              Listed-next start stop step v e.turns (λ same. omega (arith, same, more)) e.at
                e.below in
            rw there (
              range_from_complete count (start + step) stop step v
                (omega (arith, h, g, more, e.below)) g later)
      ])
