-- ===== src/WriteLease/Exclusive.antt =====
-- That the lease of siatt/memory/lease.py has one holder, and what its row tells the next one.
use siatt.Base.{
  ℕ, ◌≡◌, refl, sym, ap, ◌∙◌, subst, ◌≢◌, ◌⊎◌, inl, inr, true, false, Option, none, some,
  Bool-cases, ◌==◌, nat_keyed, string_keyed, same_refl, pair_keyed,
}
use siatt.WriteLease.{
  LeaseRow, Phase, idle, locked, looked, held, cleared, stranded, leaked, has_lock, may_release,
  State, set_phase, release_lease, unlock, try_lock, after_lock, try_lock, after_lock,
  start_acquire, stale_row, Step, acquires, looks, takes, releases, unlocks, Fault, raises,
  raises_before, raises_after, dies, Reach, FaultyReach, start, steps, fails,
}

-- Whoever stands in a phase with the lock is the lock's holder.
pub record IsExclusive (s : State) : Type 0 where
  pub owner : (p : ℕ) → has_lock (s.phases p) ≡ true → s.lock ≡ some p

-- A phase change of an object that has the lock.
keeps-IsExclusive :
    (p : ℕ) (phase : Phase) (row : Option LeaseRow) (s : State)
    → IsExclusive s
    → has_lock (s.phases p) ≡ true
    → IsExclusive (record s { row = row; phases = set_phase p phase s.phases })
keeps-IsExclusive p phase row s x h = record {
  owner = λ q g. elim (Bool-cases (q == p)) [
    | inl same ↦ subst (λ r. s.lock ≡ some r) (sym ((nat_keyed.same_iff q p).0 same)) (x.owner p h)
    | inr other ↦ x.owner q (rw other at g)
  ];
}

unlock-IsExclusive :
    (p : ℕ) (s : State) → IsExclusive s → has_lock (s.phases p) ≡ true → IsExclusive (unlock p s)
unlock-IsExclusive p s x h = record {
  owner = λ q g. elim (Bool-cases (q == p)) [
    | inl same ↦ absurd (cc (rw same at g))
    | inr other ↦
        let mine = x.owner p h in
        let theirs = x.owner q (rw other at g) in absurd (differ other (cc (mine, theirs)))
  ];
}
  where
    differ : {q : ℕ} → (q == p) ≡ false → p ≡ q → ⊥
    differ {q} other e = cc (other, (nat_keyed.same_iff q p).1 (sym e))

start_acquire-IsExclusive : (p : ℕ) (s : State) → IsExclusive s → IsExclusive (start_acquire p s)
start_acquire-IsExclusive p s x = after s.lock refl
  where
    after : (lock : Option ℕ) → s.lock ≡ lock → IsExclusive (after_lock p (try_lock p lock) s)
    after none free = record {
      owner = λ q g. elim (Bool-cases (q == p)) [
        | inl same ↦ ap some (sym ((nat_keyed.same_iff q p).0 same))
        | inr other ↦ absurd (cc (x.owner q (rw other at g), free))
      ];
    }
    after (some r) taken = x

has-phase :
    (s : State) (p : ℕ) (phase : Phase)
    → s.phases p ≡ phase
    → has_lock phase ≡ true
    → has_lock (s.phases p) ≡ true
has-phase s p phase e h = ap has_lock e ∙ h

releases-has_lock : (phase : Phase) → may_release phase ≡ true → has_lock phase ≡ true
releases-has_lock idle h = absurd (cc h)
releases-has_lock _ h = refl

Step-IsExclusive : {s t : State} → Step s t → IsExclusive s → IsExclusive t
Step-IsExclusive {s} (acquires p e) x = start_acquire-IsExclusive p s x
Step-IsExclusive {s} (looks p e) x =
    keeps-IsExclusive p looked s.row s x (has-phase s p locked e refl)
Step-IsExclusive {s} (takes p job now ttl e) x =
    keeps-IsExclusive p held _ s x (has-phase s p looked e refl)
Step-IsExclusive {s} (releases p e) x =
    keeps-IsExclusive p cleared _ s x (releases-has_lock (s.phases p) e)
Step-IsExclusive {s} (unlocks p e) x = unlock-IsExclusive p s x (has-phase s p cleared e refl)

Fault-IsExclusive : {s t : State} → Fault s t → IsExclusive s → IsExclusive t
Fault-IsExclusive {s} (raises p e) x =
    keeps-IsExclusive p leaked s.row s x (has-phase s p locked e refl)
Fault-IsExclusive {s} (raises_before p e) x =
    keeps-IsExclusive p stranded s.row s x (has-phase s p looked e refl)
Fault-IsExclusive {s} (raises_after p job now ttl e) x =
    keeps-IsExclusive p stranded _ s x (has-phase s p looked e refl)
Fault-IsExclusive {s} (dies p h) x = unlock-IsExclusive p s x h

FaultyReach-IsExclusive : {s : State} → FaultyReach s → IsExclusive s
FaultyReach-IsExclusive start = record { owner = λ p h. absurd (cc h) }
FaultyReach-IsExclusive (steps r st) = Step-IsExclusive st (FaultyReach-IsExclusive r)
FaultyReach-IsExclusive (fails r f) = Fault-IsExclusive f (FaultyReach-IsExclusive r)

FaultyReach-owner :
    {s : State} (p q : ℕ)
    → FaultyReach s
    → has_lock (s.phases p) ≡ true
    → has_lock (s.phases q) ≡ true
    → p ≡ q
FaultyReach-owner p q r h g = let x = FaultyReach-IsExclusive r in cc (x.owner p h, x.owner q g)

-- While one object has the lock no other has it, whatever is raised and whoever dies.
pub FaultyReach-exclusive :
    (s : State) (p q : ℕ)
    → FaultyReach s
    → has_lock (s.phases p) ≡ true
    → (p == q) ≡ false
    → has_lock (s.phases q) ≡ false
FaultyReach-exclusive s p q r h apart = elim (Bool-cases (has_lock (s.phases q))) [
  | inl g ↦ absurd (cc (apart, (nat_keyed.same_iff p q).1 (FaultyReach-owner p q r h g)))
  | inr free ↦ free
]

-- Once `get_lease` has raised in an `acquire` that has the lock, and while that process lives, nobody
-- acquires it.
pub leaked-blocks :
    (s : State) (p q : ℕ) → FaultyReach s → s.phases p ≡ leaked → start_acquire q s ≡ s
leaked-blocks s p q r e =
    ap (λ lock. after_lock q (try_lock q lock) s)
      ((FaultyReach-IsExclusive r).owner p (has-phase s p leaked e refl))

-- A row that is there belongs to an object that holds the lease.
abbrev IsCalm : State → Type 0
IsCalm s = (s.row ≡ none) ⊎ ((p : ℕ) × (s.phases p ≡ held))

Reach-faulty : {s : State} → Reach s → FaultyReach s
Reach-faulty start = start
Reach-faulty (steps r st) = steps (Reach-faulty r) st

-- An object that does not hold the lease changes its phase.
still-held :
    (p : ℕ) (before after : Phase) (phases : ℕ → Phase)
    → phases p ≡ before
    → before ≢ held
    → ((q : ℕ) × (phases q ≡ held))
    → ((q : ℕ) × (set_phase p after phases q ≡ held))
still-held p before after phases e other (q, h) = (
  q,
  elim (Bool-cases (q == p)) [
    | inl same ↦ absurd (other (sym e ∙ ap phases (sym ((nat_keyed.same_iff q p).0 same)) ∙ h))
    | inr apart ↦ rw apart h
  ],
)

release-none : (row : Option LeaseRow) → (release_lease row).1 ≡ none
release-none none = refl
release-none (some row) = refl

moved-IsCalm :
    (p : ℕ) (before after : Phase) (lock : Option ℕ) (s : State)
    → s.phases p ≡ before
    → before ≢ held
    → IsCalm s
    → IsCalm (record s { lock = lock; phases = set_phase p after s.phases })
moved-IsCalm p before after lock s e other (inl empty) = inl empty
moved-IsCalm p before after lock s e other (inr there) =
    inr (still-held p before after s.phases e other there)

Step-IsCalm : {s t : State} → Step s t → IsCalm s → IsCalm t
Step-IsCalm {s} (acquires p e) c = after (try_lock p s.lock)
  where
    after : (o : Option (Option ℕ)) → IsCalm (after_lock p o s)
    after none = c
    after (some lock) = moved-IsCalm p idle locked lock s e (λ h. cc h) c
Step-IsCalm {s} (looks p e) c = moved-IsCalm p locked looked s.lock s e (λ h. cc h) c
Step-IsCalm {s} (takes p job now ttl e) c = inr (p, rw (same_refl p) refl)
Step-IsCalm {s} (releases p e) c = inl (release-none s.row)
Step-IsCalm {s} (unlocks p e) c = moved-IsCalm p cleared idle none s e (λ h. cc h) c

Reach-IsCalm : {s : State} → Reach s → IsCalm s
Reach-IsCalm start = inl refl
Reach-IsCalm (steps r st) = Step-IsCalm st (Reach-IsCalm r)

-- While nothing is raised and nobody dies, an object that has taken the lock finds no row: the
-- takeover from a holder that did not release is never reported.
pub Reach-no_takeover : (s : State) (p : ℕ) → Reach s → s.phases p ≡ locked → stale_row s ≡ none
Reach-no_takeover s p r e = elim (Reach-IsCalm r) [
  | inl empty ↦ empty
  | inr (q, h) ↦
      let same =
        FaultyReach-owner p q (Reach-faulty r) (has-phase s p locked e refl)
          (has-phase s q held h refl) in
      absurd (cc (sym e ∙ ap s.phases same ∙ h))
]
