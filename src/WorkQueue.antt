-- ===== src/WorkQueue.antt =====
-- The protocol `WorkQueue` of core/drain.py: what a drainer leases from and reports to, with the
-- laws that the two queues of the program (core/inbox.py, runner/scheduler.py) satisfy.
use siatt.Base.{
  ℕ, ◌≤◌, ◌≡◌, Bool, true, false, not, ◌&&◌, ◌||◌, List, map, Keyed, ◌==◌, nat_keyed, string_keyed,
  elem, Distinct, pair_keyed, length,
}
use siatt.Failure.{Failure}

pub record WorkQueue (K : Type 0) ⦃e : Keyed K⦄ : Type 1 where
  pub Table : Type 0
  pub Item : Type 0
  pub id : Item → K
  -- The clock's reading comes first, where an operation takes it.
  pub lease : ℕ → ℕ → List K → List K → Table → List Item × Table
  pub renew : ℕ → List K → Table → Table
  pub complete : ℕ → K → Table → Table
  pub release : List K → Table → Table
  pub fail : ℕ → Item → Failure → Table → Bool × Table
  pub reclaim : ℕ → Bool → Table → Table
  pub purge : ℕ → Table → Table
  -- Whether the row of a key is leased, and what every table of the queue satisfies.
  pub held : Table → K → Bool
  pub Valid : Table → Type 0
  pub lease-Valid :
      (now limit : ℕ) (exclude only : List K) (t : Table)
      → Valid t
      → Valid (lease now limit exclude only t).1
  pub renew-Valid : (now : ℕ) (ids : List K) (t : Table) → Valid t → Valid (renew now ids t)
  pub complete-Valid : (now : ℕ) (k : K) (t : Table) → Valid t → Valid (complete now k t)
  pub release-Valid : (ids : List K) (t : Table) → Valid t → Valid (release ids t)
  pub fail-Valid :
      (now : ℕ) (item : Item) (error : Failure) (t : Table)
      → Valid t
      → Valid (fail now item error t).1
  pub reclaim-Valid :
      (now : ℕ) (expired_only : Bool) (t : Table) → Valid t → Valid (reclaim now expired_only t)
  pub purge-Valid : (now : ℕ) (t : Table) → Valid t → Valid (purge now t)
  pub lease-length :
      (now limit : ℕ) (exclude only : List K) (t : Table)
      → Valid t
      → length (lease now limit exclude only t).0 ≤ limit
  pub lease-fresh :
      (now limit : ℕ) (exclude only : List K) (t : Table) (k : K)
      → Valid t
      → elem k exclude ≡ true
      → elem k (map id (lease now limit exclude only t).0) ≡ false
  pub lease-Distinct :
      (now limit : ℕ) (exclude only : List K) (t : Table)
      → Valid t
      → Distinct (map id (lease now limit exclude only t).0)
  -- A caller that excludes every leased row comes to hold just what it is handed besides.
  pub lease-held :
      (now limit : ℕ) (exclude only : List K) (t : Table) (k : K)
      → Valid t
      → ((j : K) → held t j ≡ true → elem j exclude ≡ true)
      → held (lease now limit exclude only t).1 k
        ≡ (held t k || elem k (map id (lease now limit exclude only t).0))
  pub renew-held :
      (now : ℕ) (ids : List K) (t : Table) (k : K) → held (renew now ids t) k ≡ held t k
  pub complete-held :
      (now : ℕ) (j : K) (t : Table) (k : K) → held (complete now j t) k ≡ (held t k && not (k == j))
  pub release-held :
      (ids : List K) (t : Table) (k : K) → held (release ids t) k ≡ (held t k && not (elem k ids))
  pub fail-held :
      (now : ℕ) (item : Item) (error : Failure) (t : Table) (k : K)
      → held (fail now item error t).1 k ≡ (held t k && not (k == id item))
  pub reclaim-held : (now : ℕ) (t : Table) (k : K) → held (reclaim now false t) k ≡ false
  pub purge-held : (now : ℕ) (t : Table) (k : K) → held (purge now t) k ≡ held t k
