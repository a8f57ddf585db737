-- ===== src/Inbox/Rows.antt =====
-- Lookup of one row by its id in the `inbox` table of store/db.py, and what a lease selects.
use siatt.Base.{
  ℕ, zero, suc, ◌≤◌, ◌≡◌, refl, sym, ap, ◌∙◌, subst, inl, inr, Bool, false, Option, none, some,
  List, [], ◌∷◌, arith, if◌then◌else◌, Bool-cases, ◌==◌, nat_keyed, string_keyed, elem, Distinct,
  same_refl, pair_keyed, take,
}
use siatt.Sql.{update_where, select_where, elem-take, elem-select_where}
use siatt.Inbox.{InboxRow}
use siatt.Inbox.Shape.{Above, ids_of}

-- `WHERE id = ?`
abbrev pub row_of : ℕ → List InboxRow → Option InboxRow
row_of k [] = none
row_of k (r ∷ rows) = if r.id == k then some r else row_of k rows

abbrev pub change : (InboxRow → Bool) → (InboxRow → InboxRow) → Option InboxRow → Option InboxRow
change p f none = none
change p f (some r) = some (if p r then f r else r)

-- An UPDATE seen at one id.
pub row_of-update_where :
    (k : ℕ) (p : InboxRow → Bool) (f : InboxRow → InboxRow)
    → ((r : InboxRow) → (f r).id ≡ r.id)
    → (rows : List InboxRow) → row_of k (update_where p f rows) ≡ change p f (row_of k rows)
row_of-update_where k p f same [] = refl
row_of-update_where k p f same (r ∷ rows) =
    ground (arith, same r, row_of-update_where k p f same rows)

pub row_of-id : (k : ℕ) (rows : List InboxRow) (r : InboxRow) → row_of k rows ≡ some r → r.id ≡ k
row_of-id k [] r e = cc
row_of-id k (x ∷ rows) r e = elim (Bool-cases (x.id == k)) [
  | inl q ↦ ground arith
  | inr q ↦ row_of-id k rows r (rw q at e)
]

-- No selected row has the id `k` if no row of that id passes the test.
pub elem-unselected :
    (k : ℕ) (q : InboxRow → Bool) (rows : List InboxRow)
    → ((r : InboxRow) → r.id ≡ k → q r ≡ false)
    → elem k (ids_of (select_where q rows)) ≡ false
elem-unselected k q [] h = refl
elem-unselected k q (r ∷ rows) h = elim (Bool-cases (q r)) [
  | inl e ↦ rw e (ground (arith, h r, elem-unselected k q rows h))
  | inr e ↦ rw e (elem-unselected k q rows h)
]

pub elem-Above : (n k : ℕ) (ids : List ℕ) → k ≤ n → Above n ids → elem k ids ≡ false
elem-Above n k [] h a = refl
elem-Above n k (i ∷ ids) h a = ground (arith, elem-Above i k ids)

-- Ids that rise are distinct.
pub Above-Distinct : (n : ℕ) (ids : List ℕ) → Above n ids → Distinct ids
Above-Distinct n [] a = tt
Above-Distinct n (i ∷ ids) a = (elem-Above i i ids (omega arith) a.1, Above-Distinct i ids a.1)

-- Beyond an id, asking for it selects nothing more.
select_past :
    (i n : ℕ) (ids : List ℕ) (rows : List InboxRow)
    → i ≤ n
    → Above n (ids_of rows)
    → select_where (λ r. elem r.id (i ∷ ids)) rows ≡ select_where (λ r. elem r.id ids) rows
select_past i n ids [] h a = refl
select_past i n ids (r ∷ rows) h a = ground (arith, select_past i r.id ids rows)

select_nothing : (rows : List InboxRow) → select_where (λ r. elem r.id []) rows ≡ []
select_nothing [] = refl
select_nothing (r ∷ rows) = select_nothing rows

-- Asking for `ids` gives the rows of those ids, in their order.
abbrev Picks : List InboxRow → List ℕ → Type 0
Picks rows ids = ids_of (select_where (λ r. elem r.id ids) rows) ≡ ids

-- Over rising ids, `WHERE id IN (SELECT id ... LIMIT ?)` keeps the rows of that SELECT, in order.
pub select_claimed :
    (n limit : ℕ) (q : InboxRow → Bool) (rows : List InboxRow) (ids : List ℕ)
    → Above n (ids_of rows)
    → ids ≡ take limit (ids_of (select_where q rows))
    → ids_of (select_where (λ r. elem r.id ids) rows) ≡ ids
select_claimed n zero q rows ids a h = rw (h, select_nothing rows)
select_claimed n (suc limit) q [] ids a h = rw h
select_claimed n (suc limit) q (r ∷ rows) ids a h = elim (Bool-cases (q r)) [
  | inl e ↦ subst (Picks (r ∷ rows)) (sym (rw e at h)) (
      rw (same_refl r.id) (
        ap (◌∷◌ r.id) (
          ap ids_of (select_past r.id r.id _ rows (omega arith) a.1)
          ∙ select_claimed r.id limit q rows _ a.1 refl)))
  | inr e ↦
      let rest : ids ≡ take (suc limit) (ids_of (select_where q rows)) = rw e at h in
      let absent : elem r.id ids ≡ false = rw rest (
        elem-take r.id (suc limit) (ids_of (select_where q rows)) (
          elem-select_where (λ (x : InboxRow). x.id) r.id q rows
            (elem-Above r.id r.id (ids_of rows) (omega arith) a.1))) in
      rw absent (select_claimed r.id (suc limit) q rows ids a.1 rest)
]

-- The same after an UPDATE.
pub elem-unselected_updated :
    (k : ℕ) (q p : InboxRow → Bool) (f : InboxRow → InboxRow) (rows : List InboxRow)
    → ((r : InboxRow) → (f r).id ≡ r.id)
    → ((r : InboxRow) → r.id ≡ k → q (if p r then f r else r) ≡ false)
    → elem k (ids_of (select_where q (update_where p f rows))) ≡ false
elem-unselected_updated k q p f [] same h = refl
elem-unselected_updated k q p f (r ∷ rows) same h =
    ground (arith, same r, h r, elem-unselected_updated k q p f rows same h)
