-- ===== src/Leases.antt =====
-- Which rows of a queue's table are leased, and how the statements of store/db.py on the `inbox`
-- and `jobs` tables change that. Generic in the row and in its id.
use siatt.Base.{
  ◌≡◌, refl, ap, inl, inr, Bool, true, false, not, ◌&&◌, ◌||◌, List, [], ◌∷◌, map, arith,
  Bool-cases, Keyed, ◌==◌, nat_keyed, string_keyed, elem, pair_keyed, any,
}
use siatt.Sql.{update_where, select_where, delete_where}

module _ {R K : Type 0} ⦃e : Keyed K⦄ (id : R → K) (leased : R → Bool) where
  -- Whether the row of a key is leased.
  abbrev pub is_held : List R → K → Bool
  is_held rows k = any (λ r. id r == k && leased r) rows

  -- A statement that leaves ids and leases alone.
  pub held-kept :
      (p : R → Bool) (f : R → R) (k : K)
      → ((r : R) → id (f r) ≡ id r)
      → ((r : R) → p r ≡ true → leased (f r) ≡ leased r)
      → (rows : List R) → is_held (update_where p f rows) k ≡ is_held rows k
  held-kept p f k same kept [] = refl
  held-kept p f k same kept (r ∷ rows) = elim (Bool-cases (p r)) [
    | inl h ↦ rw h (rw (same r) (rw (kept r h) (rw (held-kept p f k same kept rows))))
    | inr h ↦ rw h (rw (held-kept p f k same kept rows))
  ]

  -- A statement that leases the rows of chosen ids.
  pub held-claimed :
      (chosen : List K) (f : R → R) (k : K)
      → ((r : R) → id (f r) ≡ id r)
      → ((r : R) → leased (f r) ≡ true)
      → (rows : List R)
      → is_held (update_where (λ r. elem (id r) chosen) f rows) k
        ≡ (is_held rows k || elem k (map id (select_where (λ r. elem (id r) chosen) rows)))
  held-claimed chosen f k same now [] = refl
  held-claimed chosen f k same now (r ∷ rows) =
      ground (arith, same r, now r, held-claimed chosen f k same now rows)

  -- A statement that takes the rows of one key out of every lease.
  pub held-freed :
      (j : K) (f : R → R) (k : K)
      → ((r : R) → id (f r) ≡ id r)
      → ((r : R) → leased (f r) ≡ false)
      → (rows : List R)
      → is_held (update_where (λ r. id r == j) f rows) k ≡ (is_held rows k && not (k == j))
  held-freed j f k same free [] = refl
  held-freed j f k same free (r ∷ rows) = ground (
    arith,
    same r,
    free r,
    e.same_iff (id r) j,
    e.same_iff (id r) k,
    e.same_iff k j,
    held-freed j f k same free rows,
  )

  -- `WHERE state = 'leased' AND id IN (...)`
  pub held-released :
      (ids : List K) (f : R → R) (k : K)
      → ((r : R) → id (f r) ≡ id r)
      → ((r : R) → leased (f r) ≡ false)
      → (rows : List R)
      → is_held (update_where (λ r. leased r && elem (id r) ids) f rows) k
        ≡ (is_held rows k && not (elem k ids))
  held-released ids f k same free [] = refl
  held-released ids f k same free (r ∷ rows) = elim (Bool-cases (id r == k)) [
    | inl h ↦
        let known : elem (id r) ids ≡ elem k ids =
          ap (λ j. elem j ids) ((e.same_iff (id r) k).0 h) in
        ground (arith, same r, free r, known, held-released ids f k same free rows)
    | inr h ↦ ground (arith, same r, free r, held-released ids f k same free rows)
  ]

  -- `WHERE state = 'leased'`
  pub held-reclaimed :
      (f : R → R) (k : K)
      → ((r : R) → leased (f r) ≡ false)
      → (rows : List R) → is_held (update_where (λ r. leased r && true) f rows) k ≡ false
  held-reclaimed f k free [] = refl
  held-reclaimed f k free (r ∷ rows) = ground (arith, free r, held-reclaimed f k free rows)

  -- A DELETE that spares the leased rows.
  pub held-deleted :
      (p : R → Bool) (k : K)
      → ((r : R) → p r ≡ true → leased r ≡ false)
      → (rows : List R) → is_held (delete_where p rows) k ≡ is_held rows k
  held-deleted p k spared [] = refl
  held-deleted p k spared (r ∷ rows) = ground (arith, spared r, held-deleted p k spared rows)
