-- ===== src/Sql.antt =====
-- The SQL statements of store/db.py over a table held as the list of its rows in rowid order:
-- `UPDATE ... WHERE`, `SELECT ... WHERE`, `DELETE ... WHERE`, `ORDER BY ... LIMIT`, `COUNT`.
-- SQLite itself is not modelled further: each statement of the store is one atomic step.
use siatt.Base.{
  ℕ, zero, suc, ◌+◌, ◌≤◌, ◌≡◌, refl, sym, subst, inl, inr, Bool, true, false, not, ◌&&◌, ◌||◌, List,
  [], ◌∷◌, map, arith, leb, if◌then◌else◌, Bool-cases, Keyed, ◌==◌, nat_keyed, string_keyed, elem,
  Distinct, same_sym, length, take, any, Every,
}

module _ {ℓ} {R : Type ℓ} where
  abbrev pub update_where : (R → Bool) → (R → R) → List R → List R
  update_where p f [] = []
  update_where p f (r ∷ rs) = (if p r then f r else r) ∷ update_where p f rs

  abbrev pub select_where : (R → Bool) → List R → List R
  select_where p [] = []
  select_where p (r ∷ rs) = let rest = select_where p rs in if p r then r ∷ rest else rest

  abbrev pub delete_where : (R → Bool) → List R → List R
  delete_where p = select_where (λ r. not (p r))

  -- `UPDATE ... RETURNING`: the rows that the statement changed, as it left them.
  abbrev pub returning : (R → Bool) → (R → R) → List R → List R
  returning p f rs = map f (select_where p rs)

  abbrev pub count_where : (R → Bool) → List R → ℕ
  count_where p rs = length (select_where p rs)

  abbrev pub insert_by : (R → ℕ) → R → List R → List R
  insert_by key r [] = r ∷ []
  insert_by key r (s ∷ rs) =
      let later = s ∷ insert_by key r rs in if leb (key r) (key s) then r ∷ s ∷ rs else later

  -- `ORDER BY key`, rows of one key in rowid order.
  abbrev pub order_by : (R → ℕ) → List R → List R
  order_by key [] = []
  order_by key (r ∷ rs) = insert_by key r (order_by key rs)

  pub any-update_where :
      (q p : R → Bool) (f : R → R) (rs : List R)
      → any q (update_where p f rs) ≡ any (λ r. q (if p r then f r else r)) rs
  any-update_where q p f [] = refl
  any-update_where q p f (r ∷ rs) = rw (any-update_where q p f rs)

  pub any-select_where :
      (q p : R → Bool) (rs : List R) → any q (select_where p rs) ≡ any (λ r. p r && q r) rs
  any-select_where q p [] = refl
  any-select_where q p (r ∷ rs) = ground (arith, any-select_where q p rs)

  pub Every-update_where {κ} :
      (P : R → Type κ) (p : R → Bool) (f : R → R)
      → ((r : R) → P r → p r ≡ true → P (f r))
      → (rs : List R) → Every P rs
      → Every P (update_where p f rs)
  Every-update_where P p f keep [] h = tt
  Every-update_where P p f keep (r ∷ rs) h = (
    elim (Bool-cases (p r)) [ inl e ↦ rw e (keep r h.0 e) | inr e ↦ rw e h.0 ],
    Every-update_where P p f keep rs h.1,
  )

  pub Every-select_where {κ} :
      (P : R → Type κ) (p : R → Bool) (rs : List R) → Every P rs → Every P (select_where p rs)
  Every-select_where P p [] h = tt
  Every-select_where P p (r ∷ rs) h = elim (Bool-cases (p r)) [
    | inl e ↦ rw e (h.0, Every-select_where P p rs h.1)
    | inr e ↦ rw e (Every-select_where P p rs h.1)
  ]

  pub length-update_where :
      (p : R → Bool) (f : R → R) (rs : List R) → length (update_where p f rs) ≡ length rs
  length-update_where p f [] = refl
  length-update_where p f (r ∷ rs) = omega (arith, length-update_where p f rs)

module _ {ℓ} {R : Type ℓ} where
  pub length-select_where-le : (p : R → Bool) (rs : List R) → length (select_where p rs) ≤ length rs
  length-select_where-le p [] = omega arith
  length-select_where-le p (r ∷ rs) = ground (arith, length-select_where-le p rs)

-- An update that leaves a column alone leaves the list of its values alone.
pub map-update_where {ℓ κ} :
    {R : Type ℓ} {K : Type κ} (key : R → K) (p : R → Bool) (f : R → R)
    → ((r : R) → key (f r) ≡ key r)
    → (rs : List R) → map key (update_where p f rs) ≡ map key rs
map-update_where key p f same [] = refl
map-update_where key p f same (r ∷ rs) = elim (Bool-cases (p r)) [
  | inl e ↦ rw (e, same r, map-update_where key p f same rs)
  | inr e ↦ rw (e, map-update_where key p f same rs)
]

module _ {ℓ} {K R : Type ℓ} ⦃e : Keyed K⦄ (key : R → K) where
  pub elem-map : (k : K) (rs : List R) → elem k (map key rs) ≡ any (λ r. key r == k) rs
  elem-map k [] = refl
  elem-map k (r ∷ rs) = rw (elem-map k rs)

  pub elem-select_where :
      (k : K) (p : R → Bool) (rs : List R)
      → elem k (map key rs) ≡ false
      → elem k (map key (select_where p rs)) ≡ false
  elem-select_where k p [] h = refl
  elem-select_where k p (r ∷ rs) h = ground (arith, elem-select_where k p rs)

  pub Distinct-select_where :
      (p : R → Bool) (rs : List R) → Distinct (map key rs) → Distinct (map key (select_where p rs))
  Distinct-select_where p [] h = tt
  Distinct-select_where p (r ∷ rs) h = elim (Bool-cases (p r)) [
    | inl t ↦ rw t (elem-select_where (key r) p rs h.0, Distinct-select_where p rs h.1)
    | inr t ↦ rw t (Distinct-select_where p rs h.1)
  ]

module _ {ℓ} {K : Type ℓ} ⦃e : Keyed K⦄ where
  pub elem-take : (k : K) (n : ℕ) (ks : List K) → elem k ks ≡ false → elem k (take n ks) ≡ false
  elem-take k zero ks h = refl
  elem-take k (suc n) [] h = refl
  elem-take k (suc n) (j ∷ ks) h = ground (arith, elem-take k n ks)

  pub Distinct-take : (n : ℕ) (ks : List K) → Distinct ks → Distinct (take n ks)
  Distinct-take zero ks d = tt
  Distinct-take (suc n) [] d = tt
  Distinct-take (suc n) (k ∷ ks) d = (elem-take k n ks d.0, Distinct-take n ks d.1)

-- The rows that pass a test and those that fail it.
module _ {ℓ} {K R : Type ℓ} ⦃e : Keyed K⦄ (key : R → K) (p : R → Bool) where
  pub elem-partition :
      (k : K) (rs : List R)
      → (elem k (map key (select_where p rs)) || elem k (map key (delete_where p rs)))
        ≡ elem k (map key rs)
  elem-partition k [] = refl
  elem-partition k (r ∷ rs) = ground (arith, elem-partition k rs)

  pub partition-disjoint :
      (k : K) (rs : List R)
      → Distinct (map key rs)
      → elem k (map key (select_where p rs)) ≡ true
      → elem k (map key (delete_where p rs)) ≡ false
  partition-disjoint k [] d h = refl
  partition-disjoint k (r ∷ rs) d h = elim (Bool-cases (key r == k)) [
    | inl same ↦
        let absent : elem k (map key rs) ≡ false =
          subst (λ j. elem j (map key rs) ≡ false) ((e.same_iff (key r) k).0 same) d.0 in
        ground (
          arith,
          elem-select_where key k p rs absent,
          elem-select_where key k (λ x. not (p x)) rs absent,
        )
    | inr other ↦ ground (arith, partition-disjoint k rs d.1)
  ]

-- At most one row for each key that is asked for.
module _ {ℓ} {K R : Type ℓ} ⦃e : Keyed K⦄ (key : R → K) where
  length-select_or :
      (p q : R → Bool) (rs : List R)
      → length (select_where (λ r. p r || q r) rs)
        ≤ length (select_where p rs) + length (select_where q rs)
  length-select_or p q [] = omega arith
  length-select_or p q (r ∷ rs) = ground (arith, length-select_or p q rs)

  length-select_absent :
      (k : K) (rs : List R)
      → elem k (map key rs) ≡ false
      → length (select_where (λ r. k == key r) rs) ≤ 0
  length-select_absent k [] h = omega arith
  length-select_absent k (r ∷ rs) h = ground (arith, same_sym k (key r), length-select_absent k rs)

  length-select_one :
      (k : K) (rs : List R) → Distinct (map key rs) → length (select_where (λ r. k == key r) rs) ≤ 1
  length-select_one k [] d = omega arith
  length-select_one k (r ∷ rs) d = elim (Bool-cases (k == key r)) [
    | inl h ↦
        let absent : elem k (map key rs) ≡ false =
          subst (λ j. elem j (map key rs) ≡ false) (sym ((e.same_iff k (key r)).0 h)) d.0 in
        rw h (omega (arith, length-select_absent k rs absent))
    | inr h ↦ rw h (length-select_one k rs d.1)
  ]

  length-select_none : (rs : List R) → length (select_where (λ r. elem (key r) []) rs) ≤ 0
  length-select_none [] = omega arith
  length-select_none (r ∷ rs) = length-select_none rs

  pub length-select_picked :
      (ks : List K) (rs : List R)
      → Distinct (map key rs)
      → length (select_where (λ r. elem (key r) ks) rs) ≤ length ks
  length-select_picked [] rs d = length-select_none rs
  length-select_picked (k ∷ ks) rs d = omega (
    arith,
    length-select_or (λ r. k == key r) (λ r. elem (key r) ks) rs,
    length-select_one k rs d,
    length-select_picked ks rs d,
  )
