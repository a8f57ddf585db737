-- ===== src/Memory/Patch/Confined.antt =====
-- The paths that PatchCompiler of siatt/memory/patch.py writes and removes.
use siatt.Base.{
  ℕ, ◌+◌, String, ◌≡◌, refl, sym, subst, ◌⊎◌, inl, inr, Bool, true, false, not, Option, none, List,
  [], ◌∷◌, ◌++◌, map, arith, leb, Bool-cases, Option-cases, nat_keyed, string_keyed, elem,
  pair_keyed, null, any, Every, Every-append,
}
use siatt.Memory.{Frontmatter, MemoryDoc, World, is_memory_path, is_archived}
use siatt.Memory.Manifest.{
  Manifest, entry, contains, Paths, entry-Paths, put-Paths, forget-Paths, move-Paths,
}
use siatt.Memory.Patch.{
  create, update, merge, supersede, archive, delete, write, remove, ok, refused, unwritable,
  long_component, immutable_fields, no_sources, into_itself, may_not_delete, Attempt, Change,
  MemoryPatch, Reason, Rejection, deleting_jobs, immutable, keys, path_changed, unless, ◌>>◌,
}
use siatt.Memory.Patch.Operations.{
  archive_all, archive_path, chosen_path, compile_one, components_fit, create_at, delete_unless,
  exists, load, load_all, merged, parsed, problems, record_write, require_size, require_writable,
  rewritten, run_archive, run_create, run_delete, run_merge, run_supersede, run_update, save_update,
  successor, touched_doc,
}
use siatt.Memory.Patch.Compile.{
  Compiled, all_rejections, compile, compile_each, compiled, prune_change, pruned, take_attempt,
  verdict,
}

-- A memory file that may be written.
abbrev pub IsWritable : World → String → Type 0
IsWritable w path = is_memory_path w path ≡ true

-- What the compiler asks of `slugify` and of pathlib: a slug names a file of the archive.
abbrev pub SlugsAreFiles : World → Type 0
SlugsAreFiles w = (doc : MemoryDoc) (m : Manifest) → IsWritable w (archive_path w doc m)

module _ (w : World) where
  abbrev pub Confined : List Change → Type 0
  Confined = Every (λ c. IsWritable w (path_changed c))

  abbrev pub Tidy : Manifest → Type 0
  Tidy = Paths (IsWritable w)

  -- An attempt that ends with a tidy manifest, and with a result that has a property.
  data Keeps {A : Type 0} (P : A → Type 0) : Attempt A → Type 0 where
    returns : {x : A} {m : Manifest} → P x → Tidy m → Keeps P (ok x m)
    raises : {rs : List Rejection} {m : Manifest} → Tidy m → Keeps P (refused rs m)

  Keeps->> :
      {A B : Type 0} {P : A → Type 0} {Q : B → Type 0} {a : Attempt A}
      → {f : A → Manifest → Attempt B} → Keeps P a
      → ((x : A) (m : Manifest) → P x → Tidy m → Keeps Q (f x m))
      → Keeps Q (a >> f)
  Keeps->> (returns {x} {m} p t) k = k x m p t
  Keeps->> (raises t) k = raises t

  -- A check has nothing to say of its result.
  abbrev Any : {A : Type 0} → A → Type 0
  Any x = Unit

  abbrev Found : String × MemoryDoc → Type 0
  Found pd = IsWritable w pd.0

  unless-Keeps :
      (b : Bool) (index : ℕ) (reason : Reason) (m : Manifest)
      → Tidy m
      → Keeps (λ (x : Unit). b ≡ true) (unless b index reason m)
  unless-Keeps true index reason m t = returns refl t
  unless-Keeps false index reason m t = raises t

  parsed-Keeps :
      (path : String) (r : String ⊎ MemoryDoc) (index : ℕ) (m : Manifest)
      → IsWritable w path
      → Tidy m
      → Keeps Found (parsed w path r index m)
  parsed-Keeps path (inl reason) index m h t = raises t
  parsed-Keeps path (inr doc) index m h t = returns h t

  load-Keeps : (id : String) (index : ℕ) (m : Manifest) → Tidy m → Keeps Found (load w id index m)
  unfolding load
  load-Keeps id index m t = elim (Option-cases (entry id m)) [
    | inl e ↦ rw (e, load) (raises t)
    | inr (x, e) ↦
        rw (e, load)
          (elim (Option-cases (w.file x.path)) [
            | inl f ↦ rw f (raises t)
            | inr (text, f) ↦ rw f (
                parsed-Keeps x.path (w.parse text x.path) index m
                  (entry-Paths (IsWritable w) id m x t e) t)
          ])
  ]

  require_writable-Keeps :
      (path : String) (index : ℕ) (m : Manifest)
      → Tidy m
      → Keeps (λ (x : Unit). IsWritable w path) (require_writable w path index m)
  unfolding require_writable
  require_writable-Keeps path index m t =
      Keeps->> (unless-Keeps (is_memory_path w path) index (unwritable path) m t) (λ x m' h t'.
        holding h
          (unless-Keeps (components_fit w (w.parts path)) index (long_component path) m' t'))
    where
      holding :
          IsWritable w path
          → {P : Unit → Type 0} {a : Attempt Unit} → Keeps P a
          → Keeps (λ (x : Unit). IsWritable w path) a
      holding h (returns p t') = returns h t'
      holding h (raises t') = raises t'

  require_size-Keeps :
      (content path : String) (index : ℕ) (m : Manifest)
      → Tidy m
      → Keeps Any (require_size w content path index m)
  unfolding require_size
  require_size-Keeps content path index m t =
      elim (Bool-cases (leb (w.size content) w.max_file_bytes)) [
        | inl e ↦ rw e (returns tt t)
        | inr e ↦ rw e (raises t)
      ]

  record_write-Keeps :
      (path : String) (doc : MemoryDoc) (m : Manifest)
      → IsWritable w path
      → Tidy m
      → Keeps Confined (record_write w path doc m)
  record_write-Keeps path doc m h t =
      returns (h, tt) (put-Paths (IsWritable w) w path doc "pending" m h t)

  create_at-Keeps :
      (doc : MemoryDoc) (path : String) (index : ℕ) (m : Manifest)
      → Tidy m
      → Keeps Confined (create_at w doc path index m)
  create_at-Keeps doc path index m t =
      Keeps->> (require_writable-Keeps path index m t) (λ x m' h t'.
        elim (Bool-cases (exists w path)) [
          | inl e ↦ rw e (raises t')
          | inr e ↦ rw e (
              Keeps->> (require_size-Keeps _ path index m' t')
                (λ y m'' u t''. record_write-Keeps path (touched_doc w doc) m'' h t''))
        ])

  run_create-Keeps :
      (doc : MemoryDoc) (path : Option String) (index : ℕ) (m : Manifest)
      → Tidy m
      → Keeps Confined (run_create w doc path index m)
  unfolding run_create
  run_create-Keeps doc path index m t = elim (Bool-cases (contains doc.frontmatter.id m)) [
    | inl e ↦ rw e (raises t)
    | inr e ↦ rw e (create_at-Keeps doc (chosen_path w doc path) index m t)
  ]

  save_update-Keeps :
      (path : String) (doc : MemoryDoc) (body : Option String) (fields : List (String × String))
      → (r : String ⊎ Frontmatter) (index : ℕ) (m : Manifest) → IsWritable w path
      → Tidy m
      → Keeps Confined (save_update w path doc body fields r index m)
  save_update-Keeps path doc body fields (inl reason) index m h t = raises t
  save_update-Keeps path doc body fields (inr f) index m h t =
      Keeps->> (require_size-Keeps _ path index m t)
        (λ y m' u t'. record_write-Keeps path (rewritten w f doc body fields) m' h t')

  run_update-Keeps :
      (id : String) (body : Option String) (fields : List (String × String)) (index : ℕ)
      → (m : Manifest) → Tidy m
      → Keeps Confined (run_update w id body fields index m)
  unfolding run_update
  run_update-Keeps id body fields index m t = Keeps->> (load-Keeps id index m t) (λ pd m' h t'.
      Keeps->>
        (unless-Keeps (not (any (λ k. elem k immutable) (keys fields))) index immutable_fields m'
          t')
        (λ x m'' u t''. save_update-Keeps pd.0 pd.1 body fields _ index m'' h t''))

  run_archive-Keeps :
      (id : String) (index : ℕ) (m : Manifest)
      → SlugsAreFiles w
      → Tidy m
      → Keeps Confined (run_archive w id index m)
  unfolding run_archive
  run_archive-Keeps id index m slugs t = Keeps->> (load-Keeps id index m t) (λ pd m' h t'.
      elim (Bool-cases (is_archived pd.0)) [
        | inl e ↦ rw e (returns tt t')
        | inr e ↦ rw e (
            returns (slugs pd.1 m', (h, tt))
              (put-Paths (IsWritable w) w _ (touched_doc w pd.1) "pending" _ (slugs pd.1 m')
                (move-Paths (IsWritable w) w id _ m' (slugs pd.1 m') t')))
      ])

  load_all-Keeps :
      (ids : List String) (index : ℕ) (m : Manifest) → Tidy m → Keeps Any (load_all w ids index m)
  load_all-Keeps [] index m t = returns tt t
  load_all-Keeps (id ∷ ids) index m t =
      Keeps->> (load-Keeps id index m t) (λ x m' h t'. load_all-Keeps ids index m' t')

  -- Changes before and after.
  then-Keeps :
      (cs : List Change) (a : Attempt (List Change))
      → Confined cs
      → Keeps Confined a
      → Keeps Confined (a >> (λ ds m. ok (cs ++ ds) m))
  then-Keeps cs a h k = Keeps->> k (λ ds m g t. returns (Every-append _ cs ds h g) t)

  archive_all-Keeps :
      (ids : List String) (index : ℕ) (m : Manifest)
      → SlugsAreFiles w
      → Tidy m
      → Keeps Confined (archive_all w ids index m)
  archive_all-Keeps [] index m slugs t = returns tt t
  archive_all-Keeps (id ∷ ids) index m slugs t =
      Keeps->> (run_archive-Keeps id index m slugs t)
        (λ cs m' h t'. then-Keeps cs _ h (archive_all-Keeps ids index m' slugs t'))

  run_merge-Keeps :
      (into : String) (from_ids : List String) (body : String) (index : ℕ) (m : Manifest)
      → SlugsAreFiles w
      → Tidy m
      → Keeps Confined (run_merge w into from_ids body index m)
  unfolding run_merge
  run_merge-Keeps into from_ids body index m slugs t =
      Keeps->>
        (Keeps->>
          (Keeps->>
            (Keeps->> (unless-Keeps (not (null from_ids)) index no_sources m t)
              (λ x m₁ h t₁. unless-Keeps (not (elem into from_ids)) index into_itself m₁ t₁))
            (λ x m₁ h t₁. load-Keeps into index m₁ t₁))
          (λ pd m₁ h t₁.
            Keeps->>
              (Keeps->> (load_all-Keeps from_ids index m₁ t₁) (λ x m₂ u t₂.
                require_size-Keeps (w.render (merged w pd.1 from_ids body)) pd.0 index m₂ t₂))
              (λ x m₂ u t₂. record_write-Keeps pd.0 (merged w pd.1 from_ids body) m₂ h t₂)))
        (λ cs m₁ h t₁. then-Keeps cs _ h (archive_all-Keeps from_ids index m₁ slugs t₁))

  run_supersede-Keeps :
      (old_id : String) (doc : MemoryDoc) (index : ℕ) (m : Manifest)
      → SlugsAreFiles w
      → Tidy m
      → Keeps Confined (run_supersede w old_id doc index m)
  unfolding run_supersede
  run_supersede-Keeps old_id doc index m slugs t =
      Keeps->>
        (Keeps->> (load-Keeps old_id index m t)
          (λ x m₁ h t₁. run_create-Keeps (successor w old_id doc) none index m₁ t₁))
        (λ cs m₁ h t₁. then-Keeps cs _ h (run_archive-Keeps old_id index m₁ slugs t₁))

  delete_unless-Keeps :
      (rs : List Rejection) (id path : String) (m : Manifest)
      → IsWritable w path
      → Tidy m
      → Keeps Confined (delete_unless w rs id path m)
  delete_unless-Keeps [] id path m h t = returns (h, tt) (forget-Paths (IsWritable w) w id m t)
  delete_unless-Keeps (r ∷ rs) id path m h t = raises t

  run_delete-Keeps :
      (id : String) (index : ℕ) (job : String) (m : Manifest)
      → Tidy m
      → Keeps Confined (run_delete w id index job m)
  unfolding run_delete
  run_delete-Keeps id index job m t =
      Keeps->>
        (Keeps->> (unless-Keeps (elem job deleting_jobs) index (may_not_delete job) m t)
          (λ x m₁ h t₁. load-Keeps id index m₁ t₁))
        (λ pd m₁ h t₁. delete_unless-Keeps (problems w id pd.0 pd.1 index) id pd.0 m₁ h t₁)

  compile_one-Keeps :
      (p : MemoryPatch) (index : ℕ) (job : String) (m : Manifest)
      → SlugsAreFiles w
      → Tidy m
      → Keeps Confined (compile_one w p index job m)
  unfolding compile_one
  compile_one-Keeps (create doc path) index job m slugs t = run_create-Keeps doc path index m t
  compile_one-Keeps (update id body fields) index job m slugs t =
      run_update-Keeps id body fields index m t
  compile_one-Keeps (merge into from_ids body) index job m slugs t =
      run_merge-Keeps into from_ids body index m slugs t
  compile_one-Keeps (supersede old_id doc) index job m slugs t =
      run_supersede-Keeps old_id doc index m slugs t
  compile_one-Keeps (archive id reason) index job m slugs t = run_archive-Keeps id index m slugs t
  compile_one-Keeps (delete id reason) index job m slugs t = run_delete-Keeps id index job m t

  take_attempt-Confined :
      {a : Attempt (List Change)} (c : Compiled w)
      → Confined c.changes
      → Keeps Confined a
      → Confined (take_attempt w a c).changes × Tidy (take_attempt w a c).projected
  take_attempt-Confined c h (returns {x} p t) = (Every-append _ c.changes x h p, t)
  take_attempt-Confined c h (raises t) = (h, t)

  compile_each-Confined :
      (plan : List MemoryPatch) (index : ℕ) (job : String) (c : Compiled w)
      → SlugsAreFiles w
      → Confined c.changes
      → Tidy c.projected
      → Confined (compile_each w plan index job c).changes
  compile_each-Confined [] index job c slugs h t = h
  compile_each-Confined (p ∷ plan) index job c slugs h t =
      let one = take_attempt-Confined c h (compile_one-Keeps p index job c.projected slugs t) in
      compile_each-Confined plan (index + 1) job _ slugs one.0 one.1

  path-prune_change : (c : Change) → path_changed (prune_change w c) ≡ path_changed c
  path-prune_change (remove path) = refl
  path-prune_change (write path content) = ground arith

  map-prune-Confined : (cs : List Change) → Confined cs → Confined (map (prune_change w) cs)
  map-prune-Confined [] h = tt
  map-prune-Confined (c ∷ cs) h =
      (subst (IsWritable w) (sym (path-prune_change c)) h.0, map-prune-Confined cs h.1)

  -- From a manifest of memory paths, a plan that is accepted writes and removes memory files only:
  -- nothing outside `memory/`, no generated page, nothing reached by `..` or by an absolute path.
  pub compile-Confined :
      (plan : List MemoryPatch) (job : String) (m : Manifest) (changes : List Change)
      → SlugsAreFiles w
      → Tidy m
      → compile w plan job m ≡ inr changes
      → Confined changes
  unfolding compile
  compile-Confined plan job m changes slugs t e =
      read (all_rejections w plan job m)
        (map-prune-Confined (compiled w plan job m).changes
          (compile_each-Confined plan 0 job _ slugs tt t))
        e
    where
      read :
          (rs : List Rejection)
          → Confined (pruned w plan job m)
          → verdict w rs (pruned w plan job m) ≡ inr changes
          → Confined changes
      read [] h v = subst Confined (cc v) h
      read (r ∷ rs) h v = absurd (cc v)
