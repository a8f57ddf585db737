-- ===== src/Memory/Patch/Deletes.antt =====
-- Which deletions PatchCompiler of siatt/memory/patch.py lets through.
use siatt.Base.{
  ℕ, ◌+◌, ◌*◌, ◌≤◌, String, ◌≡◌, refl, ap, ◌∙◌, subst, inl, inr, true, false, some, List, [], ◌∷◌,
  ◌++◌, map, arith, Bool-cases, Option-cases, nat_keyed, string_keyed, elem, same_refl, elem-append,
  pair_keyed,
}
use siatt.Memory.{MemoryDoc, World, is_archived}
use siatt.Memory.Manifest.{Manifest, ManifestEntry, entry}
use siatt.Memory.Patch.{
  create, update, merge, supersede, archive, delete, write, remove, ok, refused, may_not_delete,
  Attempt, Change, MemoryPatch, Rejection, day, deleting_jobs,
}
use siatt.Memory.Patch.Operations.{compile_one, delete_unless, problems, run_delete}
use siatt.Memory.Patch.Compile.{
  Compiled, compile, compile_each, compiled, prune_change, take_attempt,
}
use siatt.Memory.Patch.Attempts.{
  append-empty, Ensures, returns, raises, Ensures->>, unless-Ensures, weaken, compile-accepted,
  IsLoaded, load-Ensures,
}

-- The paths that changes remove.
abbrev pub removed : List Change → List String
removed [] = []
removed (write path content ∷ cs) = removed cs
removed (remove path ∷ cs) = path ∷ removed cs

removed-append : (cs ds : List Change) → removed (cs ++ ds) ≡ removed cs ++ removed ds
removed-append [] ds = refl
removed-append (write path content ∷ cs) ds = removed-append cs ds
removed-append (remove path ∷ cs) ds = ap (λ ps. path ∷ ps) (removed-append cs ds)

abbrev Keeps : List Change → List Change → Type 0
Keeps cs ds = (path : String) → elem path (removed cs) ≡ true → elem path (removed ds) ≡ true

Keeps-first : (cs ds : List Change) → Keeps cs (cs ++ ds)
Keeps-first cs ds path h =
    ap (elem path) (removed-append cs ds)
    ∙ elem-append path (removed cs) (removed ds)
    ∙ ground (arith, h)

Keeps-last : (cs ds : List Change) → Keeps ds (cs ++ ds)
Keeps-last cs ds path h =
    ap (elem path) (removed-append cs ds)
    ∙ elem-append path (removed cs) (removed ds)
    ∙ rw h (ground arith)

module _ (w : World) where
  removed-prune : (cs : List Change) → removed (map (prune_change w) cs) ≡ removed cs
  removed-prune [] = refl
  removed-prune (remove path ∷ cs) = ap (λ ps. path ∷ ps) (removed-prune cs)
  removed-prune (write path content ∷ cs) = elim (Option-cases w.prune) [
    | inl e ↦ rw e (removed-prune cs)
    | inr (prune, e) ↦ elim (Bool-cases (w.is_markdown path)) [
      | inr plain ↦ rw (e, plain) (removed-prune cs)
      | inl page ↦ elim (Option-cases (prune content)) [
        | inl kept ↦ rw (e, page, kept) (removed-prune cs)
        | inr (body, cut) ↦ rw (e, page, cut) (removed-prune cs)
      ]
    ]
  ]

  -- A job may delete a memory of a manifest: the document on disk at the path of its entry is
  -- archived, is not pinned, and has not changed for as long as the retention floor; and that path
  -- is one that the changes remove.
  pub record MayDelete (job id : String) (m : Manifest) (changes : List Change) : Type 0 where
    pub listed_as : ManifestEntry
    pub text : String
    pub doc : MemoryDoc
    pub listed : entry id m ≡ some listed_as
    pub on_disk : w.file listed_as.path ≡ some text
    pub reads : w.parse text listed_as.path ≡ inr doc
    pub trusted : elem job deleting_jobs ≡ true
    pub unpinned : doc.frontmatter.pinned ≡ false
    pub archived : is_archived listed_as.path ≡ true
    pub rested : doc.frontmatter.updated + w.retention_floor_days * day ≤ w.now
    pub taken : elem listed_as.path (removed changes) ≡ true

  abbrev pub Allowed : String → MemoryPatch → Manifest → List Change → Type 0
  Allowed job (delete id reason) m changes = MayDelete job id m changes
  Allowed job _ m changes = Unit

  -- Every patch of a plan, at the manifest that the patches before it leave.
  abbrev pub AllAllowed : List MemoryPatch → ℕ → String → Compiled w → List Change → Type 0
  AllAllowed [] index job c changes = Unit
  AllAllowed (p ∷ plan) index job c changes =
      Allowed job p c.projected changes
      × AllAllowed plan (index + 1) job (take_attempt w (compile_one w p index job c.projected) c)
          changes

  MayDelete-Keeps :
      {job id : String} {m : Manifest} {cs ds : List Change}
      → Keeps cs ds
      → MayDelete job id m cs
      → MayDelete job id m ds
  MayDelete-Keeps k h = record {
    listed_as = h.listed_as;
    text = h.text;
    doc = h.doc;
    listed = h.listed;
    on_disk = h.on_disk;
    reads = h.reads;
    trusted = h.trusted;
    unpinned = h.unpinned;
    archived = h.archived;
    rested = h.rested;
    taken = k h.listed_as.path h.taken;
  }

  delete_unless-Ensures :
      (rs : List Rejection) (id path : String) (m : Manifest)
      → Ensures
          (λ (cs : List Change) after. (rs ≡ []) × (cs ≡ remove path ∷ []))
          (delete_unless w rs id path m)
  delete_unless-Ensures [] id path m = returns (refl, refl)
  delete_unless-Ensures (r ∷ rs) id path m = raises

  -- With no problem left, each of the three conditions holds.
  problems-none :
      (id path : String) (doc : MemoryDoc) (index : ℕ)
      → problems w id path doc index ≡ []
      → (doc.frontmatter.pinned ≡ false)
        × (is_archived path ≡ true)
        × (doc.frontmatter.updated + w.retention_floor_days * day ≤ w.now)
  problems-none id path doc index e = (ground arith, ground arith, ground arith)

  deleted :
      (id : String) (index : ℕ) (job : String) (m : Manifest) (pd : String × MemoryDoc)
      (cs : List Change)
      → elem job deleting_jobs ≡ true
      → IsLoaded w id m pd
      → problems w id pd.0 pd.1 index ≡ []
      → cs ≡ remove pd.0 ∷ []
      → MayDelete job id m cs
  deleted id index job m pd cs t l none_left e =
      let good = problems-none id pd.0 pd.1 index none_left in
      record {
        listed_as = l.listed_as;
        text = l.text;
        doc = pd.1;
        listed = l.listed;
        on_disk = l.on_disk;
        reads = l.reads;
        trusted = t;
        unpinned = good.0;
        archived = subst (λ path. is_archived path ≡ true) l.at_path good.1;
        rested = good.2;
        taken = rw (e, l.at_path, same_refl l.listed_as.path) refl;
      }

  run_delete-Ensures :
      (id : String) (index : ℕ) (job : String) (m : Manifest)
      → Ensures (λ (cs : List Change) after. MayDelete job id m cs) (run_delete w id index job m)
  unfolding run_delete
  run_delete-Ensures id index job m =
      Ensures->> {P = λ pd after. (elem job deleting_jobs ≡ true) × IsLoaded w id m pd}
        (Ensures->> (unless-Ensures (elem job deleting_jobs) index (may_not_delete job) m)
          (λ x m₁ t.
            weaken (λ pd after l. (t.0, subst (λ n. IsLoaded w id n pd) t.1 l))
              (load-Ensures w id index m₁)))
        (λ pd m₁ h.
          weaken (λ cs after e. deleted id index job m pd cs h.0 h.1 e.0 e.1)
            (delete_unless-Ensures (problems w id pd.0 pd.1 index) id pd.0 m₁))

  take_attempt-Allowed :
      (job id : String) (m : Manifest) (a : Attempt (List Change)) (c : Compiled w)
      → Ensures (λ (cs : List Change) after. MayDelete job id m cs) a
      → (take_attempt w a c).rejections ≡ []
      → MayDelete job id m (take_attempt w a c).changes
  take_attempt-Allowed job id m _ c (returns {x} p) e = MayDelete-Keeps (Keeps-last c.changes x) p
  take_attempt-Allowed job id m _ c (raises {r} {rs}) e =
      absurd (cc ((append-empty c.rejections (r ∷ rs) e).1))

  take_attempt-Keeps :
      (a : Attempt (List Change)) (c : Compiled w) → Keeps c.changes (take_attempt w a c).changes
  take_attempt-Keeps (ok cs m) c = Keeps-first c.changes cs
  take_attempt-Keeps (refused rs m) c = λ path h. h

  compile_each-Keeps :
      (plan : List MemoryPatch) (index : ℕ) (job : String) (c : Compiled w)
      → Keeps c.changes (compile_each w plan index job c).changes
  compile_each-Keeps [] index job c path h = h
  compile_each-Keeps (p ∷ plan) index job c path h =
      compile_each-Keeps plan (index + 1) job _ path
        (take_attempt-Keeps (compile_one w p index job c.projected) c path h)

  take_attempt-Allows :
      (p : MemoryPatch) (index : ℕ) (job : String) (c : Compiled w)
      → (take_attempt w (compile_one w p index job c.projected) c).rejections ≡ []
      → Allowed job p c.projected (take_attempt w (compile_one w p index job c.projected) c).changes
  unfolding compile_one
  take_attempt-Allows (create doc path) index job c e = tt
  take_attempt-Allows (update id body fields) index job c e = tt
  take_attempt-Allows (merge into ids body) index job c e = tt
  take_attempt-Allows (supersede id doc) index job c e = tt
  take_attempt-Allows (archive id reason) index job c e = tt
  take_attempt-Allows (delete id reason) index job c e =
      take_attempt-Allowed job id c.projected _ c (run_delete-Ensures id index job c.projected) e

  Allowed-Keeps :
      (job : String) (p : MemoryPatch) (m : Manifest) (cs ds : List Change)
      → Keeps cs ds
      → Allowed job p m cs
      → Allowed job p m ds
  Allowed-Keeps job (create doc path) m cs ds k h = tt
  Allowed-Keeps job (update id body fields) m cs ds k h = tt
  Allowed-Keeps job (merge into ids body) m cs ds k h = tt
  Allowed-Keeps job (supersede id doc) m cs ds k h = tt
  Allowed-Keeps job (archive id reason) m cs ds k h = tt
  Allowed-Keeps job (delete id reason) m cs ds k h = MayDelete-Keeps k h

  take_attempt-kept :
      (a : Attempt (List Change)) (c : Compiled w)
      → (take_attempt w a c).rejections ≡ []
      → c.rejections ≡ []
  take_attempt-kept (ok cs m) c e = e
  take_attempt-kept (refused rs m) c e = (append-empty c.rejections rs e).0

  compile_each-Allowed :
      (plan : List MemoryPatch) (index : ℕ) (job : String) (c : Compiled w) (changes : List Change)
      → Keeps (compile_each w plan index job c).changes changes
      → (compile_each w plan index job c).rejections ≡ []
      → (c.rejections ≡ []) × AllAllowed plan index job c changes
  compile_each-Allowed [] index job c changes k e = (e, tt)
  compile_each-Allowed (p ∷ plan) index job c changes k e =
      let a = compile_one w p index job c.projected in
      let next = take_attempt w a c in
      let rest = compile_each-Allowed plan (index + 1) job next changes k e in
      (
        take_attempt-kept a c rest.0,
        (
          Allowed-Keeps job p c.projected next.changes changes
              (λ path h. k path (compile_each-Keeps plan (index + 1) job next path h))
              (take_attempt-Allows p index job c rest.0),
          rest.1,
        ),
      )

  -- Every deletion of an accepted plan comes from a job that may delete, `forget` alone; the
  -- manifest that the patches before it leave lists the memory, the document on disk at the path
  -- of that entry is archived, unpinned and older than the retention floor, and the changes of the
  -- plan remove that path.
  pub compile-Allowed :
      (plan : List MemoryPatch) (job : String) (m : Manifest) (changes : List Change)
      → compile w plan job m ≡ inr changes
      → AllAllowed plan 0 job (record { rejections = []; changes = []; projected = m }) changes
  compile-Allowed plan job m changes e =
      let accepted = compile-accepted w plan job m changes e in
      let c = compiled w plan job m in
      (compile_each-Allowed plan 0 job _ changes
        (λ path h.
          subst (λ cs. elem path (removed cs) ≡ true) accepted.1
            (ap (elem path) (removed-prune c.changes) ∙ h))
        (append-empty c.rejections _ accepted.0).0).1
