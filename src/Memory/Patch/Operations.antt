-- ===== src/Memory/Patch/Operations.antt =====
-- What each patch of a plan means, and when it is refused: the `_create`, `_update`, `_merge`,
-- `_supersede`, `_archive` and `_delete` of PatchCompiler in siatt/memory/patch.py.
use Prim.Native.String.{◌++◌ as cat}
use siatt.Base.{
  ℕ, ◌+◌, ◌*◌, String, ◌⊎◌, inl, inr, Bool, true, false, not, ◌&&◌, ◌||◌, Option, none, some, List,
  [], ◌∷◌, ◌++◌, ltb, leb, if◌then◌else◌, ◌==◌, nat_keyed, string_keyed, elem, pair_keyed, null,
  any,
}
use siatt.Memory.{
  Frontmatter, MemoryDoc, World, touch, suggested_path, is_memory_path, is_archived, archive_file,
}
use siatt.Memory.Manifest.{Manifest, entry, contains, path_of, paths, put, forget, move}
use siatt.Memory.Patch.{
  create, update, merge, supersede, archive, delete, write, remove, ok, refused, already_exists,
  unwritable, long_component, too_large, unknown_id, missing_file, unparsed, immutable_fields,
  invalid_fields, no_sources, into_itself, may_not_delete, pinned_memory, not_archived,
  touched_lately, Attempt, Change, MemoryPatch, Reason, Rejection, as_body, day, dedupe,
  deleting_jobs, immutable, is_bookkeeping, keys, max_path_component, refuse, unless, ◌>>◌,
}

module _ (w : World) where
  abbrev pub exists : String → Bool
  exists path = elim (w.file path) [ none ↦ false | some text ↦ true ]

  -- The outcome of `MemoryDoc.parse` on the file at a path.
  abbrev pub parsed : String → String ⊎ MemoryDoc → ℕ → Manifest → Attempt (String × MemoryDoc)
  parsed path (inl reason) index m = refuse index (unparsed reason) m
  parsed path (inr doc) index m = ok (path, doc) m

  unfoldable pub load : String → ℕ → Manifest → Attempt (String × MemoryDoc)
  load id index m = elim (entry id m) [
    | none ↦ refuse index (unknown_id id) m
    | some x ↦ elim (w.file x.path) [
      | none ↦ refuse index (missing_file id) m
      | some text ↦ parsed x.path (w.parse text x.path) index m
    ]
  ]

  abbrev pub archive_path : MemoryDoc → Manifest → String
  archive_path doc m =
      let candidate = archive_file (w.slugify doc.frontmatter.title) in
      if elem candidate (paths m.memories) || exists candidate
      then archive_file
          (cat (w.slugify doc.frontmatter.title) (cat "-" (w.tail doc.frontmatter.id)))
      else candidate

  abbrev pub components_fit : List String → Bool
  components_fit [] = true
  components_fit (p ∷ ps) = leb (w.size p) max_path_component && components_fit ps

  unfoldable pub require_writable : String → ℕ → Manifest → Attempt Unit
  require_writable path index m =
      unless (is_memory_path w path) index (unwritable path) m
      >> (λ _ m. unless (components_fit (w.parts path)) index (long_component path) m)

  unfoldable pub require_size : String → String → ℕ → Manifest → Attempt Unit
  require_size content path index m =
      unless (leb (w.size content) w.max_file_bytes) index (too_large path) m

  abbrev pub conflicting : ℕ → String → Option String → Manifest → Attempt (List Change)
  conflicting index id conflict m =
      refused (record { reason = already_exists id; index = some index; conflict = conflict } ∷ [])
        m

  -- A document is written and its entry put in the manifest.
  abbrev pub record_write : String → MemoryDoc → Manifest → Attempt (List Change)
  record_write path doc m = ok (write path (w.render doc) ∷ []) (put w path doc "pending" m)

  abbrev pub touched_doc : MemoryDoc → MemoryDoc
  touched_doc doc = record doc { frontmatter = touch w.stamp doc.frontmatter }

  abbrev pub create_at : MemoryDoc → String → ℕ → Manifest → Attempt (List Change)
  create_at doc path index m = require_writable path index m >> (λ _ m.
      if exists path
      then conflicting index path (some path) m
      else require_size (w.render (touched_doc doc)) path index m
        >> (λ _ m. record_write path (touched_doc doc) m))

  -- `patch.path or doc.suggested_path()`
  abbrev pub chosen_path : MemoryDoc → Option String → String
  chosen_path doc none = suggested_path w doc
  chosen_path doc (some path) = if path == "" then suggested_path w doc else path

  unfoldable pub run_create : MemoryDoc → Option String → ℕ → Manifest → Attempt (List Change)
  run_create doc path index m =
      if contains doc.frontmatter.id m
      then conflicting index doc.frontmatter.id (path_of doc.frontmatter.id m) m
      else create_at doc (chosen_path doc path) index m

  abbrev pub rewritten :
      Frontmatter → MemoryDoc → Option String → List (String × String) → MemoryDoc
  rewritten f doc body fields = record {
    frontmatter = if is_bookkeeping body fields then f else touch w.stamp f;
    body = elim body [ none ↦ doc.body | some b ↦ as_body b ];
  }

  -- The outcome of `model_validate` on the fields of an update.
  abbrev pub save_update :
      String
      → MemoryDoc
      → Option String
      → List (String × String)
      → String ⊎ Frontmatter
      → ℕ
      → Manifest
      → Attempt (List Change)
  save_update path doc body fields (inl reason) index m = refuse index (invalid_fields reason) m
  save_update path doc body fields (inr f) index m =
      require_size (w.render (rewritten f doc body fields)) path index m
      >> (λ _ m. record_write path (rewritten f doc body fields) m)

  unfoldable pub run_update :
      String → Option String → List (String × String) → ℕ → Manifest → Attempt (List Change)
  run_update id body fields index m = load id index m >> (λ pd m.
      unless (not (any (λ k. elem k immutable) (keys fields))) index immutable_fields m
      >> (λ _ m. save_update pd.0 pd.1 body fields (w.revalidate pd.1.frontmatter fields) index m))

  unfoldable pub run_archive : String → ℕ → Manifest → Attempt (List Change)
  run_archive id index m = load id index m >> (λ pd m.
      let destination = archive_path pd.1 m in
      if is_archived pd.0
      then ok [] m
      else ok (write destination (w.render (touched_doc pd.1)) ∷ remove pd.0 ∷ [])
          (put w destination (touched_doc pd.1) "pending" (move w id destination m).1))

  abbrev pub load_all : List String → ℕ → Manifest → Attempt Unit
  load_all [] index m = ok tt m
  load_all (id ∷ ids) index m = load id index m >> (λ _ m. load_all ids index m)

  abbrev pub archive_all : List String → ℕ → Manifest → Attempt (List Change)
  archive_all [] index m = ok [] m
  archive_all (id ∷ ids) index m =
      run_archive id index m >> (λ cs m. archive_all ids index m >> (λ ds m. ok (cs ++ ds) m))

  abbrev pub merged : MemoryDoc → List String → String → MemoryDoc
  merged target from_ids body = record {
    frontmatter = touch w.stamp (record target.frontmatter {
      supersedes = dedupe (target.frontmatter.supersedes ++ from_ids);
    });
    body = as_body body;
  }

  unfoldable pub run_merge : String → List String → String → ℕ → Manifest → Attempt (List Change)
  run_merge into from_ids body index m =
      unless (not (null from_ids)) index no_sources m
      >> (λ _ m. unless (not (elem into from_ids)) index into_itself m)
      >> (λ _ m. load into index m)
      >> (λ pd m.
          load_all from_ids index m
          >> (λ _ m. require_size (w.render (merged pd.1 from_ids body)) pd.0 index m)
          >> (λ _ m. record_write pd.0 (merged pd.1 from_ids body) m))
      >> (λ cs m. archive_all from_ids index m >> (λ ds m. ok (cs ++ ds) m))

  abbrev pub successor : String → MemoryDoc → MemoryDoc
  successor old_id doc = record doc {
    frontmatter = record doc.frontmatter {
      supersedes = dedupe (doc.frontmatter.supersedes ++ old_id ∷ []);
    };
  }

  unfoldable pub run_supersede : String → MemoryDoc → ℕ → Manifest → Attempt (List Change)
  run_supersede old_id doc index m =
      load old_id index m
      >> (λ _ m. run_create (successor old_id doc) none index m)
      >> (λ cs m. run_archive old_id index m >> (λ ds m. ok (cs ++ ds) m))

  -- A problem of a deletion, if the condition holds.
  abbrev pub problem : Bool → ℕ → Reason → List Rejection
  problem false index reason = []
  problem true index reason = record { reason = reason; index = some index; conflict = none } ∷ []

  abbrev pub problems : String → String → MemoryDoc → ℕ → List Rejection
  problems id path doc index =
      problem doc.frontmatter.pinned index (pinned_memory id)
      ++ problem (not (is_archived path)) index (not_archived id)
      ++ problem (ltb w.now (doc.frontmatter.updated + w.retention_floor_days * day)) index
          (touched_lately id)

  abbrev pub delete_unless : List Rejection → String → String → Manifest → Attempt (List Change)
  delete_unless [] id path m = ok (remove path ∷ []) (forget w id m).1
  delete_unless (r ∷ rs) id path m = refused (r ∷ rs) m

  unfoldable pub run_delete : String → ℕ → String → Manifest → Attempt (List Change)
  run_delete id index job m =
      unless (elem job deleting_jobs) index (may_not_delete job) m
      >> (λ _ m. load id index m)
      >> (λ pd m. delete_unless (problems id pd.0 pd.1 index) id pd.0 m)

  unfoldable pub compile_one : MemoryPatch → ℕ → String → Manifest → Attempt (List Change)
  compile_one (create doc path) index job m = run_create doc path index m
  compile_one (update id body fields) index job m = run_update id body fields index m
  compile_one (merge into from_ids body) index job m = run_merge into from_ids body index m
  compile_one (supersede old_id doc) index job m = run_supersede old_id doc index m
  compile_one (archive id reason) index job m = run_archive id index m
  compile_one (delete id reason) index job m = run_delete id index job m
