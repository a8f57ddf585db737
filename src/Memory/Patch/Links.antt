-- ===== src/Memory/Patch/Links.antt =====
-- The links that PatchCompiler of siatt/memory/patch.py accepts, against a description of what a
-- link names in the manifest of siatt/memory/manifest.py.
use Prim.Native.String.{◌++◌ as cat}
use mathlib.Core.List.{Memᴰ}
use mathlib.Core.List.Memᴰ
use mathlib.Core.List.Memᴰ.{head, tail}
use siatt.Base.{
  String, ◌≡◌, refl, sym, ap, ◌∙◌, subst, inl, inr, Bool, true, false, Option, none, some, List, [],
  ◌∷◌, map, Bool-cases, Option-cases, ◌==◌, nat_keyed, string_keyed, elem, pair_keyed, Every,
}
use siatt.Memory.{MemoryDoc, World}
use siatt.Memory.Manifest.{
  Manifest, ManifestEntry, Entries, get, entry, find_successor, find_path, successor_of, paths,
  by_path, candidates, follow, resolve, resolve_stripped, unresolved, dangling,
}
use siatt.Memory.Patch.{
  create, update, merge, supersede, archive, delete, write, Change, MemoryPatch,
}
use siatt.Memory.Patch.Compile.{
  check_deleted, check_plan_limits, check_written, compile, compiled, dangling_in, inbound_links,
  pruned, still_links,
}
use siatt.Memory.Patch.Attempts.{append-empty, compile-accepted}

-- An entry of the index, under its id.
abbrev pub Listed : String → ManifestEntry → Entries → Type 0
Listed id x xs = Memᴰ (id, x) xs

get-Listed : (id : String) (xs : Entries) (x : ManifestEntry) → get id xs ≡ some x → Listed id x xs
get-Listed id [] x e = absurd (cc e)
get-Listed id ((k, y) ∷ xs) x e = elim (Bool-cases (k == id)) [
  | inl h ↦
      let same : y ≡ x = cc (rw h at e) in
      subst (λ z. Listed id z ((k, y) ∷ xs)) same
        (subst (λ j. Listed j y ((k, y) ∷ xs)) ((string_keyed.same_iff k id).0 h) (head refl))
  | inr h ↦ tail (get-Listed id xs x (rw h at e))
]

find_successor-Listed :
    (id k : String) (xs : Entries)
    → find_successor id xs ≡ some k
    → (y : ManifestEntry) × (Listed k y xs × (elem id y.supersedes ≡ true))
find_successor-Listed id k [] e = absurd (cc e)
find_successor-Listed id k ((j, y) ∷ xs) e = elim (Bool-cases (elem id y.supersedes)) [
  | inl h ↦
      let same : j ≡ k = cc (rw h at e) in
      (y, (subst (λ i. Listed i y ((j, y) ∷ xs)) same (head refl), h))
  | inr h ↦ let (z, (l, s)) = find_successor-Listed id k xs (rw h at e) in (z, (tail l, s))
]

find_path-Listed :
    (p : String → Bool) (xs : Entries) (x : ManifestEntry)
    → find_path p xs ≡ some x
    → (id : String) × (Listed id x xs × (p x.path ≡ true))
find_path-Listed p [] x e = absurd (cc e)
find_path-Listed p ((j, y) ∷ xs) x e = elim (Bool-cases (p y.path)) [
  | inl h ↦
      let same : y ≡ x = cc (rw h at e) in
      (j, subst (λ z. Listed j z ((j, y) ∷ xs) × (p z.path ≡ true)) same (head refl, h))
  | inr h ↦ let (id, (l, s)) = find_path-Listed p xs x (rw h at e) in (id, (tail l, s))
]

map-empty : {A B : Type 0} (f : A → B) (xs : List A) → map f xs ≡ [] → xs ≡ []
map-empty f [] e = refl
map-empty f (x ∷ xs) e = absurd (cc e)

module _ (w : World) where
  -- What a target, after `strip`, may name in an index: the memory of that id, a memory whose entry
  -- supersedes it, or a memory by its path, whole or in part, or by the name of its file.
  pub data Names (target : String) (xs : Entries) : Type 0 where
    of_id : (x : ManifestEntry) → Listed target x xs → Names target xs
    of_heir :
        (id : String) (x y : ManifestEntry)
        → Listed id x xs
        → Listed id y xs
        → elem target y.supersedes ≡ true
        → Names target xs
    of_path :
        (id : String) (x : ManifestEntry)
        → Listed id x xs
        → elem x.path (
            target
            ∷ cat target ".md"
            ∷ cat "memory/" target
            ∷ cat "memory/" (cat target ".md")
            ∷ [])
          ≡ true
        → Names target xs
    of_name :
        (id : String) (x : ManifestEntry)
        → Listed id x xs
        → (w.stem x.path == w.without_md (w.name target)) ≡ true
        → Names target xs

  by_path-Names :
      (target : String) (m : Manifest) (x : ManifestEntry)
      → by_path w target m ≡ some x
      → Names target m.memories
  unfolding by_path
  by_path-Names target m x e =
      elim (Option-cases (find_path (λ p. elem p (candidates w target)) m.memories)) [
        | inr (y, h) ↦ let (id, (l, s)) = find_path-Listed _ m.memories y h in of_path id y l s
        | inl h ↦
            let (id, (l, s)) = find_path-Listed _ m.memories x (rw (h, by_path) at e) in
            of_name id x l s
      ]

  follow-Names :
      (target : String) (o : Option String) (m : Manifest) (x : ManifestEntry)
      → successor_of target m ≡ o
      → follow w o m ≡ some x
      → Names target m.memories
  follow-Names target none m x s e = absurd (cc e)
  follow-Names target (some k) m x s e =
      let (y, (l, t)) = find_successor-Listed target k m.memories s in
      of_heir k x y (get-Listed k m.memories x e) l t

  resolve-Names :
      (target : String) (m : Manifest) (x : ManifestEntry)
      → resolve w target m ≡ some x
      → Names (w.strip target) m.memories
  unfolding resolve
  resolve-Names target m x e = stripped (w.strip target) e
    where
      stripped : (t : String) → resolve_stripped w t m ≡ some x → Names t m.memories
      stripped t h = elim (Bool-cases (t == "")) [
        | inl empty ↦ absurd (cc (rw empty at h))
        | inr full ↦ elim (Bool-cases (w.is_memory_id t)) [
          | inr plain ↦ by_path-Names t m x (rw (full, plain) at h)
          | inl marked ↦ elim (Option-cases (entry t m)) [
            | inr (y, f) ↦ of_id y (get-Listed t m.memories y f)
            | inl f ↦ follow-Names t (successor_of t m) m x refl (rw (full, marked, f) at h)
          ]
        ]
      ]

  unresolved-Names :
      (targets : List String) (m : Manifest)
      → unresolved w targets m ≡ []
      → Every (λ t. Names (w.strip t) m.memories) targets
  unresolved-Names [] m e = tt
  unresolved-Names (t ∷ targets) m e = elim (Option-cases (resolve w t m)) [
    | inl h ↦ absurd (cc (rw (h, unresolved) at e))
    | inr (x, h) ↦ (resolve-Names t m x h, unresolved-Names targets m (rw (h, unresolved) at e))
  ]

  Every-Names :
      (target : String) (targets : List String) (m : Manifest)
      → Every (λ t. Names (w.strip t) m.memories) targets
      → elem target targets ≡ true
      → Names (w.strip target) m.memories
  Every-Names target [] m h e = absurd (cc e)
  Every-Names target (t ∷ targets) m h e = elim (Bool-cases (t == target)) [
    | inl here ↦
        subst (λ i. Names (w.strip i) m.memories) ((string_keyed.same_iff t target).0 here) h.0
    | inr other ↦ Every-Names target targets m h.1 (rw other at e)
  ]

  check_written-Names :
      (path content : String) (doc : MemoryDoc) (cs : List Change) (m : Manifest)
      → check_written w cs m ≡ []
      → Memᴰ (write path content) cs
      → w.is_markdown path ≡ true
      → w.parse content path ≡ inr doc
      → Every (λ t. Names (w.strip t) m.memories) (w.links doc)
  unfolding dangling
  check_written-Names path content doc [] m e there page reads = absurd (Memᴰ.not-nil there)
  check_written-Names path content doc (c ∷ cs) m e (tail there) page reads =
      check_written-Names path content doc cs m (append-empty _ (check_written w cs m) e).1 there
        page reads
  check_written-Names path content doc (c ∷ cs) m e (head same) page reads =
      let none_here = map-empty _ (dangling_in w c m) (append-empty _ (check_written w cs m) e).0 in
      let fine : dangling_in w (write path content) m ≡ [] =
        ap (λ d. dangling_in w d m) same ∙ none_here in
      unresolved-Names (w.links doc) m (rw (page, reads) at fine)

  -- Every link of a markdown page that an accepted plan writes, where the page parses, names a memory
  -- of the manifest that the plan leaves: by its id, by an id that one of its entries supersedes, by
  -- its path, whole or in part, or by the name of its file.
  pub compile-Names :
      (plan : List MemoryPatch) (job : String) (m : Manifest) (changes : List Change)
      (path content target : String) (doc : MemoryDoc)
      → compile w plan job m ≡ inr changes
      → Memᴰ (write path content) changes
      → w.is_markdown path ≡ true
      → w.parse content path ≡ inr doc
      → elem target (w.links doc) ≡ true
      → Names (w.strip target) (compiled w plan job m).projected.memories
  compile-Names plan job m changes path content target doc e there page reads linked =
      let accepted = compile-accepted w plan job m changes e in
      let c = compiled w plan job m in
      let cs = pruned w plan job m in
      let one = append-empty c.rejections _ accepted.0 in
      let two = append-empty (check_plan_limits w cs) _ one.1 in
      let three = append-empty (check_written w cs c.projected) _ two.1 in
      Every-Names target (w.links doc) c.projected
        (check_written-Names path content doc cs c.projected three.0
          (subst (Memᴰ (write path content)) (sym accepted.1) there) page reads)
        linked

  inbound_links-none :
      (id path text : String) (doc : MemoryDoc) (k : String) (x : ManifestEntry) (xs : Entries)
      → inbound_links w id (paths xs) ≡ []
      → Listed k x xs
      → w.file x.path ≡ some text
      → w.parse text x.path ≡ inr doc
      → elem id (w.links doc) ≡ false
  inbound_links-none id path text doc k x [] e there f r = absurd (Memᴰ.not-nil there)
  inbound_links-none id path text doc k x ((j, y) ∷ xs) e there f r =
      elim (Bool-cases (still_links w id y.path)) [
        | inl h ↦ absurd (cc (rw h at e))
        | inr h ↦ elim (Memᴰ.cases_cons there) [
          | inl same ↦
              let here : still_links w id x.path ≡ false =
                ap (λ (z : String × ManifestEntry). still_links w id z.1.path) same ∙ h in
              rw (f, r, still_links) at here
          | inr more ↦ inbound_links-none id path text doc k x xs (rw h at e) more f r
        ]
      ]

  check_deleted-rest :
      (p : MemoryPatch) (plan : List MemoryPatch) (m : Manifest)
      → check_deleted w (p ∷ plan) m ≡ []
      → check_deleted w plan m ≡ []
  check_deleted-rest (delete id reason) plan m e =
      (append-empty (inbound_links w id (paths m.memories)) _ e).1
  check_deleted-rest (create doc path) plan m e = e
  check_deleted-rest (update id body fields) plan m e = e
  check_deleted-rest (merge into ids body) plan m e = e
  check_deleted-rest (supersede id doc) plan m e = e
  check_deleted-rest (archive id reason) plan m e = e

  check_deleted-none :
      (id : String) (reason : String) (plan : List MemoryPatch) (m : Manifest)
      → check_deleted w plan m ≡ []
      → Memᴰ (delete id reason) plan
      → inbound_links w id (paths m.memories) ≡ []
  check_deleted-none id reason [] m e there = absurd (Memᴰ.not-nil there)
  check_deleted-none id reason (p ∷ plan) m e (tail there) =
      check_deleted-none id reason plan m (check_deleted-rest p plan m e) there
  check_deleted-none id reason (p ∷ plan) m e (head same) =
      (append-empty (inbound_links w id (paths m.memories)) _
        (ap (λ q. check_deleted w (q ∷ plan) m) same ∙ e)).0

  -- No file of the manifest that an accepted plan leaves, as it stands on disk and as far as it parses,
  -- links by its id to a memory that the plan deletes.
  pub compile-unlinked :
      (plan : List MemoryPatch) (job : String) (m : Manifest) (changes : List Change)
      (id reason k text : String) (x : ManifestEntry) (doc : MemoryDoc)
      → compile w plan job m ≡ inr changes
      → Memᴰ (delete id reason) plan
      → Listed k x (compiled w plan job m).projected.memories
      → w.file x.path ≡ some text
      → w.parse text x.path ≡ inr doc
      → elem id (w.links doc) ≡ false
  compile-unlinked plan job m changes id reason k text x doc e there l f r =
      let accepted = compile-accepted w plan job m changes e in
      let c = compiled w plan job m in
      let cs = pruned w plan job m in
      let one = append-empty c.rejections _ accepted.0 in
      let two = append-empty (check_plan_limits w cs) _ one.1 in
      let three = append-empty (check_written w cs c.projected) _ two.1 in
      let four = append-empty (check_deleted w plan c.projected) _ three.1 in
      inbound_links-none id x.path text doc k x c.projected.memories
        (check_deleted-none id reason plan c.projected four.0 there) l f r
