-- ===== src/Memory/Manifest.antt =====
-- The index of ids and paths, siatt/memory/manifest.py: its entries in the order of the dict.
use Prim.Native.String.{◌++◌ as cat}
use siatt.Base.{
  ℕ, String, ◌≡◌, subst, inl, inr, Bool, true, false, Option, none, some, List, [], ◌∷◌, map,
  if◌then◌else◌, Bool-cases, Option-cases, ◌==◌, nat_keyed, string_keyed, elem, pair_keyed, Every,
}
use siatt.Memory.{MemoryType, MemoryDoc, World}

pub record ManifestEntry : Type 0 where
  pub path : String
  pub title : String
  pub kind : MemoryType
  pub visibility : String
  pub checksum : String
  pub last_touched : ℕ
  pub supersedes : List String

abbrev pub Entries : Type 0
Entries = List (String × ManifestEntry)

pub record Manifest : Type 0 where
  pub generated : ℕ
  pub memories : Entries

-- `dict.get`
abbrev pub get : String → Entries → Option ManifestEntry
get id [] = none
get id ((k, x) ∷ xs) = if k == id then some x else get id xs

-- `d[id] = entry`: a key keeps its place, a new one comes last.
abbrev pub set_item : String → ManifestEntry → Entries → Entries
set_item id y [] = (id, y) ∷ []
set_item id y ((k, x) ∷ xs) = if k == id then (k, y) ∷ xs else (k, x) ∷ set_item id y xs

-- `dict.pop`
abbrev pub pop : String → Entries → Entries
pop id [] = []
pop id ((k, x) ∷ xs) = if k == id then xs else (k, x) ∷ pop id xs

abbrev pub entry : String → Manifest → Option ManifestEntry
entry id m = get id m.memories

abbrev pub contains : String → Manifest → Bool
contains id m = elim (entry id m) [ none ↦ false | some x ↦ true ]

abbrev pub path_of : String → Manifest → Option String
path_of id m = elim (entry id m) [ none ↦ none | some x ↦ some x.path ]

abbrev pub find_successor : String → Entries → Option String
find_successor id [] = none
find_successor id ((k, x) ∷ xs) = if elem id x.supersedes then some k else find_successor id xs

abbrev pub successor_of : String → Manifest → Option String
successor_of id m = find_successor id m.memories

-- The first entry whose path passes a test.
abbrev pub find_path : (String → Bool) → Entries → Option ManifestEntry
find_path p [] = none
find_path p ((k, x) ∷ xs) = if p x.path then some x else find_path p xs

abbrev pub paths : Entries → List String
paths = map (λ kx. kx.1.path)

module _ (w : World) where
  abbrev pub candidates : String → List String
  candidates target =
      target ∷ cat target ".md" ∷ cat "memory/" target ∷ cat "memory/" (cat target ".md") ∷ []

  unfoldable pub by_path : String → Manifest → Option ManifestEntry
  by_path target m = elim (find_path (λ p. elem p (candidates target)) m.memories) [
    | some x ↦ some x
    | none ↦ find_path (λ p. w.stem p == w.without_md (w.name target)) m.memories
  ]

  abbrev pub follow : Option String → Manifest → Option ManifestEntry
  follow none m = none
  follow (some successor) m = entry successor m

  -- A target after `strip`.
  abbrev pub resolve_stripped : String → Manifest → Option ManifestEntry
  resolve_stripped target m =
      if target == ""
      then none
      else if w.is_memory_id target
      then elim (entry target m) [ some x ↦ some x | none ↦ follow (successor_of target m) m ]
      else by_path target m

  unfoldable pub resolve : String → Manifest → Option ManifestEntry
  resolve target m = resolve_stripped (w.strip target) m

  abbrev pub unresolved : List String → Manifest → List String
  unresolved [] m = []
  unresolved (target ∷ targets) m =
      let rest = unresolved targets m in
      elim (resolve target m) [ none ↦ target ∷ rest | some x ↦ rest ]

  unfoldable pub dangling : MemoryDoc → Manifest → List String
  dangling doc m = unresolved (w.links doc) m

  abbrev pub new_entry : String → MemoryDoc → String → ManifestEntry
  new_entry path doc checksum = record {
    path = path;
    title = doc.frontmatter.title;
    kind = doc.frontmatter.kind;
    visibility = doc.frontmatter.visibility;
    checksum = checksum;
    last_touched = w.stamp;
    supersedes = doc.frontmatter.supersedes;
  }

  -- `record`, which is a word of the language.
  unfoldable pub put : String → MemoryDoc → String → Manifest → Manifest
  put path doc checksum m = record {
    generated = w.stamp;
    memories = set_item doc.frontmatter.id (new_entry path doc checksum) m.memories;
  }

  unfoldable pub forget : String → Manifest → Bool × Manifest
  forget id m = elim (entry id m) [
    | none ↦ (false, m)
    | some x ↦ (true, record { generated = w.stamp; memories = pop id m.memories })
  ]

  unfoldable pub move : String → String → Manifest → Bool × Manifest
  move id new_path m = elim (entry id m) [
    | none ↦ (false, m)
    | some x ↦ (
      true,
      record {
        generated = w.stamp;
        memories = set_item id (record x { path = new_path; last_touched = w.stamp }) m.memories;
      },
    )
  ]

-- A property of every path of a manifest.
pub record Paths (P : String → Type 0) (m : Manifest) : Type 0 where
  pub all : Every (λ (kx : String × ManifestEntry). P kx.1.path) m.memories

module _ (P : String → Type 0) where
  Every-set_item :
      (id : String) (y : ManifestEntry) (xs : Entries)
      → P y.path
      → Every (λ (kx : String × ManifestEntry). P kx.1.path) xs
      → Every (λ (kx : String × ManifestEntry). P kx.1.path) (set_item id y xs)
  Every-set_item id y [] p h = (p, tt)
  Every-set_item id y ((k, x) ∷ xs) p h = elim (Bool-cases (k == id)) [
    | inl e ↦ rw e (p, h.1)
    | inr e ↦ rw e (h.0, Every-set_item id y xs p h.1)
  ]

  Every-pop :
      (id : String) (xs : Entries)
      → Every (λ (kx : String × ManifestEntry). P kx.1.path) xs
      → Every (λ (kx : String × ManifestEntry). P kx.1.path) (pop id xs)
  Every-pop id [] h = tt
  Every-pop id ((k, x) ∷ xs) h = elim (Bool-cases (k == id)) [
    | inl e ↦ rw e h.1
    | inr e ↦ rw e (h.0, Every-pop id xs h.1)
  ]

  get-path :
      (id : String) (xs : Entries) (x : ManifestEntry)
      → Every (λ (kx : String × ManifestEntry). P kx.1.path) xs
      → get id xs ≡ some x
      → P x.path
  get-path id [] x h e = absurd (cc e)
  get-path id ((k, y) ∷ xs) x h e = elim (Bool-cases (k == id)) [
    | inl t ↦ subst (λ (z : ManifestEntry). P z.path) (some_inj (rw t at e)) h.0
    | inr t ↦ get-path id xs x h.1 (rw t at e)
  ]
    where
      some_inj : {a b : ManifestEntry} → some a ≡ some b → a ≡ b
      some_inj p = cc p

  pub entry-Paths :
      (id : String) (m : Manifest) (x : ManifestEntry) → Paths P m → entry id m ≡ some x → P x.path
  entry-Paths id m x h e = get-path id m.memories x h.all e

  pub put-Paths :
      (w : World) (path : String) (doc : MemoryDoc) (checksum : String) (m : Manifest)
      → P path
      → Paths P m
      → Paths P (put w path doc checksum m)
  unfolding put
  put-Paths w path doc checksum m p h = record {
    all = Every-set_item doc.frontmatter.id _ m.memories p h.all;
  }

  pub forget-Paths :
      (w : World) (id : String) (m : Manifest) → Paths P m → Paths P (forget w id m).1
  unfolding forget
  forget-Paths w id m h = elim (Option-cases (entry id m)) [
    | inl e ↦ rw (e, forget) h
    | inr (x, e) ↦ rw (e, forget) (record { all = Every-pop id m.memories h.all })
  ]

  pub move-Paths :
      (w : World) (id new_path : String) (m : Manifest)
      → P new_path
      → Paths P m
      → Paths P (move w id new_path m).1
  unfolding move
  move-Paths w id new_path m p h = elim (Option-cases (entry id m)) [
    | inl e ↦ rw (e, move) h
    | inr (x, e) ↦ rw (e, move) (record { all = Every-set_item id _ m.memories p h.all })
  ]
