-- ===== src/Memory/Patch.antt =====
-- The typed plans and the compiler of siatt/memory/patch.py, `PatchCompiler`. The projected
-- manifest is passed from one patch to the next, also past a patch that is refused.
pub mod Operations
pub mod Compile
pub mod Confined
pub mod Attempts
pub mod Deletes
pub mod Links
use Prim.Native.String.{◌++◌ as cat}
use text.Mathlib.Text.{starts_with}
use siatt.Base.{
  ℕ, String, Bool, true, false, not, ◌&&◌, Option, none, some, List, [], ◌∷◌, map, if◌then◌else◌,
  ◌==◌, nat_keyed, string_keyed, elem, pair_keyed, null,
}
use siatt.Memory.{MemoryDoc}
use siatt.Memory.Manifest.{Manifest, forget}

pub data MemoryPatch : Type 0 where
  create : MemoryDoc → Option String → MemoryPatch
  -- The id, the body, and the frontmatter fields as JSON.
  update : String → Option String → List (String × String) → MemoryPatch
  -- `into`, `from_ids` and the body.
  merge : String → List String → String → MemoryPatch
  supersede : String → MemoryDoc → MemoryPatch
  archive : String → String → MemoryPatch
  delete : String → String → MemoryPatch

pub data Change : Type 0 where
  write : String → String → Change
  remove : String → Change

abbrev pub path_changed : Change → String
path_changed (write path content) = path
path_changed (remove path) = path

-- What a rejection says.
pub data Reason : Type 0 where
  already_exists : String → Reason
  unwritable : String → Reason
  long_component : String → Reason
  too_large : String → Reason
  unknown_id : String → Reason
  missing_file : String → Reason
  unparsed : String → Reason
  immutable_fields : Reason
  invalid_fields : String → Reason
  no_sources : Reason
  into_itself : Reason
  may_not_delete : String → Reason
  pinned_memory : String → Reason
  not_archived : String → Reason
  touched_lately : String → Reason
  too_many_files : ℕ → Reason
  dangling_link : String → String → Reason
  secret_material : String → Reason

pub record Rejection : Type 0 where
  pub reason : Reason
  pub index : Option ℕ
  pub conflict : Option String

-- A step on the projected manifest: it returns, or raises PatchError with what it changed so far.
pub data Attempt (A : Type 0) : Type 0 where
  ok : A → Manifest → Attempt A
  refused : List Rejection → Manifest → Attempt A

infixl 15 ◌>>◌
abbrev pub ◌>>◌ : {A B : Type 0} → Attempt A → (A → Manifest → Attempt B) → Attempt B
ok a m >> f = f a m
refused rs m >> f = refused rs m

abbrev pub refuse : {A : Type 0} → ℕ → Reason → Manifest → Attempt A
refuse index reason m =
    refused (record { reason = reason; index = some index; conflict = none } ∷ []) m

-- `raise PatchError` where a condition holds.
abbrev pub unless : Bool → ℕ → Reason → Manifest → Attempt Unit
unless true index reason m = ok tt m
unless false index reason m = refuse index reason m

abbrev pub deleting_jobs : List String
deleting_jobs = "forget" ∷ []

abbrev pub immutable : List String
immutable = "id" ∷ "created" ∷ "updated" ∷ []

abbrev pub derived : List String
derived = "salience" ∷ "visibility" ∷ []

abbrev pub max_path_component : ℕ
max_path_component = 255

abbrev pub day : ℕ
day = 86400000

abbrev pub keys : List (String × String) → List String
keys = map (λ kv. kv.0)

abbrev pub every_in : List String → List String → Bool
every_in ks [] = true
every_in ks (j ∷ js) = elem j ks && every_in ks js

abbrev pub is_bookkeeping : Option String → List (String × String) → Bool
is_bookkeeping (some body) fields = false
is_bookkeeping none fields = not (null fields) && every_in derived (keys fields)

abbrev pub as_body : String → String
as_body body = if starts_with body "\n" then body else cat "\n" body

abbrev pub without : String → List String → List String
without v [] = []
without v (u ∷ us) = let rest = without v us in if u == v then rest else u ∷ rest

-- `list(dict.fromkeys(values))`, and the members of a set.
abbrev pub dedupe : List String → List String
dedupe [] = []
dedupe (v ∷ vs) = v ∷ without v (dedupe vs)
