-- ===== src/Memory.antt =====
-- Long-term memory documents, siatt/memory/document.py, and the layout of their repository,
-- siatt/memory/layout.py. YAML, pydantic, pathlib, the file system and the redactor are parameters.
pub mod Manifest
pub mod Patch
mod Tests
use Prim.Native.String.{◌++◌ as cat}
use text.Mathlib.Text.{starts_with}
use siatt.Base.{
  ℕ, ◌/◌, String, ◌⊎◌, Bool, false, not, ◌&&◌, ◌||◌, Option, List, [], ◌∷◌, if◌then◌else◌, ◌==◌,
  nat_keyed, string_keyed, elem, pair_keyed,
}

pub data MemoryType : Type 0 where
  person : MemoryType
  project : MemoryType
  topic : MemoryType
  fact : MemoryType
  journal : MemoryType

-- Instants are milliseconds; confidence and salience are thousandths.
pub record Frontmatter : Type 0 where
  pub id : String
  pub kind : MemoryType
  pub title : String
  pub tags : List String
  pub visibility : String
  pub created : ℕ
  pub updated : ℕ
  pub confidence : ℕ
  pub salience : ℕ
  pub pinned : Bool
  pub source_refs : List String
  pub supersedes : List String

pub record MemoryDoc : Type 0 where
  pub frontmatter : Frontmatter
  pub body : String

-- `stamp` is the reading of the clock.
abbrev pub touch : ℕ → Frontmatter → Frontmatter
touch stamp f = record f { updated = stamp }

abbrev pub type_directory : MemoryType → String
type_directory person = "people"
type_directory project = "projects"
type_directory topic = "topics"
type_directory fact = "facts"
type_directory journal = "journal"

-- What the model takes from libraries, from the repository on disk and from the settings.
pub record World : Type 0 where
  -- The text of the file at a path under the root, if there is one.
  pub file : String → Option String
  -- `MemoryDoc.parse`, of a text and the source's name: the document, or what is wrong with it.
  pub parse : String → String → String ⊎ MemoryDoc
  pub render : MemoryDoc → String
  pub links : MemoryDoc → List String
  -- `type(frontmatter).model_validate` of the fields, some of them replaced by JSON values.
  pub revalidate : Frontmatter → List (String × String) → String ⊎ Frontmatter
  pub is_memory_id : String → Bool
  pub slugify : String → String
  -- `doc.id[-6:].lower()`
  pub tail : String → String
  -- `len(text.encode())`
  pub size : String → ℕ
  -- `str.strip` and `str.endswith(".md")`
  pub strip : String → String
  pub is_markdown : String → Bool
  -- `Path(path).parts`, `.is_absolute()`, `.name`, `.suffix == ".md"`, `.stem`
  pub parts : String → List String
  pub is_absolute : String → Bool
  pub name : String → String
  pub has_md_suffix : String → Bool
  pub stem : String → String
  -- `str.removesuffix(".md")`
  pub without_md : String → String
  -- The redactor.
  pub scrub : String → String
  -- `blobref.prune` where the attachments are known: the new text, if a reference was dropped.
  pub prune : Option (String → Option String)
  pub max_file_bytes : ℕ
  pub max_files_per_commit : ℕ
  pub retention_floor_days : ℕ
  -- The compiler's `now`, and the later readings of the clock.
  pub now : ℕ
  pub stamp : ℕ

module _ (w : World) where
  abbrev pub starts_in_memory : List String → Bool
  starts_in_memory [] = false
  starts_in_memory (p ∷ ps) = p == "memory"

  abbrev pub is_index_page : String → Bool
  is_index_page path =
      if elem ".." (w.parts path) || w.is_absolute path
      then false
      else starts_in_memory (w.parts path) && w.name path == "README.md"

  abbrev pub is_machinery : String → Bool
  is_machinery path = elem ".siatt" (w.parts path) || is_index_page path

  abbrev pub is_memory_path : String → Bool
  is_memory_path path =
      if elem ".." (w.parts path) || w.is_absolute path
      then false
      else if not (starts_in_memory (w.parts path))
      then false
      else not (is_machinery path) && w.has_md_suffix path

  abbrev pub suggested_path : MemoryDoc → String
  suggested_path doc = cat "memory/" (
      cat (type_directory doc.frontmatter.kind)
        (cat "/" (cat (w.slugify doc.frontmatter.title) ".md")))

-- `path.startswith(f"{ARCHIVE_DIR}/")`
abbrev pub is_archived : String → Bool
is_archived path = starts_with path "memory/archive/"

abbrev pub archive_file : String → String
archive_file stem = cat "memory/archive/" (cat stem ".md")
