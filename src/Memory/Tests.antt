-- ===== src/Memory/Tests.antt =====
-- Plans of siatt/memory/patch.py on a small corpus.
use mathlib.Core.List.Memᴰ.{head}
use siatt.Base.{
  ◌++◌, List, ◌*◌, String, ◌≡◌, refl, inl, inr, true, false, ◌||◌, none, some, [], ◌∷◌,
  if◌then◌else◌, Bool-cases, ◌==◌, nat_keyed, string_keyed, elem, pair_keyed,
}
use siatt.Memory.{person, Frontmatter, MemoryDoc, World, archive_file}
use siatt.Memory.Manifest.{Manifest, paths, dangling, forget, move, put, resolve}
use siatt.Memory.Patch.{create, archive, delete, Change, write, remove}
use siatt.Memory.Patch.Operations.{
  compile_one, exists, load, require_size, require_writable, run_create, run_archive, run_delete,
}
use siatt.Memory.Patch.Compile.{check_plan_limits, compile, compiled}
use siatt.Memory.Patch.Confined.{Confined, SlugsAreFiles, compile-Confined}
use siatt.Memory.Patch.Links.{Names, compile-Names, compile-unlinked}
use siatt.Memory.Patch.Deletes.{AllAllowed, compile-Allowed}

abbrev header : String → Frontmatter
header id = record {
  id = id;
  kind = person;
  title = "Jane";
  tags = [];
  visibility = "workspace";
  created = 0;
  updated = 0;
  confidence = 800;
  salience = 500;
  pinned = false;
  source_refs = [];
  supersedes = [];
}

abbrev jane : MemoryDoc
jane = record { frontmatter = header "mem_jane"; body = "\nJane likes tea." }

abbrev old : MemoryDoc
old = record { frontmatter = header "mem_old"; body = "\nJane likes coffee." }

abbrev old_path : String
old_path = "memory/archive/old.md"

-- One archived file, an identity renderer of bodies, and slugs that are all `jane`; it is day 31.
abbrev corpus : World
corpus = record {
  file = λ path. if path == old_path then some "old" else none;
  parse = λ text path. if text == "old" then inr old else inr jane;
  render = λ doc. doc.body;
  links = λ doc. [];
  revalidate = λ f fields. inr f;
  is_memory_id = λ id. true;
  slugify = λ title. "jane";
  tail = λ id. "000000";
  size = λ text. 15;
  strip = λ text. text;
  is_markdown = λ path. true;
  parts = λ path. "memory" ∷ "archive" ∷ [];
  is_absolute = λ path. false;
  name = λ path. path;
  has_md_suffix = λ path. true;
  stem = λ path. path;
  without_md = λ path. path;
  scrub = λ text. text;
  prune = none;
  max_file_bytes = 65536;
  max_files_per_commit = 25;
  retention_floor_days = 30;
  now = 31 * 86400000;
  stamp = 31 * 86400000;
}

abbrev index : Manifest
index = record {
  generated = 0;
  memories =
      (
        "mem_old",
        record {
          path = old_path;
          title = "Jane";
          kind = person;
          visibility = "workspace";
          checksum = "pending";
          last_touched = 0;
          supersedes = [];
        },
      )
      ∷ [];
}

abbrev jane_path : String
jane_path = "memory/people/jane.md"

jane_created :
    compile corpus (create jane none ∷ []) "promote" index
    ≡ inr (write jane_path "\nJane likes tea." ∷ [])
unfolding compile compile_one run_create require_writable require_size check_plan_limits dangling
jane_created = refl

delete_old :
    compile corpus (delete "mem_old" "stale" ∷ []) "forget" index ≡ inr (remove old_path ∷ [])
unfolding compile compile_one run_delete load check_plan_limits forget
delete_old = refl

corpus-SlugsAreFiles : SlugsAreFiles corpus
corpus-SlugsAreFiles doc m =
    elim (Bool-cases
      (elem (archive_file "jane") (paths m.memories) || exists corpus (archive_file "jane"))) [
        | inl e ↦ rw e refl
        | inr e ↦ rw e refl
      ]

compile-Confined_example : Confined corpus (write jane_path "\nJane likes tea." ∷ [])
compile-Confined_example =
    compile-Confined corpus (create jane none ∷ []) "promote" index _ corpus-SlugsAreFiles
      (record { all = (refl, tt) }) jane_created

-- Where every document links to the memory that is there.
abbrev linked : World
linked = record corpus { links = λ doc. "mem_old" ∷ [] }

linked_plan :
    compile linked (create jane none ∷ []) "promote" index
    ≡ inr (write jane_path "\nJane likes tea." ∷ [])
unfolding compile compile_one run_create require_writable require_size check_plan_limits dangling
    resolve put
linked_plan = refl

compile-Names_example :
    Names linked "mem_old"
      (compiled linked (create jane none ∷ []) "promote" index).projected.memories
compile-Names_example =
    compile-Names linked (create jane none ∷ []) "promote" index _ jane_path "\nJane likes tea."
      "mem_old" jane linked_plan (head refl) refl refl refl

compile-Allowed_example :
    AllAllowed corpus
      (delete "mem_old" "stale" ∷ [])
      0
      "forget"
      (record { rejections = []; changes = []; projected = index })
      (remove old_path ∷ [])
compile-Allowed_example =
    compile-Allowed corpus (delete "mem_old" "stale" ∷ []) "forget" index _ delete_old

abbrev live : World
live = record corpus { file = λ path. if path == "memory/people/old.md" then some "old" else none }

abbrev live_index : Manifest
live_index = record {
  generated = 0;
  memories =
      (
        "mem_old",
        record {
          path = "memory/people/old.md";
          title = "Jane";
          kind = person;
          visibility = "workspace";
          checksum = "pending";
          last_touched = 0;
          supersedes = [];
        },
      )
      ∷ [];
}

abbrev archiving : List Change
archiving =
    write "memory/archive/jane.md" "\nJane likes coffee." ∷ remove "memory/people/old.md" ∷ []

archive_old : compile live (archive "mem_old" "stale" ∷ []) "promote" live_index ≡ inr archiving
unfolding compile compile_one run_archive load check_plan_limits dangling move put
archive_old = refl

-- Another page is left when the first is deleted, and links to nothing.
abbrev two_pages : World
two_pages = record corpus {
  file = λ path.
      if path == old_path then some "old" else if path == jane_path then some "jane" else none;
}

abbrev two_entries : Manifest
two_entries = record {
  generated = 0;
  memories =
      index.memories
      ++ (
        "mem_jane",
        record {
          path = jane_path;
          title = "Jane";
          kind = person;
          visibility = "workspace";
          checksum = "pending";
          last_touched = 0;
          supersedes = [];
        },
      )
        ∷ [];
}

delete_unlinked :
    compile two_pages (delete "mem_old" "stale" ∷ []) "forget" two_entries
    ≡ inr (remove old_path ∷ [])
unfolding compile compile_one run_delete load check_plan_limits forget
delete_unlinked = refl

compile-unlinked_example : elem "mem_old" (two_pages.links jane) ≡ false
unfolding compile_one run_delete load forget
compile-unlinked_example =
    compile-unlinked two_pages (delete "mem_old" "stale" ∷ []) "forget" two_entries _ "mem_old"
      "stale" "mem_jane" "jane" _ jane delete_unlinked (head refl) (head refl) refl refl
