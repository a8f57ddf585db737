-- ===== src/Chunk.antt =====
-- How a memory document is cut into pieces for the index, memory/chunk.py: `Chunk.chunk_document`. The
-- two regular expressions, and what `str.isspace` says of a code point, are parameters.
pub mod Keeps
pub mod Bounds
pub mod Tests
use Prim.Native.String.{◌++◌ as cat}
use siatt.Base.{
  ℕ, zero, suc, ◌+◌, ◌-◌, String, Bool, true, false, ◌&&◌, List, [], ◌∷◌, ◌++◌, map, ltb, leb,
  if◌then◌else◌, ◌==◌, nat_keyed, string_keyed, pair_keyed, length, take, null,
}
use siatt.Text.{Text, drop, strip}
use siatt.Memory.{Frontmatter, MemoryDoc}

abbrev pub max_chunk_chars : ℕ
max_chunk_chars = 1200

abbrev pub min_chunk_chars : ℕ
min_chunk_chars = 120

pub record Chunk : Type 0 where
  pub id : String
  pub memory_id : String
  pub path : String
  pub ordinal : ℕ
  pub text : Text
  pub scope : String
  pub salience : ℕ
  pub pinned : Bool
  pub updated_at : String

pub record Patterns : Type 0 where
  pub space : ℕ → Bool
  -- Where `_HEADING.finditer(body)` starts to match.
  pub headings : Text → List ℕ
  -- `_PARAGRAPH.split(section)`
  pub paragraphs : Text → List Text
  -- The code points of a string, and a number and an instant as texts.
  pub codes : String → Text
  pub digits : ℕ → String
  pub isoformat : ℕ → String

-- f"{first}\n\n{second}"
abbrev pub blank_line : Text → Text → Text
blank_line first second = first ++ 10 ∷ 10 ∷ second

-- `body[start:end]`
abbrev pub slice : Text → ℕ → ℕ → Text
slice body start end = take (end - start) (drop start body)

-- The loop that cuts what is longer than the cap: the pieces cut off, and what is left.
abbrev pub overflow : ℕ → Text → List Text × Text
overflow zero current = ([], current)
overflow (suc fuel) current =
    let rest = overflow fuel (drop max_chunk_chars current) in
    if ltb max_chunk_chars (length current)
    then (take max_chunk_chars current ∷ rest.0, rest.1)
    else ([], current)

abbrev pub cut_off : Text → List Text × Text
cut_off current = overflow (length current) current

-- One paragraph of `_split_to_size`: the pieces that are complete, and the one that grows.
abbrev pub add_paragraph : Text → Text → List Text × Text
add_paragraph current [] = ([], current)
add_paragraph [] (p ∷ ps) = cut_off (p ∷ ps)
add_paragraph (c ∷ cs) (p ∷ ps) =
    if ltb max_chunk_chars (length (c ∷ cs) + length (p ∷ ps) + 2)
    then ((c ∷ cs) ∷ (cut_off (p ∷ ps)).0, (cut_off (p ∷ ps)).1)
    else cut_off (blank_line (c ∷ cs) (p ∷ ps))

-- One round of `_fold_short_tails`: whether the piece is folded into the one before it.
abbrev pub is_tail : Text → Text → Bool
is_tail last piece =
    ltb (length piece) min_chunk_chars && leb (length last + length piece) max_chunk_chars

abbrev pub fold_onto : Text → List Text → List Text
fold_onto last [] = last ∷ []
fold_onto last (piece ∷ pieces) = elim (is_tail last piece) [
  | true ↦ fold_onto (blank_line last piece) pieces
  | false ↦ last ∷ fold_onto piece pieces
]

-- `_fold_short_tails`
unfoldable pub fold_short_tails : List Text → List Text
fold_short_tails [] = []
fold_short_tails (piece ∷ pieces) = fold_onto piece pieces

module _ (l : Patterns) where
  abbrev pub if_some : Text → List Text → List Text
  if_some [] sections = sections
  if_some (c ∷ cs) sections = (c ∷ cs) ∷ sections

  abbrev pub sections_from : Text → List ℕ → List Text
  sections_from body [] = []
  sections_from body (start ∷ []) = if_some (strip l.space (slice body start (length body))) []
  sections_from body (start ∷ end ∷ starts) =
      if_some (strip l.space (slice body start end)) (sections_from body (end ∷ starts))

  abbrev pub starts_of : List ℕ → List ℕ
  starts_of [] = 0 ∷ []
  starts_of (boundary ∷ boundaries) =
      if boundary == 0 then boundary ∷ boundaries else 0 ∷ boundary ∷ boundaries

  -- `_split_on_headings`
  unfoldable pub split_on_headings : Text → List Text
  split_on_headings body = sections_from body (starts_of (l.headings body))

  abbrev pub pack : List Text → Text → List Text
  pack [] [] = []
  pack [] (c ∷ cs) = (c ∷ cs) ∷ []
  pack (paragraph ∷ paragraphs) current =
      let (complete, grows) = add_paragraph current (strip l.space paragraph) in
      complete ++ pack paragraphs grows

  -- `_split_to_size`
  unfoldable pub split_to_size : Text → List Text
  split_to_size section =
      if leb (length section) max_chunk_chars then section ∷ [] else pack (l.paragraphs section) []

  abbrev pub all_sizes : List Text → List Text
  all_sizes [] = []
  all_sizes (section ∷ sections) = split_to_size section ++ all_sizes sections

  unfoldable pub split_body : Text → List Text
  split_body body = fold_short_tails (all_sizes (split_on_headings body))

  abbrev pub spaced : List Text → Text
  spaced [] = []
  spaced (tag ∷ []) = tag
  spaced (tag ∷ next ∷ tags) = tag ++ 32 ∷ spaced (next ∷ tags)

  -- `_header_text`
  abbrev pub header_text : Frontmatter → Text
  header_text f =
      if null f.tags then l.codes f.title else l.codes f.title ++ 10 ∷ spaced (map l.codes f.tags)

  abbrev pub numbered : Frontmatter → String → ℕ → List Text → List Chunk
  numbered f path ordinal [] = []
  numbered f path ordinal (text ∷ texts) =
      record {
        id = cat f.id (cat ":" (l.digits ordinal));
        memory_id = f.id;
        path = path;
        ordinal = ordinal;
        text = text;
        scope = f.visibility;
        salience = f.salience;
        pinned = f.pinned;
        updated_at = l.isoformat f.updated;
      }
      ∷ numbered f path (suc ordinal) texts

  unfoldable pub chunk_document : MemoryDoc → String → List Chunk
  chunk_document doc path =
      numbered doc.frontmatter path 0 (header_text doc.frontmatter ∷ split_body (l.codes doc.body))
