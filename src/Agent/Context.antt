-- ===== src/Agent/Context.antt =====
-- The part of `ContextPacker` of siatt/core/context.py that packs the recent messages. What a message
-- costs in tokens, which siatt/llm/tokens.py counts, is a parameter.
use siatt.Base.{
  ℕ, suc, ◌+◌, ◌-◌, true, false, Option, none, some, List, [], ◌∷◌, ◌++◌, map, ltb, leb,
  if◌then◌else◌, ◌==◌, nat_keyed, string_keyed, pair_keyed, length, take,
}
use siatt.Text.{Text, drop, rfind}
use siatt.Agent.{ToolResult, Block, tool_result, Message, results_in, starts_turn}

abbrev pub head_chars : ℕ
head_chars = 400

abbrev pub tail_chars : ℕ
tail_chars = 200

pub record Tokens : Type 0 where
  -- `tokenizer.count` and `count_message`
  pub count : Text → ℕ
  pub count_message : Message → ℕ
  -- `ELISION_MARKER.format(n=n)`
  pub marker : ℕ → Text

-- The loop of `group_turns`, with the group that grows.
abbrev pub split_turns : List Message → List Message → List (List Message)
split_turns [] [] = []
split_turns (c ∷ current) [] = (c ∷ current) ∷ []
split_turns [] (m ∷ ms) = split_turns (m ∷ []) ms
split_turns (c ∷ current) (m ∷ ms) = elim (starts_turn m) [
  | true ↦ (c ∷ current) ∷ split_turns (m ∷ []) ms
  | false ↦ split_turns (c ∷ current ++ m ∷ []) ms
]

unfoldable pub group_turns : List Message → List (List Message)
group_turns messages = split_turns [] messages

-- `text.find` of one character.
abbrev pub find : ℕ → Text → Option ℕ
find c [] = none
find c (d ∷ ds) =
    if c == d then some 0 else elim (find c ds) [ some i ↦ some (suc i) | none ↦ none ]

-- `head.rfind("\n", 320)`, and the cut there.
abbrev pub head_until : Text → Option ℕ → Text
head_until head none = head
head_until head (some edge) = take (320 + edge) head

abbrev pub tail_after : Text → Option ℕ → Text
tail_after tail none = tail
tail_after tail (some edge) = drop (edge + 1) tail

abbrev pub head_of : Text → Text
head_of content =
    head_until (take head_chars content) (rfind (10 ∷ []) (drop 320 (take head_chars content)))

abbrev pub tail_of : Text → Text
tail_of content =
    let tail = drop (length content - tail_chars) content in tail_after tail (find 10 tail)

module _ (l : Tokens) where
  -- `_elide`; the first case is a cut below zero.
  unfoldable pub elide : Text → Text
  elide content =
      if ltb (length content) (head_chars + tail_chars)
      then content
      else if leb (length content - head_chars - tail_chars)
          (length (l.marker (length content - head_chars - tail_chars)))
      then content
      else head_of content
        ++ l.marker (length content - length (head_of content) - length (tail_of content))
        ++ tail_of content

  -- A block of the inner loop: as it stands after it, with the tokens before and after.
  abbrev pub shorten : ToolResult → ToolResult
  shorten r =
      if ltb (length (elide r.content)) (length r.content)
      then record r { content = elide r.content }
      else r

  abbrev pub shorten_block : Block → Block
  shorten_block (tool_result r) = tool_result (shorten r)
  shorten_block b = b

  abbrev pub tokens_in : List ToolResult → ℕ
  tokens_in [] = 0
  tokens_in (r ∷ rs) = l.count r.content + tokens_in rs

  abbrev pub cost : List Message → ℕ
  cost [] = 0
  cost (m ∷ ms) = l.count_message m + cost ms

  -- The loop of `compact_tool_results`: `saved` is not 0 just where the two counts differ.
  abbrev pub compact : ℕ → ℕ → List Message → List Message
  compact budget spent [] = []
  compact budget spent (m ∷ ms) =
      let before = tokens_in (results_in m.content) in
      let after = tokens_in (map shorten (results_in m.content)) in
      let rest = compact budget (if before == after then spent else spent + after - before) ms in
      if leb spent budget
      then m ∷ ms
      else if before == after
      then m ∷ rest
      else record m { content = map shorten_block m.content } ∷ rest

  -- `compact_tool_results`, without the count of what it shortened.
  unfoldable pub compact_tool_results : ℕ → List Message → List Message
  compact_tool_results budget group = compact budget (cost group) group

  -- The loop of `_pack_recent`, on the groups from the newest back, with those kept so far.
  abbrev pub keep : ℕ → ℕ → List (List Message) → List (List Message) → List (List Message)
  keep budget used kept [] = kept
  keep budget used [] (group ∷ groups) = elim (ltb budget (used + cost group)) [
    | true ↦
        keep budget (used + cost (compact_tool_results budget group))
          (compact_tool_results budget group ∷ []) groups
    | false ↦ keep budget (used + cost group) (group ∷ []) groups
  ]
  keep budget used (k ∷ kept) (group ∷ groups) = elim (ltb budget (used + cost group)) [
    | true ↦ k ∷ kept
    | false ↦ keep budget (used + cost group) (group ∷ k ∷ kept) groups
  ]

  abbrev pub flatten : List (List Message) → List Message
  flatten [] = []
  flatten (g ∷ gs) = g ++ flatten gs

  abbrev pub newest_first : List (List Message) → List (List Message)
  newest_first [] = []
  newest_first (g ∷ gs) = newest_first gs ++ g ∷ []

  -- The messages of `_pack_recent`.
  unfoldable pub pack_recent : ℕ → List Message → List Message
  pack_recent budget recent = flatten (keep budget 0 [] (newest_first (group_turns recent)))
