-- ===== src/Agent.antt =====
-- Conversations: messages of siatt/llm/types.py, and the transcript that siatt/store/db.py keeps of a
-- session. Texts and identifiers are lists of code points; what a tool is given is one text.
pub mod Context
pub mod Turn
pub mod Paired
pub mod Sent
pub mod Answered
pub mod Rounds
pub mod Tests
use siatt.Base.{
  ℕ, zero, suc, ◌+◌, ◌-◌, Bool, true, false, ◌&&◌, ◌||◌, List, [], ◌∷◌, ◌++◌, map, if◌then◌else◌,
  ◌==◌, nat_keyed, string_keyed, pair_keyed, length, null,
}
use siatt.Text.{Text}

pub record ToolUse : Type 0 where
  pub id : Text
  pub name : Text
  pub input : Text

pub record ToolResult : Type 0 where
  pub tool_use_id : Text
  pub content : Text
  pub is_error : Bool

pub data Block : Type 0 where
  text : Text → Block
  thinking : Text → Block
  image : Text → Block
  tool_use : ToolUse → Block
  tool_result : ToolResult → Block

pub data Role : Type 0 where
  system : Role
  user : Role
  assistant : Role
  tool : Role

pub record Message : Type 0 where
  pub role : Role
  pub content : List Block

abbrev pub texts_in : List Block → Text
texts_in [] = []
texts_in (text t ∷ bs) = t ++ texts_in bs
texts_in (b ∷ bs) = texts_in bs

abbrev pub uses_in : List Block → List ToolUse
uses_in [] = []
uses_in (tool_use u ∷ bs) = u ∷ uses_in bs
uses_in (b ∷ bs) = uses_in bs

abbrev pub results_in : List Block → List ToolResult
results_in [] = []
results_in (tool_result r ∷ bs) = r ∷ results_in bs
results_in (b ∷ bs) = results_in bs

abbrev pub is_user : Role → Bool
is_user user = true
is_user r = false

abbrev pub starts_turn : Message → Bool
starts_turn m = is_user m.role && null (results_in m.content)

-- `Message.user` and `Message.tool_results`
abbrev pub user_message : Text → List Text → Message
user_message said images = record { role = user; content = text said ∷ map image images }

abbrev pub tool_results : List ToolResult → List Text → Message
tool_results results images = record {
  role = user;
  content = map tool_result results ++ map image images;
}

-- `_scrub_message`: every text of a block, its identifiers too.
abbrev pub scrub_block : (Text → Text) → Block → Block
scrub_block scrub (text t) = text (scrub t)
scrub_block scrub (thinking t) = thinking (scrub t)
scrub_block scrub (image sha) = image (scrub sha)
scrub_block scrub (tool_use u) =
    tool_use (record { id = scrub u.id; name = scrub u.name; input = scrub u.input })
scrub_block scrub (tool_result r) =
    tool_result (record {
      tool_use_id = scrub r.tool_use_id;
      content = scrub r.content;
      is_error = r.is_error;
    })

abbrev pub scrub_message : (Text → Text) → Message → Message
scrub_message scrub m = record m { content = map (scrub_block scrub) m.content }

-- `Store.append_message`, on the messages of one session in order of their numbers.
unfoldable pub append_message : (Text → Text) → List Message → Message → List Message
append_message scrub transcript m = transcript ++ scrub_message scrub m ∷ []

abbrev pub from : ℕ → List Message → List Message
from zero ms = ms
from (suc n) [] = []
from (suc n) (m ∷ ms) = from n ms

-- `not rows or starts_turn(rows[0])`
abbrev pub at_turn : List Message → Bool
at_turn [] = true
at_turn (m ∷ ms) = starts_turn m

-- The newest head among the `count` messages from `low` on, else the oldest of them.
abbrev pub newest_head : List Message → ℕ → ℕ → ℕ
newest_head ms low zero = low
newest_head ms low (suc count) =
    let rest = newest_head ms low count in
    if at_turn (from (low + count) ms) then low + count else rest

-- The loop that widens a slice back to the head of a turn.
abbrev pub widen : ℕ → ℕ → List Message → ℕ → ℕ
widen zero limit ms at = at
widen (suc fuel) limit ms at =
    let rest = widen fuel limit ms (newest_head ms (at - limit) (at - (at - limit))) in
    if at_turn (from at ms) || at == 0 then at else rest

-- `Store.recent_messages`
unfoldable pub recent_messages : ℕ → List Message → List Message
recent_messages limit ms = from (widen (length ms) limit ms (length ms - limit)) ms
