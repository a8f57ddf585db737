-- ===== src/Agent/Turn.antt =====
-- One turn of a conversation: `Agent.respond` of siatt/core/agent.py. The providers, the tools and the
-- clock are parameters, which thread one state of their own; recall and what a turn reports besides
-- its answer are left out.
use siatt.Base.{
  ℕ, zero, suc, ◌+◌, Bool, true, false, not, ◌&&◌, Option, none, some, List, [], ◌∷◌, ◌++◌, map,
  ltb, if◌then◌else◌, nat_keyed, string_keyed, elem, pair_keyed, length, null,
}
use siatt.Text.{text_keyed, Text}
use siatt.Agent.{
  ToolUse, ToolResult, Block, Message, Role, texts_in, uses_in, user_message, tool_results,
  append_message, recent_messages,
}
use siatt.Agent.Context.{Tokens, pack_recent}

pub data StopReason : Type 0 where
  end_turn : StopReason
  max_tokens : StopReason
  tool_use : StopReason
  stop_sequence : StopReason
  content_filter : StopReason

pub record Usage : Type 0 where
  pub input_tokens : ℕ
  pub output_tokens : ℕ
  pub cache_read_tokens : ℕ
  pub cache_write_tokens : ℕ

abbrev pub no_usage : Usage
no_usage = record {
  input_tokens = 0;
  output_tokens = 0;
  cache_read_tokens = 0;
  cache_write_tokens = 0;
}

-- `Usage.__add__`
abbrev pub add_usage : Usage → Usage → Usage
add_usage a b = record {
  input_tokens = a.input_tokens + b.input_tokens;
  output_tokens = a.output_tokens + b.output_tokens;
  cache_read_tokens = a.cache_read_tokens + b.cache_read_tokens;
  cache_write_tokens = a.cache_write_tokens + b.cache_write_tokens;
}

pub record ChatResponse : Type 0 where
  pub content : List Block
  pub stop_reason : StopReason
  pub usage : Usage

-- `AgentConfig`, the budget of the recent messages, and the fixed texts.
pub record AgentConfig : Type 0 where
  pub max_tool_iterations : ℕ
  pub history_limit : ℕ
  pub recent_budget : ℕ
  pub out_of_tool_budget : Text
  pub cancelled : Text
  pub scrub : Text → Text
  pub tokens : Tokens

-- What is outside: nothing stands for an exception, a cancellation included.
pub record World (W : Type 0) : Type 0 where
  -- `_call` with these messages; whether tools are offered.
  pub call : W → List Message → Bool → Option ChatResponse × W
  -- `ToolRegistry.dispatch`, which turns what a handler raises into an error result: the content and
  -- whether it is an error.
  pub dispatch : W → ToolUse → Option (Text × Bool) × W
  -- `monotonic() > deadline`
  pub late : W → Bool × W
  -- `_blocks` of what the tools surfaced.
  pub blocks : W → Option (List Text) × W

pub data TurnEnd : Type 0 where
  stopped : StopReason → TurnEnd
  max_iterations : TurnEnd
  max_duration : TurnEnd

pub record AgentResult : Type 0 where
  pub text : Text
  pub usage : Usage
  pub iterations : ℕ
  pub tool_calls : ℕ
  pub stop_reason : TurnEnd

-- After a turn, or a part of one: the transcript, and what it returned unless it raised.
pub record After (W A : Type 0) : Type 0 where
  pub transcript : List Message
  pub world : W
  pub result : Option A

abbrev pub assistant_message : List Block → Message
assistant_message content = record { role = Role.assistant; content = content }

abbrev pub refusal : Text → ToolUse → ToolResult
refusal why call = record { tool_use_id = call.id; content = why; is_error = true }

-- `response.text or text`
abbrev pub or_text : Text → Text → Text
or_text [] old = old
or_text (c ∷ cs) old = c ∷ cs

abbrev pub is_tool_use : StopReason → Bool
is_tool_use tool_use = true
is_tool_use reason = false

module _ {W : Type 0} (w : World W) (c : AgentConfig) where
  abbrev pub append : List Message → Message → List Message
  append = append_message c.scrub

  -- `_refused`
  abbrev pub refused : List ToolUse → Message
  refused uses = tool_results (map (refusal c.out_of_tool_budget) uses) []

  -- The calls that no result answers, by their identifiers.
  abbrev pub filler : List Text → List ToolUse → List ToolResult
  filler answered [] = []
  filler answered (call ∷ uses) =
      let rest = filler answered uses in
      if elem call.id answered then rest else refusal c.cancelled call ∷ rest

  abbrev pub add_result : ToolResult → List ToolResult × Bool × W → List ToolResult × Bool × W
  add_result result (results, through, s) = (result ∷ results, through, s)

  abbrev pub handled :
      ToolUse
      → (W → List ToolResult × Bool × W)
      → Option (Text × Bool) × W
      → List ToolResult × Bool × W
  handled call next (none, s) = ([], false, s)
  handled call next (some (content, is_error), s) =
      add_result (record { tool_use_id = call.id; content = content; is_error = is_error }) (next s)

  -- The loop of `_dispatch_all`: the results, and whether it got through.
  abbrev pub dispatch_each : List ToolUse → W → List ToolResult × Bool × W
  dispatch_each [] s = ([], true, s)
  dispatch_each (call ∷ calls) s = handled call (dispatch_each calls) (w.dispatch s call)

  abbrev pub with_images : List Message → List ToolResult → Option (List Text) × W → After W ℕ
  with_images transcript results (none, s) = record {
    transcript = transcript;
    world = s;
    result = none;
  }
  with_images transcript results (some images, s) = record {
    transcript = append transcript (tool_results results images);
    world = s;
    result = some (length results);
  }

  -- `_dispatch_all`, and the append of the results.
  abbrev pub answer : List Message → List ToolUse → List ToolResult × Bool × W → After W ℕ
  answer transcript calls (results, false, s) = record {
    transcript =
        append transcript
          (tool_results (results ++ filler (map (λ r. r.tool_use_id) results) calls) []);
    world = s;
    result = none;
  }
  answer transcript calls (results, true, s) = with_images transcript results (w.blocks s)

  -- What is sent: the recent messages, packed.
  unfoldable pub sent : List Message → List Message
  sent transcript =
      pack_recent c.tokens c.recent_budget (recent_messages c.history_limit transcript)

  -- `_close_out`, and what `respond` appends after it.
  abbrev pub closed : AgentResult → List Message → Option ChatResponse × W → After W AgentResult
  closed so_far transcript (none, s) = record { transcript = transcript; world = s; result = none }
  closed so_far transcript (some closing, s) = record {
    transcript =
        if null (uses_in closing.content)
        then append transcript (assistant_message closing.content)
        else append (append transcript (assistant_message closing.content))
            (refused (uses_in closing.content));
    world = s;
    result = some (record so_far {
      text = or_text (texts_in closing.content) so_far.text;
      usage = add_usage so_far.usage closing.usage;
    });
  }

  -- Out of budget: the outstanding calls are refused, and one call without tools closes the turn.
  abbrev pub close_out :
      TurnEnd → AgentResult → List Message → List ToolUse → W → After W AgentResult
  close_out why so_far transcript uses s =
      let after = append transcript (refused uses) in
      closed (record so_far { stop_reason = why }) after (w.call s (sent after) false)

  -- The end of a pass: on to the next one unless the answers raised.
  abbrev pub go_on :
      (AgentResult → List Message → W → After W AgentResult)
      → AgentResult
      → After W ℕ
      → After W AgentResult
  go_on next so_far answered = elim answered.result [
    | none ↦ record { transcript = answered.transcript; world = answered.world; result = none }
    | some calls ↦
        next (record so_far { tool_calls = so_far.tool_calls + calls }) answered.transcript
          answered.world
  ]

  abbrev pub within_time :
      (AgentResult → List Message → W → After W AgentResult)
      → AgentResult
      → List Message
      → List ToolUse
      → Bool × W
      → After W AgentResult
  within_time next so_far transcript uses (true, s) =
      close_out max_duration so_far transcript uses s
  within_time next so_far transcript uses (false, s) =
      go_on next so_far (answer transcript uses (dispatch_each uses s))

  abbrev pub heard : AgentResult → ChatResponse → AgentResult
  heard so_far r = record so_far {
    text = or_text (texts_in r.content) so_far.text;
    usage = add_usage so_far.usage r.usage;
    stop_reason = stopped r.stop_reason;
  }

  -- What follows a reply of the model.
  abbrev pub replied :
      (AgentResult → List Message → W → After W AgentResult)
      → AgentResult
      → List Message
      → Option ChatResponse × W
      → After W AgentResult
  replied next so_far transcript (none, s) = record {
    transcript = transcript;
    world = s;
    result = none;
  }
  replied next so_far transcript (some r, s) =
      let after = append transcript (assistant_message r.content) in
      elim (is_tool_use r.stop_reason && not (null (uses_in r.content))) [
        | false ↦ record { transcript = after; world = s; result = some (heard so_far r) }
        | true ↦ elim (ltb c.max_tool_iterations so_far.iterations) [
          | true ↦ close_out max_iterations (heard so_far r) after (uses_in r.content) s
          | false ↦ within_time next (heard so_far r) after (uses_in r.content) (w.late s)
        ]
      ]

  -- The loop of `respond`, `left` passes before its range ends.
  unfoldable pub passes : ℕ → AgentResult → List Message → W → After W AgentResult
  passes zero so_far transcript s = record {
    transcript = transcript;
    world = s;
    result = some so_far;
  }
  passes (suc left) so_far transcript s =
      replied (passes left) (record so_far { iterations = so_far.iterations + 1 }) transcript
        (w.call s (sent transcript) true)

  abbrev pub nothing_yet : AgentResult
  nothing_yet = record {
    text = [];
    usage = no_usage;
    iterations = 0;
    tool_calls = 0;
    stop_reason = stopped end_turn;
  }

  -- `respond`, on the transcript of the session, with the images that came with the message.
  unfoldable pub respond : List Message → Text → List Text → W → After W AgentResult
  respond transcript user_text images s =
      passes (c.max_tool_iterations + 1) nothing_yet
        (append transcript (user_message user_text images)) s
