-- ===== src/Agent/Tests.antt =====
-- A turn that uses one tool, and one whose first reply is cut off.
use siatt.Base.{
  ℕ, zero, suc, ◌+◌, ◌*◌, ◌≤◌, ◌≡◌, refl, ap, subst, false, Option, none, some, List, [], ◌∷◌,
  arith, nat_keyed, string_keyed, pair_keyed, length,
}
use siatt.Text.{text_keyed, Text}
use siatt.Agent.{
  Block, text, tool_use, Message, user_message, tool_results, append_message, recent_messages,
}
use siatt.Agent.Context.{group_turns, compact_tool_results, elide, pack_recent}
use siatt.Agent.Turn.{
  StopReason, end_turn, max_tokens, ChatResponse, AgentConfig, World, AgentResult, After, no_usage,
  assistant_message, sent, passes, respond,
}
use siatt.Agent.Paired.{IsPaired}
use siatt.Agent.Sent.{sent-IsPaired}
use siatt.Agent.Answered.{IsReply, IsWorld, respond-IsPaired}
use siatt.Agent.Rounds.{respond-length-le, respond-leaves_unanswered}

abbrev search : Block
search = tool_use (record { id = 1 ∷ []; name = 115 ∷ []; input = [] })

abbrev calling : StopReason → ChatResponse
calling reason = record { content = search ∷ []; stop_reason = reason; usage = no_usage }

abbrev done : ChatResponse
done = record { content = text (111 ∷ 107 ∷ []) ∷ []; stop_reason = end_turn; usage = no_usage }

-- The state counts the calls of the model.
abbrev script : StopReason → ℕ → Option ChatResponse × ℕ
script reason zero = (some (calling reason), 1)
script reason (suc n) = (some done, suc (suc n))

abbrev scripted : StopReason → World ℕ
scripted reason = record {
  call = λ s ms tools. script reason s;
  dispatch = λ s call. (some (102 ∷ [], false), s);
  late = λ s. (false, s);
  blocks = λ s. (some [], s);
}

-- A history limit of one message falls inside a turn.
abbrev small : AgentConfig
small = record {
  max_tool_iterations = 3;
  history_limit = 1;
  recent_budget = 100;
  out_of_tool_budget = 110 ∷ [];
  cancelled = 99 ∷ [];
  scrub = λ t. t;
  tokens = record { count = length; count_message = λ m. 1; marker = λ n. [] };
}

calling-IsReply : IsReply (calling StopReason.tool_use)
calling-IsReply = record { no_results = refl; own_ids = (refl, tt); stops = λ e. absurd (cc e) }

done-IsReply : IsReply done
done-IsReply = record { no_results = refl; own_ids = tt; stops = λ e. refl }

same_reply :
    (r q : ChatResponse) (n m : ℕ) → Path (Option ChatResponse × ℕ) (some r, n) (some q, m) → r ≡ q
same_reply r q n m e =
    let same : some r ≡ some q = ap (λ (p : Option ChatResponse × ℕ). p.0) e in cc same

script-IsReply :
    (s after : ℕ) (r : ChatResponse) → script StopReason.tool_use s ≡ (some r, after) → IsReply r
script-IsReply zero after r e =
    subst IsReply (same_reply (calling StopReason.tool_use) r 1 after e) calling-IsReply
script-IsReply (suc n) after r e =
    subst IsReply (same_reply done r (suc (suc n)) after e) done-IsReply

scripted-IsWorld : IsWorld (scripted StopReason.tool_use)
scripted-IsWorld = record {
  replies = λ s after ms tools r e. script-IsReply s after r e;
  looks_up = λ s after e.
      let same : some [] ≡ none = ap (λ (p : Option (List Text) × ℕ). p.0) e in absurd (cc same);
}

abbrev hello : Text
hello = 104 ∷ []

abbrev after_turn : After ℕ AgentResult
after_turn = respond (scripted StopReason.tool_use) small [] hello [] 0

-- What was said, a call, its results, and the answer.
one_round : length after_turn.transcript ≡ 4
unfolding respond passes sent recent_messages append_message pack_recent group_turns
    compact_tool_results elide
one_round = refl

respond-IsPaired_example : IsPaired after_turn.transcript
respond-IsPaired_example =
    respond-IsPaired (scripted StopReason.tool_use) small [] hello [] 0 scripted-IsWorld refl

abbrev answered : List Message
answered =
    user_message hello []
    ∷ assistant_message (search ∷ [])
    ∷ tool_results (record { tool_use_id = 1 ∷ []; content = 102 ∷ []; is_error = false } ∷ []) []
    ∷ []

-- The limit of one message would begin with the results.
sent-IsPaired_example : IsPaired (sent (scripted StopReason.tool_use) small answered)
sent-IsPaired_example =
    sent-IsPaired (scripted StopReason.tool_use) small answered (omega arith) refl
      (refl, (refl, (refl, refl)))

respond-length-le_example : length after_turn.transcript ≤ 0 + (2 * 3 + 5)
respond-length-le_example = respond-length-le (scripted StopReason.tool_use) small [] hello [] 0

respond-leaves_unanswered_example :
    ¬ (IsPaired (respond (scripted max_tokens) small [] hello [] 0).transcript)
respond-leaves_unanswered_example =
    respond-leaves_unanswered (scripted max_tokens) small [] hello [] 0 1 (calling max_tokens) refl
      refl refl refl refl
