-- ===== src/Agent/Answered.antt =====
-- That a turn leaves no tool call unanswered, however it ends.
use siatt.Base.{
  ℕ, zero, suc, ◌+◌, ◌≡◌, refl, ap, ◌∙◌, ◌≢◌, inl, inr, Bool, true, false, not, ◌&&◌, Option, none,
  some, List, [], ◌∷◌, ◌++◌, map, arith, ltb, Bool-cases, Option-cases, ◌==◌, nat_keyed,
  string_keyed, elem, Distinct, same_refl, same_sym, pair_keyed, null,
}
use siatt.Text.{text_keyed, Text}
use siatt.Agent.{ToolUse, ToolResult, Message, uses_in, results_in, user_message, append_message}
use siatt.Agent.Turn.{
  TurnEnd, max_iterations, max_duration, ChatResponse, AgentConfig, World, AgentResult, After,
  assistant_message, refusal, is_tool_use, refused, filler, handled, dispatch_each, with_images,
  answer, sent, closed, close_out, go_on, within_time, heard, replied, passes, nothing_yet, respond,
}
use siatt.Agent.Paired.{
  use_ids, result_ids, Follows, IsPaired, append-Follows, tool_results-Follows,
  user_message-IsPaired,
}

-- What is asked of a reply: it holds no tool results, its calls have ids of their own, and it calls
-- tools only where it stops for them.
pub record IsReply (r : ChatResponse) : Type 0 where
  pub no_results : results_in r.content ≡ []
  pub own_ids : Distinct (use_ids (uses_in r.content))
  pub stops : is_tool_use r.stop_reason ≡ false → uses_in r.content ≡ []

-- What is asked of the rest: the images that tools surfaced are looked up without an exception.
pub record IsWorld {W : Type 0} (w : World W) : Type 0 where
  pub replies :
      (s after : W) (ms : List Message) (tools : Bool) (r : ChatResponse)
      → w.call s ms tools ≡ (some r, after)
      → IsReply r
  pub looks_up : (s after : W) → w.blocks s ≢ (none, after)

result_ids-refusal :
    (why : Text) (calls : List ToolUse) → result_ids (map (refusal why) calls) ≡ use_ids calls
result_ids-refusal why [] = refl
result_ids-refusal why (u ∷ us) = ap (λ ids. u.id ∷ ids) (result_ids-refusal why us)

module _ {W : Type 0} (w : World W) (c : AgentConfig) where
  -- An answer for a call that is not among the others changes nothing for them.
  filler_other :
      (id : Text) (answered : List Text) (calls : List ToolUse)
      → elem id (use_ids calls) ≡ false
      → filler w c (id ∷ answered) calls ≡ filler w c answered calls
  filler_other id answered [] h = refl
  filler_other id answered (u ∷ us) h =
      let apart : (id == u.id) ≡ false = ground (arith, h, same_sym id u.id) in
      let rest = filler_other id answered us (ground (arith, h)) in
      elim (Bool-cases (elem u.id answered)) [
        | inl there ↦ rw (apart, there, filler) rest
        | inr missing ↦ rw (apart, missing, filler) (ap (λ rs. refusal c.cancelled u ∷ rs) rest)
      ]

  filler_all : (calls : List ToolUse) → result_ids (filler w c [] calls) ≡ use_ids calls
  filler_all [] = refl
  filler_all (u ∷ us) = ap (λ ids. u.id ∷ ids) (filler_all us)

  -- The results so far, and errors for the calls that did not run, answer all of them in order; with
  -- no exception the results alone do.
  record Answers (calls : List ToolUse) (made : List ToolResult × Bool × W) : Type 0 where
    filled : result_ids (made.0 ++ filler w c (result_ids made.0) calls) ≡ use_ids calls
    whole : made.1 ≡ true → result_ids made.0 ≡ use_ids calls

  handled-Answers :
      (call : ToolUse) (calls : List ToolUse) (next : W → List ToolResult × Bool × W)
      (r : Option (Text × Bool) × W)
      → elem call.id (use_ids calls) ≡ false
      → ((s : W) → Answers calls (next s))
      → Answers (call ∷ calls) (handled w c call next r)
  handled-Answers call calls next (none, s) d h = record {
    filled = filler_all (call ∷ calls);
    whole = λ e. absurd (cc e);
  }
  handled-Answers call calls next (some (content, is_error), s) d h =
      let results = (next s).0 in
      let skip : filler w c (call.id ∷ result_ids results) (call ∷ calls)
          ≡ filler w c (result_ids results) calls =
        rw (same_refl call.id, filler) (filler_other call.id (result_ids results) calls d) in
      record {
        filled =
            ap (λ f. call.id ∷ result_ids (results ++ f)) skip
            ∙ ap (λ ids. call.id ∷ ids) (h s).filled;
        whole = λ e. ap (λ ids. call.id ∷ ids) ((h s).whole e);
      }

  dispatch_each-Answers :
      (calls : List ToolUse) (s : W)
      → Distinct (use_ids calls)
      → Answers calls (dispatch_each w c calls s)
  dispatch_each-Answers [] s d = record { filled = refl; whole = λ e. refl }
  dispatch_each-Answers (u ∷ us) s d =
      handled-Answers u us (dispatch_each w c us) (w.dispatch s u) d.0
        (λ s. dispatch_each-Answers us s d.1)

  ids_of : (rs : List ToolResult) → map (λ (r : ToolResult). r.tool_use_id) rs ≡ result_ids rs
  ids_of [] = refl
  ids_of (r ∷ rs) = ap (λ ids. r.tool_use_id ∷ ids) (ids_of rs)

  with_images-Follows :
      (transcript : List Message) (calls : List ToolUse) (results : List ToolResult)
      (got : Option (List Text) × W)
      → ((after : W) → got ≢ (none, after))
      → Follows [] transcript (map c.scrub (use_ids calls))
      → result_ids results ≡ use_ids calls
      → IsPaired (with_images w c transcript results got).transcript
  with_images-Follows transcript calls results (none, s) there h e = absurd (there s refl)
  with_images-Follows transcript calls results (some images, s) there h e =
      tool_results-Follows c.scrub transcript (use_ids calls) results images h e

  answer-Follows :
      (transcript : List Message) (calls : List ToolUse) (made : List ToolResult × Bool × W)
      → IsWorld w
      → Follows [] transcript (map c.scrub (use_ids calls))
      → Answers calls made
      → IsPaired (answer w c transcript calls made).transcript
  answer-Follows transcript calls (results, false, s) laws h a =
      tool_results-Follows c.scrub transcript (use_ids calls)
        (results ++ filler w c (map (λ r. r.tool_use_id) results) calls) [] h
        (ap (λ ids. result_ids (results ++ filler w c ids calls)) (ids_of results) ∙ a.filled)
  answer-Follows transcript calls (results, true, s) laws h a =
      with_images-Follows transcript calls results (w.blocks s) (λ after. laws.looks_up s after) h
        (a.whole refl)

  refused-Follows :
      (transcript : List Message) (calls : List ToolUse)
      → Follows [] transcript (map c.scrub (use_ids calls))
      → IsPaired (append_message c.scrub transcript (refused w c calls))
  refused-Follows transcript calls h =
      tool_results-Follows c.scrub transcript (use_ids calls)
        (map (refusal c.out_of_tool_budget) calls) [] h
        (result_ids-refusal c.out_of_tool_budget calls)

  -- A reply that is appended leaves its own calls to be answered.
  reply-Follows :
      (transcript : List Message) (r : ChatResponse)
      → IsReply r
      → IsPaired transcript
      → Follows []
          (append_message c.scrub transcript (assistant_message r.content))
          (map c.scrub (use_ids (uses_in r.content)))
  reply-Follows transcript r reply h =
      append-Follows c.scrub transcript [] (assistant_message r.content) h
        (ap result_ids reply.no_results)

  owes_none :
      (calls : List ToolUse) (transcript : List Message)
      → null calls ≡ true
      → Follows [] transcript (map c.scrub (use_ids calls))
      → IsPaired transcript
  owes_none [] transcript e h = h
  owes_none (u ∷ us) transcript e h = absurd (cc e)

  ends :
      (r : ChatResponse)
      → IsReply r
      → (is_tool_use r.stop_reason && not (null (uses_in r.content))) ≡ false
      → null (uses_in r.content) ≡ true
  ends r reply e = elim (Bool-cases (is_tool_use r.stop_reason)) [
    | inl calls ↦ ground arith
    | inr other ↦ ap null (reply.stops other)
  ]

  closed-IsPaired :
      (so_far : AgentResult) (transcript : List Message) (got : Option ChatResponse × W)
      → ((r : ChatResponse) (after : W) → got ≡ (some r, after) → IsReply r)
      → IsPaired transcript
      → IsPaired (closed w c so_far transcript got).transcript
  closed-IsPaired so_far transcript (none, s) replies h = h
  closed-IsPaired so_far transcript (some r, s) replies h =
      let next = reply-Follows transcript r (replies r s refl) h in
      elim (Bool-cases (null (uses_in r.content))) [
        | inl silent ↦ rw (silent, closed) (owes_none (uses_in r.content) _ silent next)
        | inr stray ↦ rw (stray, closed) (refused-Follows _ (uses_in r.content) next)
      ]

  close_out-IsPaired :
      (why : TurnEnd) (so_far : AgentResult) (transcript : List Message) (calls : List ToolUse)
      (s : W)
      → IsWorld w
      → Follows [] transcript (map c.scrub (use_ids calls))
      → IsPaired (close_out w c why so_far transcript calls s).transcript
  close_out-IsPaired why so_far transcript calls s laws h =
      let after = append_message c.scrub transcript (refused w c calls) in
      closed-IsPaired (record so_far { stop_reason = why }) after (w.call s (sent w c after) false)
        (λ r last e. laws.replies s last (sent w c after) false r e)
        (refused-Follows transcript calls h)

  module _ (next : AgentResult → List Message → W → After W AgentResult) where
    -- What the passes to come keep.
    abbrev Keeps : Type 0
    Keeps =
        (so_far : AgentResult) (transcript : List Message) (s : W)
        → IsPaired transcript
        → IsPaired (next so_far transcript s).transcript

    go_on-IsPaired :
        (so_far : AgentResult) (answered : After W ℕ)
        → Keeps
        → IsPaired answered.transcript
        → IsPaired (go_on w c next so_far answered).transcript
    go_on-IsPaired so_far answered keeps h = elim (Option-cases answered.result) [
      | inl raised ↦ rw (raised, go_on) h
      | inr (calls, e) ↦ rw (e, go_on) (keeps _ answered.transcript answered.world h)
    ]

    within_time-IsPaired :
        (so_far : AgentResult) (transcript : List Message) (calls : List ToolUse) (late : Bool × W)
        → IsWorld w
        → Keeps
        → Distinct (use_ids calls)
        → Follows [] transcript (map c.scrub (use_ids calls))
        → IsPaired (within_time w c next so_far transcript calls late).transcript
    within_time-IsPaired so_far transcript calls (true, s) laws keeps d h =
        close_out-IsPaired max_duration so_far transcript calls s laws h
    within_time-IsPaired so_far transcript calls (false, s) laws keeps d h =
        go_on-IsPaired so_far (answer w c transcript calls (dispatch_each w c calls s)) keeps (
          answer-Follows transcript calls (dispatch_each w c calls s) laws h
            (dispatch_each-Answers calls s d))

    replied-IsPaired :
        (so_far : AgentResult) (transcript : List Message) (got : Option ChatResponse × W)
        → IsWorld w
        → Keeps
        → ((r : ChatResponse) (after : W) → got ≡ (some r, after) → IsReply r)
        → IsPaired transcript
        → IsPaired (replied w c next so_far transcript got).transcript
    replied-IsPaired so_far transcript (none, s) laws keeps replies h = h
    replied-IsPaired so_far transcript (some r, s) laws keeps replies h =
        let reply = replies r s refl in
        let owed = reply-Follows transcript r reply h in
        elim (Bool-cases (is_tool_use r.stop_reason && not (null (uses_in r.content)))) [
          | inr done ↦ rw (done, replied) (owes_none (uses_in r.content) _ (ends r reply done) owed)
          | inl wants ↦ elim (Bool-cases (ltb c.max_tool_iterations so_far.iterations)) [
            | inl over ↦
                rw (wants, over, replied)
                  (close_out-IsPaired max_iterations (heard w c so_far r) _ (uses_in r.content) s
                    laws owed)
            | inr within ↦
                rw (wants, within, replied)
                  (within_time-IsPaired (heard w c so_far r) _ (uses_in r.content) (w.late s) laws
                    keeps reply.own_ids owed)
          ]
        ]

  passes-IsPaired :
      (left : ℕ) (so_far : AgentResult) (transcript : List Message) (s : W)
      → IsWorld w
      → IsPaired transcript
      → IsPaired (passes w c left so_far transcript s).transcript
  unfolding passes
  passes-IsPaired zero so_far transcript s laws h = h
  passes-IsPaired (suc left) so_far transcript s laws h =
      replied-IsPaired (passes w c left) (record so_far { iterations = so_far.iterations + 1 })
        transcript (w.call s (sent w c transcript) true) laws
        (λ so_far transcript s. passes-IsPaired left so_far transcript s laws)
        (λ r after. laws.replies s after (sent w c transcript) true r) h

-- Where replies call tools only when they stop for them, each call by an id of its own, and the images
-- that tools surfaced are looked up without an exception: a turn on a transcript whose calls are
-- answered leaves one whose calls are answered, whether it ends by itself, runs out of rounds or time,
-- or raises in a provider or in a tool.
pub respond-IsPaired :
    {W : Type 0} (w : World W) (c : AgentConfig) (transcript : List Message) (user_text : Text)
    (images : List Text) (s : W)
    → IsWorld w
    → IsPaired transcript
    → IsPaired (respond w c transcript user_text images s).transcript
unfolding respond
respond-IsPaired w c transcript user_text images s laws h =
    passes-IsPaired w c (c.max_tool_iterations + 1) (nothing_yet w c)
      (append_message c.scrub transcript (user_message user_text images)) s laws
      (user_message-IsPaired c.scrub transcript user_text images h)
