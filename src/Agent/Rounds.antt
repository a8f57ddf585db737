-- ===== src/Agent/Rounds.antt =====
-- How much a turn can add to a conversation, and what a reply that stops early leaves behind.
use siatt.Base.{
  ℕ, zero, suc, ◌+◌, ◌*◌, ◌≤◌, ◌≡◌, refl, sym, ap, ◌∙◌, subst, ◌≢◌, inl, inr, Bool, true, false,
  not, ◌&&◌, Option, none, some, List, [], ◌∷◌, map, arith, ltb, Bool-cases, Option-cases,
  nat_keyed, string_keyed, pair_keyed, length, null, length-append,
}
use siatt.Text.{Text}
use siatt.Agent.{ToolUse, Message, uses_in, results_in, user_message, append_message}
use siatt.Agent.Turn.{
  TurnEnd, max_iterations, max_duration, ChatResponse, AgentConfig, World, AgentResult, After,
  assistant_message, is_tool_use, refused, dispatch_each, with_images, answer, sent, closed,
  close_out, go_on, within_time, heard, replied, passes, nothing_yet, respond,
}
use siatt.Agent.Paired.{
  use_ids, result_ids, Follows, IsPaired, append-Follows, user_message-IsPaired,
}

append-length :
    (scrub : Text → Text) (ms : List Message) (m : Message)
    → length (append_message scrub ms m) ≡ suc (length ms)
unfolding append_message
append-length scrub ms m = omega (arith, length-append ms (_ ∷ []))

module _ {W : Type 0} (w : World W) (c : AgentConfig) where
  with_images-length-le :
      (transcript : List Message) (results : _) (got : Option (List Text) × W)
      → length (with_images w c transcript results got).transcript ≤ suc (length transcript)
  with_images-length-le transcript results (none, s) = omega arith
  with_images-length-le transcript results (some images, s) =
      omega (arith, append-length c.scrub transcript _)

  answer-length-le :
      (transcript : List Message) (calls : List ToolUse) (made : _)
      → length (answer w c transcript calls made).transcript ≤ suc (length transcript)
  answer-length-le transcript calls (results, false, s) =
      omega (arith, append-length c.scrub transcript _)
  answer-length-le transcript calls (results, true, s) =
      with_images-length-le transcript results (w.blocks s)

  closed-length-le :
      (so_far : AgentResult) (transcript : List Message) (got : Option ChatResponse × W)
      → length (closed w c so_far transcript got).transcript ≤ length transcript + 2
  closed-length-le so_far transcript (none, s) = omega arith
  closed-length-le so_far transcript (some r, s) =
      let said = append_message c.scrub transcript (assistant_message r.content) in
      let one = append-length c.scrub transcript (assistant_message r.content) in
      let two = append-length c.scrub said (refused w c (uses_in r.content)) in
      elim (Bool-cases (null (uses_in r.content))) [
        | inl silent ↦ rw (silent, closed) (omega (arith, one))
        | inr stray ↦ rw (stray, closed) (omega (arith, one, two))
      ]

  close_out-length-le :
      (why : TurnEnd) (so_far : AgentResult) (transcript : List Message) (calls : List ToolUse)
      (s : W)
      → length (close_out w c why so_far transcript calls s).transcript ≤ length transcript + 3
  close_out-length-le why so_far transcript calls s =
      let after = append_message c.scrub transcript (refused w c calls) in
      omega (
        arith,
        append-length c.scrub transcript (refused w c calls),
        closed-length-le (record so_far { stop_reason = why }) after
            (w.call s (sent w c after) false),
      )

  module _ (next : AgentResult → List Message → W → After W AgentResult) (most : ℕ) where
    abbrev Adds : Type 0
    Adds =
        (so_far : AgentResult) (transcript : List Message) (s : W)
        → length (next so_far transcript s).transcript ≤ length transcript + most

    go_on-length-le :
        (so_far : AgentResult) (answered : After W ℕ)
        → Adds
        → length (go_on w c next so_far answered).transcript ≤ length answered.transcript + most
    go_on-length-le so_far answered adds = elim (Option-cases answered.result) [
      | inl raised ↦ rw (raised, go_on) (omega arith)
      | inr (calls, e) ↦ rw (e, go_on) (adds _ answered.transcript answered.world)
    ]

    within_time-length-le :
        (so_far : AgentResult) (transcript : List Message) (calls : List ToolUse) (late : Bool × W)
        → Adds
        → 2 ≤ most
        → length (within_time w c next so_far transcript calls late).transcript
          ≤ length transcript + most + 1
    within_time-length-le so_far transcript calls (true, s) adds h =
        omega (arith, close_out-length-le max_duration so_far transcript calls s, h)
    within_time-length-le so_far transcript calls (false, s) adds h =
        let made = dispatch_each w c calls s in
        omega (
          arith,
          answer-length-le transcript calls made,
          go_on-length-le so_far (answer w c transcript calls made) adds,
        )

    replied-length-le :
        (so_far : AgentResult) (transcript : List Message) (got : Option ChatResponse × W)
        → Adds
        → 2 ≤ most
        → length (replied w c next so_far transcript got).transcript ≤ length transcript + most + 2
    replied-length-le so_far transcript (none, s) adds h = omega arith
    replied-length-le so_far transcript (some r, s) adds h =
        let said = append_message c.scrub transcript (assistant_message r.content) in
        let one = append-length c.scrub transcript (assistant_message r.content) in
        let calls = uses_in r.content in
        elim (Bool-cases (is_tool_use r.stop_reason && not (null (uses_in r.content)))) [
          | inr done ↦ rw (done, replied) (omega (arith, one))
          | inl wants ↦ elim (Bool-cases (ltb c.max_tool_iterations so_far.iterations)) [
            | inl over ↦
                let closes = close_out-length-le max_iterations (heard w c so_far r) said calls s in
                rw (wants, over, replied) (omega (arith, one, closes, h))
            | inr within ↦
                let more =
                  within_time-length-le (heard w c so_far r) said calls (w.late s) adds h in
                rw (wants, within, replied) (omega (arith, one, more))
          ]
        ]

  passes-length-le :
      (left : ℕ) (so_far : AgentResult) (transcript : List Message) (s : W)
      → length (passes w c left so_far transcript s).transcript ≤ length transcript + (2 * left + 2)
  unfolding passes
  passes-length-le zero so_far transcript s = omega arith
  passes-length-le (suc left) so_far transcript s =
      let all =
        replied-length-le (passes w c left) (2 * left + 2)
          (record so_far { iterations = so_far.iterations + 1 }) transcript
          (w.call s (sent w c transcript) true) (passes-length-le left) (omega arith) in
      omega (arith, all)

  -- However a turn ends, it adds at most five messages and two for each round of tools it may use:
  -- what was said, a call and its results for each round, and the close of a turn out of budget.
  pub respond-length-le :
      (transcript : List Message) (user_text : Text) (images : List Text) (s : W)
      → length (respond w c transcript user_text images s).transcript
        ≤ length transcript + (2 * c.max_tool_iterations + 5)
  unfolding respond
  respond-length-le transcript user_text images s =
      let said = append_message c.scrub transcript (user_message user_text images) in
      omega (
        arith,
        append-length c.scrub transcript (user_message user_text images),
        passes-length-le (c.max_tool_iterations + 1) (nothing_yet w c) said s,
      )

replied-stops :
    {W : Type 0} (w : World W) (c : AgentConfig)
    (next : AgentResult → List Message → W → After W AgentResult) (so_far : AgentResult)
    (transcript : List Message) (r : ChatResponse) (s : W)
    → is_tool_use r.stop_reason ≡ false
    → (replied w c next so_far transcript (some r, s)).transcript
      ≡ append_message c.scrub transcript (assistant_message r.content)
replied-stops w c next so_far transcript r s stop = rw (stop, replied) refl

Follows-unique :
    (owed p q : List Text) (ms : List Message) → Follows owed ms p → Follows owed ms q → p ≡ q
Follows-unique owed p q [] h g = sym h ∙ g
Follows-unique owed p q (m ∷ ms) h g = Follows-unique (use_ids (uses_in m.content)) p q ms h.1 g.1

some_ids :
    (scrub : Text → Text) (calls : List ToolUse)
    → null calls ≡ false
    → map scrub (use_ids calls) ≢ []
some_ids scrub [] h e = absurd (cc h)
some_ids scrub (u ∷ us) h e = absurd (cc e)

-- A first reply that calls tools and stops for another reason, the output limit for one, ends the turn
-- with its calls unanswered.
pub respond-leaves_unanswered :
    {W : Type 0} (w : World W) (c : AgentConfig) (transcript : List Message) (user_text : Text)
    (images : List Text) (s after : W) (r : ChatResponse)
    → IsPaired transcript
    → w.call s (sent w c (append_message c.scrub transcript (user_message user_text images))) true
      ≡ (some r, after)
    → results_in r.content ≡ []
    → is_tool_use r.stop_reason ≡ false
    → null (uses_in r.content) ≡ false
    → ¬ (IsPaired (respond w c transcript user_text images s).transcript)
unfolding respond passes
respond-leaves_unanswered w c transcript user_text images s after r h e clean stop calls paired =
    let said = append_message c.scrub transcript (user_message user_text images) in
    let so_far = nothing_yet w c in
    let first : AgentResult = record so_far { iterations = so_far.iterations + 1 } in
    let suc_rounds : c.max_tool_iterations + 1 ≡ suc c.max_tool_iterations = omega arith in
    let outcome : (respond w c transcript user_text images s).transcript
        ≡ append_message c.scrub said (assistant_message r.content) =
      ap (λ n. (passes w c n so_far said s).transcript) suc_rounds
      ∙ ap (λ got. (replied w c (passes w c c.max_tool_iterations) first said got).transcript) e
      ∙ replied-stops w c (passes w c c.max_tool_iterations) first said r after stop in
    let owed =
      append-Follows c.scrub said [] (assistant_message r.content)
        (user_message-IsPaired c.scrub transcript user_text images h) (ap result_ids clean) in
    some_ids c.scrub (uses_in r.content) calls (
      Follows-unique [] (map c.scrub (use_ids (uses_in r.content))) [] _ owed
        (subst IsPaired outcome paired))
