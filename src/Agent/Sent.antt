-- ===== src/Agent/Sent.antt =====
-- That what is sent to a provider pairs tool calls with their results, however much is left out.
use siatt.Base.{
  ℕ, zero, suc, ◌+◌, ◌-◌, ◌≤◌, ◌<◌, ◌≡◌, refl, sym, ap, ap₂, ◌∙◌, subst, inl, inr, true, ◌||◌, List,
  [], ◌∷◌, ◌++◌, map, arith, ltb, leb, Bool-cases, ◌==◌, nat_keyed, string_keyed, pair_keyed,
  length, null, Every, Every-append,
}
use siatt.Text.{Text}
use siatt.Agent.{
  ToolResult, Block, text, thinking, image, tool_use, tool_result, Message, uses_in, results_in,
  starts_turn, from, at_turn, newest_head, widen, recent_messages,
}
use siatt.Agent.Context.{
  Tokens, split_turns, group_turns, shorten, shorten_block, tokens_in, cost, compact,
  compact_tool_results, keep, flatten, newest_first, pack_recent, elide,
}
use siatt.Agent.Turn.{World, AgentConfig, sent}
use siatt.Agent.Paired.{use_ids, result_ids, Follows, IsPaired, Follows-append}

null-none : {A : Type 0} (xs : List A) → null xs ≡ true → xs ≡ []
null-none [] e = refl
null-none (x ∷ xs) e = absurd (cc e)

from_empty : (n : ℕ) → from n [] ≡ []
from_empty zero = refl
from_empty (suc n) = refl

starts_turn-none : (m : Message) → starts_turn m ≡ true → result_ids (results_in m.content) ≡ []
starts_turn-none m e = ap result_ids (null-none (results_in m.content) (ground arith))

-- A slice that starts a turn owes nothing.
from-IsPaired :
    (n : ℕ) (owed : List Text) (ms : List Message)
    → Follows owed ms []
    → at_turn (from n ms) ≡ true
    → IsPaired (from n ms)
from-IsPaired n owed [] h e = subst IsPaired (sym (from_empty n)) refl
from-IsPaired zero owed (m ∷ ms) h e = (starts_turn-none m e, h.1)
from-IsPaired (suc n) owed (m ∷ ms) h e = from-IsPaired n (use_ids (uses_in m.content)) ms h.1 e

newest_head-lt : (ms : List Message) (low count : ℕ) → newest_head ms low count ≤ low + (count - 1)
newest_head-lt ms low zero = omega arith
newest_head-lt ms low (suc count) = elim (Bool-cases (at_turn (from (low + count) ms))) [
  | inl here ↦ rw (here, newest_head) (omega arith)
  | inr not_here ↦ rw (not_here, newest_head) (omega (arith, newest_head-lt ms low count))
]

widen-at_turn :
    (fuel limit : ℕ) (ms : List Message) (at : ℕ)
    → at ≤ fuel
    → 1 ≤ limit
    → at_turn ms ≡ true
    → at_turn (from (widen fuel limit ms at) ms) ≡ true
widen-at_turn zero limit ms at h g e =
    let first : 0 ≡ at = omega (arith, h) in subst (λ n. at_turn (from n ms) ≡ true) first e
widen-at_turn (suc fuel) limit ms at h g e = elim (Bool-cases (at_turn (from at ms) || at == 0)) [
  | inl stop ↦
      rw (stop, widen)
        (elim (Bool-cases (at == 0)) [
          | inl start ↦
              let first : 0 ≡ at = sym ((nat_keyed.same_iff at 0).0 start) in
              subst (λ n. at_turn (from n ms) ≡ true) first e
          | inr later ↦ ground arith
        ])
  | inr on ↦
      let before = newest_head-lt ms (at - limit) (at - (at - limit)) in
      let some_left : 0 < at = ground arith in
      rw (on, widen)
        (widen-at_turn fuel limit ms (newest_head ms (at - limit) (at - (at - limit)))
          (omega (arith, before, h, g, some_left)) g e)
]

recent_messages-IsPaired :
    (limit : ℕ) (ms : List Message)
    → 1 ≤ limit
    → IsPaired ms
    → at_turn ms ≡ true
    → IsPaired (recent_messages limit ms)
unfolding recent_messages
recent_messages-IsPaired limit ms g h e =
    from-IsPaired (widen (length ms) limit ms (length ms - limit)) [] ms h
      (widen-at_turn (length ms) limit ms (length ms - limit) (omega arith) g e)

-- Splitting at the heads of turns splits no pair.
split_turns-IsPaired :
    (owed : List Text) (current ms : List Message)
    → Follows [] current owed
    → Follows owed ms []
    → Every IsPaired (split_turns current ms)
split_turns-IsPaired owed [] [] h g = tt
split_turns-IsPaired owed (c ∷ current) [] h g = (subst (Follows [] (c ∷ current)) g h, tt)
split_turns-IsPaired owed [] (m ∷ ms) h g =
    split_turns-IsPaired (use_ids (uses_in m.content)) (m ∷ []) ms (g.0 ∙ sym h, refl) g.1
split_turns-IsPaired owed (c ∷ current) (m ∷ ms) h g = elim (Bool-cases (starts_turn m)) [
  | inl head ↦
      let none_owed : [] ≡ owed = sym (starts_turn-none m head) ∙ g.0 in
      rw (head, split_turns)
        (
          subst (Follows [] (c ∷ current)) (sym none_owed) h,
          split_turns-IsPaired (use_ids (uses_in m.content)) (m ∷ []) ms
              (starts_turn-none m head, refl) g.1,
        )
  | inr inside ↦
      rw (inside, split_turns)
        (split_turns-IsPaired (use_ids (uses_in m.content)) (c ∷ current ++ m ∷ []) ms
          (Follows-append [] owed (use_ids (uses_in m.content)) (c ∷ current) (m ∷ []) h
            (g.0, refl))
          g.1)
]

module _ (l : Tokens) where
  shorten-id : (r : ToolResult) → (shorten l r).tool_use_id ≡ r.tool_use_id
  shorten-id r = elim (Bool-cases (ltb (length (elide l r.content)) (length r.content))) [
    | inl shorter ↦ rw shorter refl
    | inr as_long ↦ rw as_long refl
  ]

  result_ids-shorten :
      (bs : List Block)
      → result_ids (results_in (map (shorten_block l) bs)) ≡ result_ids (results_in bs)
  result_ids-shorten [] = refl
  result_ids-shorten (text t ∷ bs) = result_ids-shorten bs
  result_ids-shorten (thinking t ∷ bs) = result_ids-shorten bs
  result_ids-shorten (image t ∷ bs) = result_ids-shorten bs
  result_ids-shorten (tool_use u ∷ bs) = result_ids-shorten bs
  result_ids-shorten (tool_result r ∷ bs) =
      ap₂ (λ i is. i ∷ is) (shorten-id r) (result_ids-shorten bs)

  use_ids-shorten :
      (bs : List Block) → use_ids (uses_in (map (shorten_block l) bs)) ≡ use_ids (uses_in bs)
  use_ids-shorten [] = refl
  use_ids-shorten (text t ∷ bs) = use_ids-shorten bs
  use_ids-shorten (thinking t ∷ bs) = use_ids-shorten bs
  use_ids-shorten (image t ∷ bs) = use_ids-shorten bs
  use_ids-shorten (tool_use u ∷ bs) = ap (λ is. u.id ∷ is) (use_ids-shorten bs)
  use_ids-shorten (tool_result r ∷ bs) = use_ids-shorten bs

  -- Shortening results keeps the shape of a turn.
  compact-Follows :
      (budget spent : ℕ) (owed left : List Text) (ms : List Message)
      → Follows owed ms left
      → Follows owed (compact l budget spent ms) left
  compact-Follows budget spent owed left [] h = h
  compact-Follows budget spent owed left (m ∷ ms) h = elim (Bool-cases (leb spent budget)) [
    | inl fits ↦ rw (fits, compact) h
    | inr over ↦
        elim (Bool-cases (
          tokens_in l (results_in m.content)
          == tokens_in l (map (shorten l) (results_in m.content)))) [
            | inl same ↦
                rw (over, same, compact)
                  (h.0, compact-Follows budget spent (use_ids (uses_in m.content)) left ms h.1)
            | inr saved ↦
                rw (over, saved, compact)
                  (
                    result_ids-shorten m.content ∙ h.0,
                    compact-Follows budget
                        (spent
                          + tokens_in l (map (shorten l) (results_in m.content))
                          - tokens_in l (results_in m.content))
                        (use_ids (uses_in (map (shorten_block l) m.content))) left ms
                        (subst (λ o. Follows o ms left) (sym (use_ids-shorten m.content)) h.1),
                  )
          ]
  ]

  compact_tool_results-IsPaired :
      (budget : ℕ) (group : List Message)
      → IsPaired group
      → IsPaired (compact_tool_results l budget group)
  unfolding compact_tool_results
  compact_tool_results-IsPaired budget group h = compact-Follows budget (cost l group) [] [] group h

  keep-IsPaired :
      (budget used : ℕ) (kept groups : List (List Message))
      → Every IsPaired kept
      → Every IsPaired groups
      → Every IsPaired (keep l budget used kept groups)
  keep-IsPaired budget used [] [] h g = tt
  keep-IsPaired budget used (k ∷ kept) [] h g = h
  keep-IsPaired budget used [] (group ∷ groups) h g =
      elim (Bool-cases (ltb budget (used + cost l group))) [
        | inl over ↦
            rw (over, keep)
              (keep-IsPaired budget (used + cost l (compact_tool_results l budget group))
                (compact_tool_results l budget group ∷ []) groups
                (compact_tool_results-IsPaired budget group g.0, tt) g.1)
        | inr fits ↦
            rw (fits, keep)
              (keep-IsPaired budget (used + cost l group) (group ∷ []) groups (g.0, tt) g.1)
      ]
  keep-IsPaired budget used (k ∷ kept) (group ∷ groups) h g =
      elim (Bool-cases (ltb budget (used + cost l group))) [
        | inl over ↦ rw (over, keep) h
        | inr fits ↦
            rw (fits, keep)
              (keep-IsPaired budget (used + cost l group) (group ∷ k ∷ kept) groups (g.0, h) g.1)
      ]

  newest_first-Every :
      (gs : List (List Message)) → Every IsPaired gs → Every IsPaired (newest_first l gs)
  newest_first-Every [] h = tt
  newest_first-Every (g ∷ gs) h =
      Every-append IsPaired (newest_first l gs) (g ∷ []) (newest_first-Every gs h.1) (h.0, tt)

  flatten-IsPaired : (gs : List (List Message)) → Every IsPaired gs → IsPaired (flatten l gs)
  flatten-IsPaired [] h = refl
  flatten-IsPaired (g ∷ gs) h =
      Follows-append [] [] [] g (flatten l gs) h.0 (flatten-IsPaired gs h.1)

  pack_recent-IsPaired :
      (budget : ℕ) (ms : List Message) → IsPaired ms → IsPaired (pack_recent l budget ms)
  unfolding pack_recent group_turns
  pack_recent-IsPaired budget ms h =
      flatten-IsPaired (keep l budget 0 [] (newest_first l (group_turns ms))) (
        keep-IsPaired budget 0 [] (newest_first l (group_turns ms)) tt
          (newest_first-Every (group_turns ms) (split_turns-IsPaired [] [] ms refl h)))

-- From a transcript that opens with something said and whose calls are answered, with a limit of at
-- least one on the history, whatever that limit and the budget leave out and shorten, what is sent
-- answers every call right after the message that makes it, and answers nothing else.
pub sent-IsPaired :
    {W : Type 0} (w : World W) (c : AgentConfig) (transcript : List Message)
    → 1 ≤ c.history_limit
    → at_turn transcript ≡ true
    → IsPaired transcript
    → IsPaired (sent w c transcript)
unfolding sent
sent-IsPaired w c transcript g e h =
    pack_recent-IsPaired c.tokens c.recent_budget (recent_messages c.history_limit transcript)
      (recent_messages-IsPaired c.history_limit transcript g h e)
