-- ===== src/Agent/Paired.antt =====
-- Tool calls and their results in a conversation: each result stands right after the call it answers.
use siatt.Base.{
  ◌≡◌, refl, sym, ap, ◌∙◌, subst, List, [], ◌∷◌, ◌++◌, map, nat_keyed, string_keyed, pair_keyed,
}
use siatt.Text.{text_keyed, Text}
use siatt.Agent.{
  ToolUse, ToolResult, Block, text, thinking, image, tool_use, tool_result, Message, uses_in,
  results_in, tool_results, user_message, scrub_block, scrub_message, append_message,
}

abbrev pub use_ids : List ToolUse → List Text
use_ids [] = []
use_ids (u ∷ us) = u.id ∷ use_ids us

abbrev pub result_ids : List ToolResult → List Text
result_ids [] = []
result_ids (r ∷ rs) = r.tool_use_id ∷ result_ids rs

-- From the calls `owed` on, every message answers all the calls of the one before it and nothing
-- else; `left` are the calls of the last one.
abbrev pub Follows : List Text → List Message → List Text → Type 0
Follows owed [] left = owed ≡ left
Follows owed (m ∷ ms) left =
    (result_ids (results_in m.content) ≡ owed) × Follows (use_ids (uses_in m.content)) ms left

-- A transcript that a provider takes.
abbrev pub IsPaired : List Message → Type 0
IsPaired ms = Follows [] ms []

pub Follows-append :
    (owed mid left : List Text) (xs ys : List Message)
    → Follows owed xs mid
    → Follows mid ys left
    → Follows owed (xs ++ ys) left
Follows-append owed mid left [] ys h g = subst (λ o. Follows o ys left) (sym h) g
Follows-append owed mid left (x ∷ xs) ys h g =
    (h.0, Follows-append (use_ids (uses_in x.content)) mid left xs ys h.1 g)

module _ (scrub : Text → Text) where
  results_in-scrub :
      (bs : List Block)
      → result_ids (results_in (map (scrub_block scrub) bs))
        ≡ map scrub (result_ids (results_in bs))
  results_in-scrub [] = refl
  results_in-scrub (text t ∷ bs) = results_in-scrub bs
  results_in-scrub (thinking t ∷ bs) = results_in-scrub bs
  results_in-scrub (image t ∷ bs) = results_in-scrub bs
  results_in-scrub (tool_use u ∷ bs) = results_in-scrub bs
  results_in-scrub (tool_result r ∷ bs) =
      ap (λ ids. scrub r.tool_use_id ∷ ids) (results_in-scrub bs)

  uses_in-scrub :
      (bs : List Block)
      → use_ids (uses_in (map (scrub_block scrub) bs)) ≡ map scrub (use_ids (uses_in bs))
  uses_in-scrub [] = refl
  uses_in-scrub (text t ∷ bs) = uses_in-scrub bs
  uses_in-scrub (thinking t ∷ bs) = uses_in-scrub bs
  uses_in-scrub (image t ∷ bs) = uses_in-scrub bs
  uses_in-scrub (tool_use u ∷ bs) = ap (λ ids. scrub u.id ∷ ids) (uses_in-scrub bs)
  uses_in-scrub (tool_result r ∷ bs) = uses_in-scrub bs

  -- A message that answers what is owed leaves its own calls owed, scrubbed alike.
  pub append-Follows :
      (ms : List Message) (owed : List Text) (m : Message)
      → Follows [] ms (map scrub owed)
      → result_ids (results_in m.content) ≡ owed
      → Follows [] (append_message scrub ms m) (map scrub (use_ids (uses_in m.content)))
  unfolding append_message
  append-Follows ms owed m h e =
      Follows-append [] (map scrub owed) (map scrub (use_ids (uses_in m.content))) ms
        (scrub_message scrub m ∷ []) h
        (results_in-scrub m.content ∙ ap (map scrub) e, uses_in-scrub m.content)

results_in-images : (is : List Text) → results_in (map image is) ≡ []
results_in-images [] = refl
results_in-images (i ∷ is) = results_in-images is

uses_in-images : (is : List Text) → uses_in (map image is) ≡ []
uses_in-images [] = refl
uses_in-images (i ∷ is) = uses_in-images is

pub results_in-tool_results :
    (rs : List ToolResult) (is : List Text) → results_in (tool_results rs is).content ≡ rs
results_in-tool_results [] is = results_in-images is
results_in-tool_results (r ∷ rs) is = ap (λ rs. r ∷ rs) (results_in-tool_results rs is)

pub uses_in-tool_results :
    (rs : List ToolResult) (is : List Text) → uses_in (tool_results rs is).content ≡ []
uses_in-tool_results [] is = uses_in-images is
uses_in-tool_results (r ∷ rs) is = uses_in-tool_results rs is

module _ (scrub : Text → Text) (ms : List Message) (owed : List Text) where
  -- Results for all that is owed leave nothing owed.
  pub tool_results-Follows :
      (rs : List ToolResult) (is : List Text)
      → Follows [] ms (map scrub owed)
      → result_ids rs ≡ owed
      → IsPaired (append_message scrub ms (tool_results rs is))
  tool_results-Follows rs is h e =
      subst
        (λ us. Follows [] (append_message scrub ms (tool_results rs is)) (map scrub (use_ids us)))
        (uses_in-tool_results rs is)
        (append-Follows scrub ms owed (tool_results rs is) h
          (ap result_ids (results_in-tool_results rs is) ∙ e))

pub user_message-IsPaired :
    (scrub : Text → Text) (ms : List Message) (said : Text) (is : List Text)
    → IsPaired ms
    → IsPaired (append_message scrub ms (user_message said is))
user_message-IsPaired scrub ms said is h =
    subst
      (λ us. Follows [] (append_message scrub ms (user_message said is)) (map scrub (use_ids us)))
      (uses_in-images is)
      (append-Follows scrub ms [] (user_message said is) h (ap result_ids (results_in-images is)))
