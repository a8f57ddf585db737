-- ===== src/Memory/Patch/Compile.antt =====
-- `PatchCompiler.compile` of siatt/memory/patch.py: the loop over a plan, and the whole-plan rules.
use siatt.Base.{
  ℕ, ◌+◌, String, ◌⊎◌, inl, inr, Bool, false, none, some, List, [], ◌∷◌, ◌++◌, map, ltb,
  if◌then◌else◌, ◌==◌, nat_keyed, string_keyed, elem, pair_keyed, length,
}
use siatt.Memory.{World}
use siatt.Memory.Manifest.{Manifest, paths, dangling}
use siatt.Memory.Patch.{
  delete, write, remove, ok, refused, too_many_files, dangling_link, secret_material, Attempt,
  Change, MemoryPatch, Reason, Rejection, dedupe, path_changed,
}
use siatt.Memory.Patch.Operations.{compile_one}

module _ (w : World) where
  -- The rejections, the changes and the projected manifest after some patches.
  pub record Compiled : Type 0 where
    pub rejections : List Rejection
    pub changes : List Change
    pub projected : Manifest

  abbrev pub take_attempt : Attempt (List Change) → Compiled → Compiled
  take_attempt (ok cs m) c = record c { changes = c.changes ++ cs; projected = m }
  take_attempt (refused rs m) c = record c { rejections = c.rejections ++ rs; projected = m }

  -- The loop of `compile`.
  abbrev pub compile_each : List MemoryPatch → ℕ → String → Compiled → Compiled
  compile_each [] index job c = c
  compile_each (p ∷ plan) index job c =
      compile_each plan (index + 1) job (take_attempt (compile_one w p index job c.projected) c)

  abbrev pub prune_change : Change → Change
  prune_change (remove path) = remove path
  prune_change (write path content) = elim w.prune [
    | none ↦ write path content
    | some prune ↦
        if w.is_markdown path
        then elim (prune content) [ none ↦ write path content | some body ↦ write path body ]
        else write path content
  ]

  abbrev pub whole_plan : Reason → Rejection
  whole_plan reason = record { reason = reason; index = none; conflict = none }

  unfoldable pub check_plan_limits : List Change → List Rejection
  check_plan_limits changes =
      let touched = length (dedupe (map path_changed changes)) in
      if ltb w.max_files_per_commit touched then whole_plan (too_many_files touched) ∷ [] else []

  abbrev pub check_secrets : List Change → List Rejection
  check_secrets [] = []
  check_secrets (remove path ∷ cs) = check_secrets cs
  check_secrets (write path content ∷ cs) =
      let rest = check_secrets cs in
      if w.scrub content == content then rest else whole_plan (secret_material path) ∷ rest

  abbrev pub dangling_in : Change → Manifest → List String
  dangling_in (remove path) m = []
  dangling_in (write path content) m =
      if w.is_markdown path
      then elim (w.parse content path) [ inl reason ↦ [] | inr doc ↦ dangling w doc m ]
      else []

  abbrev pub check_written : List Change → Manifest → List Rejection
  check_written [] m = []
  check_written (c ∷ cs) m =
      map (λ target. whole_plan (dangling_link (path_changed c) target)) (dangling_in c m)
      ++ check_written cs m

  -- Whether the file at a path still links to a memory.
  abbrev pub still_links : String → String → Bool
  still_links id path = elim (w.file path) [
    | none ↦ false
    | some text ↦ elim (w.parse text path) [ inl reason ↦ false | inr doc ↦ elem id (w.links doc) ]
  ]

  abbrev pub inbound_links : String → List String → List Rejection
  inbound_links id [] = []
  inbound_links id (path ∷ ps) =
      let rest = inbound_links id ps in
      if still_links id path then whole_plan (dangling_link path id) ∷ rest else rest

  abbrev pub check_deleted : List MemoryPatch → Manifest → List Rejection
  check_deleted [] m = []
  check_deleted (delete id reason ∷ plan) m =
      inbound_links id (paths m.memories) ++ check_deleted plan m
  check_deleted (_ ∷ plan) m = check_deleted plan m

  abbrev pub compiled : List MemoryPatch → String → Manifest → Compiled
  compiled plan job m =
      compile_each plan 0 job (record { rejections = []; changes = []; projected = m })

  abbrev pub pruned : List MemoryPatch → String → Manifest → List Change
  pruned plan job m = map prune_change (compiled plan job m).changes

  abbrev pub all_rejections : List MemoryPatch → String → Manifest → List Rejection
  all_rejections plan job m =
      (compiled plan job m).rejections
      ++ (check_plan_limits (pruned plan job m)
          ++ (check_written (pruned plan job m) (compiled plan job m).projected
              ++ (check_deleted plan (compiled plan job m).projected
                  ++ check_secrets (pruned plan job m))))

  -- The writes that a plan means, or all that is wrong with it.
  abbrev pub verdict : List Rejection → List Change → List Rejection ⊎ List Change
  verdict [] changes = inr changes
  verdict (r ∷ rs) changes = inl (r ∷ rs)

  unfoldable pub compile : List MemoryPatch → String → Manifest → List Rejection ⊎ List Change
  compile plan job m = verdict (all_rejections plan job m) (pruned plan job m)
