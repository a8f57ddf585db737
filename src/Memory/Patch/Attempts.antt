-- ===== src/Memory/Patch/Attempts.antt =====
-- What an accepted plan and an attempt that did not raise tell, in siatt/memory/patch.py.
use siatt.Base.{
  ℕ, String, ◌≡◌, refl, ◌⊎◌, inl, inr, Bool, true, false, some, List, [], ◌∷◌, ◌++◌, Option-cases,
  nat_keyed, string_keyed, pair_keyed,
}
use siatt.Memory.{MemoryDoc, World}
use siatt.Memory.Manifest.{Manifest, ManifestEntry, entry}
use siatt.Memory.Patch.{ok, refused, Attempt, Change, MemoryPatch, Reason, Rejection, unless, ◌>>◌}
use siatt.Memory.Patch.Operations.{load, parsed}
use siatt.Memory.Patch.Compile.{all_rejections, compile, pruned, verdict}

-- Two lists that make the empty one.
pub append-empty : {A : Type 0} (xs ys : List A) → xs ++ ys ≡ [] → (xs ≡ []) × (ys ≡ [])
append-empty [] ys e = (refl, e)
append-empty (x ∷ xs) ys e = absurd (cc e)

-- An attempt that gives a reason when it raises, and whose result and manifest have a property.
pub data Ensures {A : Type 0} (P : A → Manifest → Type 0) : Attempt A → Type 0 where
  returns : {x : A} {m : Manifest} → P x m → Ensures P (ok x m)
  raises : {r : Rejection} {rs : List Rejection} {m : Manifest} → Ensures P (refused (r ∷ rs) m)

pub Ensures->> :
    {A B : Type 0} {P : A → Manifest → Type 0} {Q : B → Manifest → Type 0} {a : Attempt A}
    → {f : A → Manifest → Attempt B} → Ensures P a
    → ((x : A) (m : Manifest) → P x m → Ensures Q (f x m))
    → Ensures Q (a >> f)
Ensures->> (returns {x} {m} p) k = k x m p
Ensures->> raises k = raises

pub unless-Ensures :
    (b : Bool) (index : ℕ) (reason : Reason) (m : Manifest)
    → Ensures (λ (x : Unit) after. (b ≡ true) × (after ≡ m)) (unless b index reason m)
unless-Ensures true index reason m = returns (refl, refl)
unless-Ensures false index reason m = raises

pub weaken :
    {A : Type 0} {P Q : A → Manifest → Type 0} {a : Attempt A}
    → ((x : A) (m : Manifest) → P x m → Q x m)
    → Ensures P a
    → Ensures Q a
weaken k (returns {x} {m} p) = returns (k x m p)
weaken k raises = raises

module _ (w : World) where
  pub compile-accepted :
      (plan : List MemoryPatch) (job : String) (m : Manifest) (changes : List Change)
      → compile w plan job m ≡ inr changes
      → (all_rejections w plan job m ≡ []) × (pruned w plan job m ≡ changes)
  unfolding compile
  compile-accepted plan job m changes e = read (all_rejections w plan job m) e
    where
      read :
          (rs : List Rejection)
          → verdict w rs (pruned w plan job m) ≡ inr changes
          → (rs ≡ []) × (pruned w plan job m ≡ changes)
      read [] v = (refl, cc v)
      read (r ∷ rs) v = absurd (cc v)

  pub record IsLoaded (id : String) (m : Manifest) (pd : String × MemoryDoc) : Type 0 where
    pub listed_as : ManifestEntry
    pub text : String
    pub listed : entry id m ≡ some listed_as
    pub on_disk : w.file listed_as.path ≡ some text
    pub reads : w.parse text listed_as.path ≡ inr pd.1
    pub at_path : pd.0 ≡ listed_as.path

  pub parsed-Ensures :
      (id : String) (m : Manifest) (x : ManifestEntry) (text : String) (r : String ⊎ MemoryDoc)
      (index : ℕ)
      → entry id m ≡ some x
      → w.file x.path ≡ some text
      → w.parse text x.path ≡ r
      → Ensures (λ pd after. IsLoaded id m pd) (parsed w x.path r index m)
  parsed-Ensures id m x text (inl reason) index l f e = raises
  parsed-Ensures id m x text (inr doc) index l f e =
      returns
        (record { listed_as = x; text = text; listed = l; on_disk = f; reads = e; at_path = refl })

  pub load-Ensures :
      (id : String) (index : ℕ) (m : Manifest)
      → Ensures (λ pd after. IsLoaded id m pd) (load w id index m)
  unfolding load
  load-Ensures id index m = elim (Option-cases (entry id m)) [
    | inl e ↦ rw (e, load) raises
    | inr (x, e) ↦
        rw (e, load)
          (elim (Option-cases (w.file x.path)) [
            | inl f ↦ rw f raises
            | inr (text, f) ↦ rw f (parsed-Ensures id m x text _ index e f refl)
          ])
  ]
