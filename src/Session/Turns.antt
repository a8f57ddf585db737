-- ===== src/Session/Turns.antt =====
-- That the turns of one session run one at a time, whatever the event loop interleaves.
use siatt.Base.{
  ℕ, String, ◌≡◌, refl, sym, ap, ◌∙◌, subst, inl, inr, true, false, List, [], ◌∷◌, ◌++◌, map, arith,
  leb, Bool-cases, Sum-cases, ◌==◌, nat_keyed, string_keyed, elem, Distinct, Distinct-append,
  pair_keyed, length,
}
use mathlib.Core.List.{append-nil}
use siatt.Session.{
  SessionActor, SessionRouter, post, new_actor, post_to, deliver, OneActs, this, later,
  told_to_close, without, found, evict, close, Step, delivers, acts, leaver_acts, checks, evicts,
  closes, empty,
}
use siatt.Session.Serial.{
  sessions, working, in_progress, OneActs-sessions, OneActs-working, OneActs-Distinct, elem-none,
  working-append, working-told, working-Distinct, in_progress-Distinct,
}

pub record IsSerial (r : SessionRouter) : Type 0 where
  pub own : Distinct (sessions r.actors)
  pub alone_in : r.closed ≡ false → working r.leaving ≡ []
  pub own_leaving : Distinct (working r.leaving)
  pub none_left : r.closed ≡ true → r.actors ≡ []

post-session :
    (limit now event : ℕ) (a b : SessionActor)
    → post limit now event a ≡ inr b
    → b.session_id ≡ a.session_id
unfolding post
post-session limit now event a b e = elim (Bool-cases a.closing) [
  | inl closing ↦ absurd (cc (rw closing at e))
  | inr alive ↦ elim (Bool-cases (leb limit (length a.mailbox))) [
    | inl full ↦ absurd (cc (rw (alive, full) at e))
    | inr room ↦
        let made : SessionActor = record a {
          mailbox = a.mailbox ++ record { event = event; cancelled = false } ∷ [];
          last_active = now;
        } in
        let same : made ≡ b = cc (rw (alive, room) at e) in ap (λ c. c.session_id) (sym same)
  ]
]

-- A post changes no session but for one that had no actor.
data Posted (session : String) (xs ys : List SessionActor) : Type 0 where
  known : sessions ys ≡ sessions xs → Posted session xs ys
  fresh :
      elem session (sessions xs) ≡ false
      → sessions ys ≡ sessions xs ++ session ∷ []
      → Posted session xs ys

after_first :
    (session : String) (x : SessionActor) (xs ys zs : List SessionActor)
    → (x.session_id == session) ≡ false
    → x ∷ zs ≡ ys
    → Posted session xs zs
    → Posted session (x ∷ xs) ys
after_first session x xs ys zs other same (known e) =
    known (ap sessions (sym same) ∙ ap (λ ks. x.session_id ∷ ks) e)
after_first session x xs ys zs other same (fresh h e) =
    fresh (ground (arith, other, h)) (ap sessions (sym same) ∙ ap (λ ks. x.session_id ∷ ks) e)

post_to-Posted :
    (limit now event : ℕ) (session : String) (xs ys : List SessionActor)
    → post_to limit now event session xs ≡ inr ys
    → Posted session xs ys
post_to-Posted limit now event session [] ys e =
    elim (Sum-cases (post limit now event (new_actor session now))) [
      | inl (error, bad) ↦ absurd (cc (rw bad at e))
      | inr (a, good) ↦
          let same : a ∷ [] ≡ ys = cc (rw good at e) in
          fresh refl (
            ap sessions (sym same)
            ∙ ap (λ k. k ∷ []) (post-session limit now event (new_actor session now) a good))
    ]
post_to-Posted limit now event session (x ∷ xs) ys e = elim (Bool-cases (x.session_id == session)) [
  | inl here ↦ elim (Sum-cases (post limit now event x)) [
    | inl (error, bad) ↦ absurd (cc (rw (here, post_to, bad) at e))
    | inr (a, good) ↦
        let same : a ∷ xs ≡ ys = cc (rw (here, post_to, good) at e) in
        known (
          ap sessions (sym same)
          ∙ ap (λ k. k ∷ sessions xs) (post-session limit now event x a good))
  ]
  | inr other ↦ elim (Sum-cases (post_to limit now event session xs)) [
    | inl (error, bad) ↦ absurd (cc (rw (other, post_to, bad) at e))
    | inr (zs, good) ↦
        let same : x ∷ zs ≡ ys = cc (rw (other, post_to, good) at e) in
        after_first session x xs ys zs other same
          (post_to-Posted limit now event session xs zs good)
  ]
]

without-elem :
    (session k : String) (xs : List SessionActor)
    → elem k (sessions xs) ≡ false
    → elem k (sessions (without session xs)) ≡ false
without-elem session k [] h = refl
without-elem session k (x ∷ xs) h =
    let rest = without-elem session k xs (ground arith) in
    elim (Bool-cases (x.session_id == session)) [
      | inl here ↦ rw (here, without) rest
      | inr other ↦ rw (other, without) (ground (arith, rest))
    ]

without-Distinct :
    (session : String) (xs : List SessionActor)
    → Distinct (sessions xs)
    → Distinct (sessions (without session xs))
without-Distinct session [] d = tt
without-Distinct session (x ∷ xs) d = elim (Bool-cases (x.session_id == session)) [
  | inl here ↦ rw (here, without) (without-Distinct session xs d.1)
  | inr other ↦
      rw (other, without)
        (without-elem session x.session_id xs d.0, without-Distinct session xs d.1)
]

Posted-Distinct :
    (session : String) (xs ys : List SessionActor)
    → Posted session xs ys
    → Distinct (sessions xs)
    → Distinct (sessions ys)
Posted-Distinct session xs ys (known e) d = subst Distinct (sym e) d
Posted-Distinct session xs ys (fresh h e) d =
    subst Distinct (sym e) (Distinct-append session (sessions xs) d h)

deliver-IsSerial :
    (limit now event : ℕ) (session : String) (r after : SessionRouter)
    → deliver limit now event session r ≡ inr after
    → IsSerial r
    → IsSerial after
unfolding deliver
deliver-IsSerial limit now event session r after e i = elim (Bool-cases r.closed) [
  | inl shut ↦ absurd (cc (rw shut at e))
  | inr up ↦ elim (Sum-cases (post_to limit now event session r.actors)) [
    | inl (error, bad) ↦ absurd (cc (rw (up, bad) at e))
    | inr (actors, good) ↦
        let made : SessionRouter = record r { actors = actors } in
        let same : made ≡ after = cc (rw (up, good) at e) in
        subst IsSerial same (record {
          own =
              Posted-Distinct session r.actors actors
                (post_to-Posted limit now event session r.actors actors good) i.own;
          alone_in = i.alone_in;
          own_leaving = i.own_leaving;
          none_left = λ shut. absurd (cc (sym shut ∙ up));
        })
  ]
]

OneActs-none : (xs ys : List SessionActor) → OneActs xs ys → working xs ≡ [] → working ys ≡ []
OneActs-none xs ys step e =
    elem-none (working ys) (λ k. OneActs-working xs ys k step (ap (elem k) e))

no_actor : (xs ys : List SessionActor) → OneActs xs ys → xs ≡ [] → ys ≡ []
no_actor _ _ (this a b rest act) e = absurd (cc e)
no_actor _ _ (later a xs ys step) e = absurd (cc e)

evict-IsSerial :
    (session : String) (rest : List String) (r : SessionRouter)
    → working (found session r.actors) ≡ []
    → IsSerial r
    → IsSerial (record (evict session r) { stale = rest })
unfolding evict
evict-IsSerial session rest r idle i =
    let left : working (map told_to_close (found session r.actors) ++ r.leaving)
        ≡ working r.leaving =
      working-append (map told_to_close (found session r.actors)) r.leaving
      ∙ ap (λ ks. ks ++ working r.leaving) (working-told (found session r.actors) ∙ idle) in
    record {
      own = without-Distinct session r.actors i.own;
      alone_in = λ up. left ∙ i.alone_in up;
      own_leaving = subst Distinct (sym left) i.own_leaving;
      none_left = λ shut. ap (without session) (i.none_left shut);
    }

all_working : (r : SessionRouter) → IsSerial r → Distinct (working r.actors ++ working r.leaving)
all_working r i = elim (Bool-cases r.closed) [
  | inl shut ↦
      let alone_left : working r.leaving ≡ working r.actors ++ working r.leaving =
        ap (λ xs. working xs ++ working r.leaving) (sym (i.none_left shut)) in
      subst Distinct alone_left i.own_leaving
  | inr up ↦
      let alone_right : working r.actors ≡ working r.actors ++ working r.leaving =
        sym (ap (λ ks. working r.actors ++ ks) (i.alone_in up) ∙ append-nil (working r.actors)) in
      subst Distinct alone_right (working-Distinct r.actors i.own)
]

close-IsSerial : (r : SessionRouter) → IsSerial r → IsSerial (close r)
unfolding close
close-IsSerial r i =
    let left : working (map told_to_close r.actors ++ r.leaving)
        ≡ working r.actors ++ working r.leaving =
      working-append (map told_to_close r.actors) r.leaving
      ∙ ap (λ ks. ks ++ working r.leaving) (working-told r.actors) in
    record {
      own = tt;
      alone_in = λ up. absurd (cc up);
      own_leaving = subst Distinct (sym left) (all_working r i);
      none_left = λ shut. refl;
    }

-- How a router comes to a state.
pub data Runs (limit : ℕ) : SessionRouter → Type 0 where
  start : Runs limit empty
  more : (r after : SessionRouter) → Runs limit r → Step limit r after → Runs limit after

-- That an actor is removed while it still has nothing to do.
abbrev pub RemovesIdle : {limit : ℕ} {r after : SessionRouter} → Step limit r after → Type 0
RemovesIdle (evicts r session rest e) = working (found session r.actors) ≡ []
RemovesIdle step = Unit

abbrev pub IsPrompt : {limit : ℕ} {r : SessionRouter} → Runs limit r → Type 0
IsPrompt start = Unit
IsPrompt (more r after runs step) = IsPrompt runs × RemovesIdle step

Step-IsSerial :
    (limit : ℕ) (r after : SessionRouter) (step : Step limit r after)
    → RemovesIdle step
    → IsSerial r
    → IsSerial after
Step-IsSerial limit r _ (delivers _ after now event session e) idle i =
    deliver-IsSerial limit now event session r after e i
Step-IsSerial limit r _ (acts _ actors one) idle i = record {
  own = subst Distinct (sym (OneActs-sessions r.actors actors one)) i.own;
  alone_in = i.alone_in;
  own_leaving = i.own_leaving;
  none_left = λ shut. no_actor r.actors actors one (i.none_left shut);
}
Step-IsSerial limit r _ (leaver_acts _ leaving one) idle i = record {
  own = i.own;
  alone_in = λ up. OneActs-none r.leaving leaving one (i.alone_in up);
  own_leaving = OneActs-Distinct r.leaving leaving one i.own_leaving;
  none_left = i.none_left;
}
Step-IsSerial limit r _ (checks _ cutoff) idle i = record {
  own = i.own;
  alone_in = i.alone_in;
  own_leaving = i.own_leaving;
  none_left = i.none_left;
}
Step-IsSerial limit r _ (evicts _ session rest e) idle i = evict-IsSerial session rest r idle i
Step-IsSerial limit r _ (closes _) idle i = close-IsSerial r i

Runs-IsSerial : (limit : ℕ) (r : SessionRouter) (runs : Runs limit r) → IsPrompt runs → IsSerial r
Runs-IsSerial limit _ start h = record {
  own = tt;
  alone_in = λ up. refl;
  own_leaving = tt;
  none_left = λ shut. refl;
}
Runs-IsSerial limit _ (more r after runs step) h =
    Step-IsSerial limit r after step h.1 (Runs-IsSerial limit r runs h.0)

-- However deliveries, turns, cancellations, evictions and the close of the router interleave, no
-- session has two turns in progress, as long as each actor that is evicted still has nothing to do
-- when it is removed.
pub Runs-one_turn :
    (limit : ℕ) (r : SessionRouter) (runs : Runs limit r)
    → IsPrompt runs
    → Distinct (in_progress (r.actors ++ r.leaving))
Runs-one_turn limit r runs h = in_progress-Distinct (r.actors ++ r.leaving) (
    subst Distinct (sym (working-append r.actors r.leaving))
      (all_working r (Runs-IsSerial limit r runs h)))
