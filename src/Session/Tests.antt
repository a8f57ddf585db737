-- ===== src/Session/Tests.antt =====
-- A session that is evicted with an event waiting: two of its turns run at once.
use siatt.Base.{
  ℕ, String, ◌≡◌, refl, subst, inr, true, false, Option, none, some, List, [], ◌∷◌, nat_keyed,
  string_keyed, Distinct, pair_keyed,
}
use siatt.Session.{
  Envelope, SessionActor, SessionRouter, new_actor, post, deliver, takes, ends, OneActs, this,
  evict, delivers, acts, leaver_acts, checks, evicts, empty, mailbox_limit,
}
use siatt.Session.Serial.{in_progress}
use siatt.Session.Turns.{Runs, start, more, Runs-one_turn}

abbrev envelope : ℕ → Envelope
envelope event = record { event = event; cancelled = false }

-- The actor of one session, with what waits and what runs.
abbrev actor : List Envelope → Option Envelope → SessionActor
actor mailbox running = record (new_actor "t" 0) { mailbox = mailbox; running = running }

abbrev router : List SessionActor → List SessionActor → List String → SessionRouter
router actors leaving stale = record {
  actors = actors;
  leaving = leaving;
  stale = stale;
  closed = false;
}

abbrev waits : ℕ → SessionActor
waits event = actor (envelope event ∷ []) none

abbrev runs : ℕ → SessionActor
runs event = actor [] (some (envelope event))

abbrev gone : SessionActor → SessionActor
gone a = record a { closing = true }

to_new :
    (event : ℕ) (leaving : List SessionActor)
    → deliver mailbox_limit 0 event "t" (router [] leaving [])
      ≡ inr (router (waits event ∷ []) leaving [])
unfolding deliver post
to_new event leaving = refl

to_idle :
    deliver mailbox_limit 0 2 "t" (router (actor [] none ∷ []) [] ("t" ∷ []))
    ≡ inr (router (waits 2 ∷ []) [] ("t" ∷ []))
unfolding deliver post
to_idle = refl

begins : (event : ℕ) → OneActs (waits event ∷ []) (runs event ∷ [])
begins event = this (waits event) _ [] (takes (waits event) (envelope event) [] refl refl)

begins_gone : (event : ℕ) → OneActs (gone (waits event) ∷ []) (gone (runs event) ∷ [])
begins_gone event =
    this (gone (waits event)) _ [] (takes (gone (waits event)) (envelope event) [] refl refl)

finishes : (event : ℕ) → OneActs (runs event ∷ []) (actor [] none ∷ [])
finishes event = this (runs event) _ [] (ends (runs event) (envelope event) 0 refl)

abbrev first_turn : Runs mailbox_limit (router (runs 1 ∷ []) [] [])
first_turn =
    more (router (waits 1 ∷ []) [] []) _
      (more empty _ start (delivers empty _ 0 1 "t" (to_new 1 [])))
      (acts (router (waits 1 ∷ []) [] []) _ (begins 1))

Runs-one_turn_example : Distinct (in_progress (runs 1 ∷ []))
Runs-one_turn_example =
    Runs-one_turn mailbox_limit (router (runs 1 ∷ []) [] []) first_turn ((tt, tt), tt)

-- The actor falls idle, the sweeper lists it, and an event comes before the sweeper removes it.
abbrev listed : Runs mailbox_limit (router (waits 2 ∷ []) [] ("t" ∷ []))
listed =
    more (router (actor [] none ∷ []) [] ("t" ∷ [])) _
      (more (router (actor [] none ∷ []) [] []) _
        (more (router (runs 1 ∷ []) [] []) _ first_turn
          (acts (router (runs 1 ∷ []) [] []) _ (finishes 1)))
        (checks (router (actor [] none ∷ []) [] []) 0))
      (delivers (router (actor [] none ∷ []) [] ("t" ∷ [])) _ 0 2 "t" to_idle)

evicted :
    Path SessionRouter
      (record (evict "t" (router (waits 2 ∷ []) [] ("t" ∷ []))) { stale = [] })
      (router [] (gone (waits 2) ∷ []) [])
unfolding evict
evicted = refl

-- The removed actor takes that event, and the next one finds no actor and makes another.
two_actors : Runs mailbox_limit (router (runs 3 ∷ []) (gone (runs 2) ∷ []) [])
two_actors =
    more (router (waits 3 ∷ []) (gone (runs 2) ∷ []) []) _
      (more (router [] (gone (runs 2) ∷ []) []) _
        (more (router [] (gone (waits 2) ∷ []) []) _
          (subst (Runs mailbox_limit) evicted (
            more (router (waits 2 ∷ []) [] ("t" ∷ [])) _ listed
              (evicts (router (waits 2 ∷ []) [] ("t" ∷ [])) "t" [] refl)))
          (leaver_acts (router [] (gone (waits 2) ∷ []) []) _ (begins_gone 2)))
        (delivers (router [] (gone (runs 2) ∷ []) []) _ 0 3 "t" (to_new 3 (gone (runs 2) ∷ []))))
      (acts (router (waits 3 ∷ []) (gone (runs 2) ∷ []) []) _ (begins 3))

two_turns_at_once : in_progress (runs 3 ∷ gone (runs 2) ∷ []) ≡ "t" ∷ "t" ∷ []
two_turns_at_once = refl
