-- ===== src/Session.antt =====
-- One actor for each session, siatt/core/session.py: `SessionActor` and `SessionRouter`. What the event
-- loop interleaves is a step each; the turns themselves are outside.
pub mod Serial
pub mod Turns
pub mod Tests
use siatt.Base.{
  ℕ, ◌+◌, String, ◌≡◌, ◌⊎◌, inl, inr, Bool, true, false, ◌&&◌, Option, none, some, List, [], ◌∷◌,
  ◌++◌, map, leb, if◌then◌else◌, ◌==◌, nat_keyed, string_keyed, pair_keyed, length, null,
}

-- A queued event, by its number, and whether its future was cancelled.
pub record Envelope : Type 0 where
  pub event : ℕ
  pub cancelled : Bool

pub record SessionActor : Type 0 where
  pub session_id : String
  pub mailbox : List Envelope
  pub running : Option Envelope
  pub closing : Bool
  pub last_active : ℕ

pub data SessionOverflow : Type 0 where
  shutting_down : SessionOverflow
  too_far_behind : SessionOverflow
  router_closed : SessionOverflow

-- `leaving` are the actors that `_actors` no longer holds and that were told to close; `stale` are
-- those that `evict_idle` has still to remove.
pub record SessionRouter : Type 0 where
  pub actors : List SessionActor
  pub leaving : List SessionActor
  pub stale : List String
  pub closed : Bool

abbrev pub mailbox_limit : ℕ
mailbox_limit = 64

abbrev pub is_idle : SessionActor → Bool
is_idle a = elim a.running [ none ↦ null a.mailbox | some e ↦ false ]

-- `post`
unfoldable pub post : ℕ → ℕ → ℕ → SessionActor → SessionOverflow ⊎ SessionActor
post limit now event a =
    if a.closing
    then inl shutting_down
    else if leb limit (length a.mailbox)
    then inl too_far_behind
    else inr (record a {
      mailbox = a.mailbox ++ record { event = event; cancelled = false } ∷ [];
      last_active = now;
    })

abbrev pub new_actor : String → ℕ → SessionActor
new_actor session now = record {
  session_id = session;
  mailbox = [];
  running = none;
  closing = false;
  last_active = now;
}

abbrev pub before :
    SessionActor → SessionOverflow ⊎ List SessionActor → SessionOverflow ⊎ List SessionActor
before a (inl error) = inl error
before a (inr actors) = inr (a ∷ actors)

abbrev pub alone :
    List SessionActor → SessionOverflow ⊎ SessionActor → SessionOverflow ⊎ List SessionActor
alone actors (inl error) = inl error
alone actors (inr a) = inr (a ∷ actors)

-- `_actor_for(session).post(event)`
abbrev pub post_to : ℕ → ℕ → ℕ → String → List SessionActor → SessionOverflow ⊎ List SessionActor
post_to limit now event session [] = alone [] (post limit now event (new_actor session now))
post_to limit now event session (a ∷ actors) = elim (a.session_id == session) [
  | true ↦ alone actors (post limit now event a)
  | false ↦ before a (post_to limit now event session actors)
]

abbrev pub with_actors :
    SessionRouter → SessionOverflow ⊎ List SessionActor → SessionOverflow ⊎ SessionRouter
with_actors r (inl error) = inl error
with_actors r (inr actors) = inr (record r { actors = actors })

-- `deliver`, up to the wait for the turn.
unfoldable pub deliver : ℕ → ℕ → ℕ → String → SessionRouter → SessionOverflow ⊎ SessionRouter
deliver limit now event session r =
    if r.closed then inl router_closed else with_actors r (post_to limit now event session r.actors)

-- What an actor does: it takes the next envelope, or drops it where its future was cancelled; a turn
-- ends; a waiting future is cancelled.
abbrev pub next : SessionActor → Envelope → List Envelope → SessionActor
next a e rest =
    if e.cancelled
    then record a { mailbox = rest }
    else record a { mailbox = rest; running = some e }

abbrev pub cancel_waiting : ℕ → List Envelope → List Envelope
cancel_waiting event [] = []
cancel_waiting event (e ∷ es) =
    (if e.event == event then record e { cancelled = true } else e) ∷ cancel_waiting event es

pub data Acts : SessionActor → SessionActor → Type 0 where
  takes :
      (a : SessionActor) (e : Envelope) (rest : List Envelope)
      → a.running ≡ none
      → a.mailbox ≡ e ∷ rest
      → Acts a (next a e rest)
  ends :
      (a : SessionActor) (e : Envelope) (now : ℕ)
      → a.running ≡ some e
      → Acts a (record a { running = none; last_active = now })
  cancels :
      (a : SessionActor) (event : ℕ)
      → Acts a (record a { mailbox = cancel_waiting event a.mailbox })

-- One actor of several acts.
pub data OneActs : List SessionActor → List SessionActor → Type 0 where
  this : (a b : SessionActor) (rest : List SessionActor) → Acts a b → OneActs (a ∷ rest) (b ∷ rest)
  later : (a : SessionActor) (xs ys : List SessionActor) → OneActs xs ys → OneActs (a ∷ xs) (a ∷ ys)

-- The check of `evict_idle`.
abbrev pub stale_at : ℕ → List SessionActor → List String
stale_at cutoff [] = []
stale_at cutoff (a ∷ actors) =
    let rest = stale_at cutoff actors in
    if is_idle a && leb a.last_active cutoff then a.session_id ∷ rest else rest

abbrev pub told_to_close : SessionActor → SessionActor
told_to_close a = record a { closing = true }

-- `_actors.pop(session)`
abbrev pub without : String → List SessionActor → List SessionActor
without session [] = []
without session (a ∷ actors) =
    let rest = without session actors in if a.session_id == session then rest else a ∷ rest

abbrev pub found : String → List SessionActor → List SessionActor
found session [] = []
found session (a ∷ actors) =
    let rest = found session actors in if a.session_id == session then a ∷ rest else rest

-- One round of the loop of `evict_idle`.
unfoldable pub evict : String → SessionRouter → SessionRouter
evict session r = record r {
  actors = without session r.actors;
  leaving = map told_to_close (found session r.actors) ++ r.leaving;
}

-- `SessionRouter.aclose`, up to the wait for the actors.
unfoldable pub close : SessionRouter → SessionRouter
close r = record r {
  actors = [];
  leaving = map told_to_close r.actors ++ r.leaving;
  closed = true;
  stale = [];
}

pub data Step (limit : ℕ) : SessionRouter → SessionRouter → Type 0 where
  delivers :
      (r after : SessionRouter) (now event : ℕ) (session : String)
      → deliver limit now event session r ≡ inr after
      → Step limit r after
  acts :
      (r : SessionRouter) (actors : List SessionActor)
      → OneActs r.actors actors
      → Step limit r (record r { actors = actors })
  leaver_acts :
      (r : SessionRouter) (leaving : List SessionActor)
      → OneActs r.leaving leaving
      → Step limit r (record r { leaving = leaving })
  checks :
      (r : SessionRouter) (cutoff : ℕ)
      → Step limit r (record r { stale = stale_at cutoff r.actors })
  evicts :
      (r : SessionRouter) (session : String) (rest : List String)
      → r.stale ≡ session ∷ rest
      → Step limit r (record (evict session r) { stale = rest })
  closes : (r : SessionRouter) → Step limit r (close r)

abbrev pub empty : SessionRouter
empty = record { actors = []; leaving = []; stale = []; closed = false }
