-- ===== src/Session/Serial.antt =====
-- That the turns of one session run one at a time.
use siatt.Base.{
  ℕ, String, ◌≡◌, refl, ap, ◌∙◌, inl, inr, true, false, none, some, List, [], ◌∷◌, ◌++◌, map, arith,
  if◌then◌else◌, Bool-cases, Option-cases, nat_keyed, string_keyed, elem, Distinct, same_refl,
  pair_keyed, null,
}
use siatt.Session.{
  Envelope, SessionActor, is_idle, cancel_waiting, Acts, takes, ends, cancels, OneActs, this, later,
  told_to_close,
}

abbrev pub sessions : List SessionActor → List String
sessions [] = []
sessions (a ∷ actors) = a.session_id ∷ sessions actors

-- The sessions of the actors that have something to do.
abbrev pub working : List SessionActor → List String
working [] = []
working (a ∷ actors) = let rest = working actors in if is_idle a then rest else a.session_id ∷ rest

-- The sessions with a turn in progress, once for each turn.
abbrev pub in_progress : List SessionActor → List String
in_progress [] = []
in_progress (a ∷ actors) =
    let rest = in_progress actors in elim a.running [ none ↦ rest | some e ↦ a.session_id ∷ rest ]

Acts-session : (a b : SessionActor) → Acts a b → b.session_id ≡ a.session_id
Acts-session a _ (takes _ e rest p q) = elim (Bool-cases e.cancelled) [
  | inl gone ↦ rw gone refl
  | inr live ↦ rw live refl
]
Acts-session a _ (ends _ e now p) = refl
Acts-session a _ (cancels _ event) = refl

cancel_waiting-null : (event : ℕ) (es : List Envelope) → null (cancel_waiting event es) ≡ null es
cancel_waiting-null event [] = refl
cancel_waiting-null event (e ∷ es) = refl

-- Who is idle has nothing to do.
Acts-idle : (a b : SessionActor) → Acts a b → is_idle a ≡ true → is_idle b ≡ true
Acts-idle a _ (takes _ e rest p q) h = absurd (cc (rw (p, q) at h))
Acts-idle a _ (ends _ e now p) h = absurd (cc (rw p at h))
Acts-idle a _ (cancels _ event) h = elim (Option-cases a.running) [
  | inl waits ↦ rw waits (cancel_waiting-null event a.mailbox ∙ rw waits at h)
  | inr (e, runs) ↦ absurd (cc (rw runs at h))
]

pub OneActs-sessions : (xs ys : List SessionActor) → OneActs xs ys → sessions ys ≡ sessions xs
OneActs-sessions _ _ (this a b rest act) = ap (λ k. k ∷ sessions rest) (Acts-session a b act)
OneActs-sessions _ _ (later a xs ys step) =
    ap (λ ks. a.session_id ∷ ks) (OneActs-sessions xs ys step)

-- Nobody starts to work by acting.
pub OneActs-working :
    (xs ys : List SessionActor) (k : String)
    → OneActs xs ys
    → elem k (working xs) ≡ false
    → elem k (working ys) ≡ false
OneActs-working _ _ k (this a b rest act) h = elim (Bool-cases (is_idle a)) [
  | inl idle ↦ rw (Acts-idle a b act idle, working) (rw (idle, working) at h)
  | inr busy ↦ elim (Bool-cases (is_idle b)) [
    | inl idle ↦
        let both : elem k (a.session_id ∷ working rest) ≡ false = rw (busy, working) at h in
        rw (idle, working) (ground arith)
    | inr still ↦ rw (still, working, Acts-session a b act) (rw (busy, working) at h)
  ]
]
OneActs-working _ _ k (later a xs ys step) h = elim (Bool-cases (is_idle a)) [
  | inl idle ↦ rw (idle, working) (OneActs-working xs ys k step (rw (idle, working) at h))
  | inr busy ↦
      let both : elem k (a.session_id ∷ working xs) ≡ false = rw (busy, working) at h in
      let rest = OneActs-working xs ys k step (ground arith) in
      rw (busy, working) (ground (arith, rest))
]

pub OneActs-Distinct :
    (xs ys : List SessionActor) → OneActs xs ys → Distinct (working xs) → Distinct (working ys)
OneActs-Distinct _ _ (this a b rest act) d = elim (Bool-cases (is_idle a)) [
  | inl idle ↦ rw (Acts-idle a b act idle, working) (rw (idle, working) at d)
  | inr busy ↦
      let both : Distinct (a.session_id ∷ working rest) = rw (busy, working) at d in
      elim (Bool-cases (is_idle b)) [
        | inl idle ↦ rw (idle, working) both.1
        | inr still ↦ rw (still, working, Acts-session a b act) both
      ]
]
OneActs-Distinct _ _ (later a xs ys step) d = elim (Bool-cases (is_idle a)) [
  | inl idle ↦ rw (idle, working) (OneActs-Distinct xs ys step (rw (idle, working) at d))
  | inr busy ↦
      let both : Distinct (a.session_id ∷ working xs) = rw (busy, working) at d in
      rw (busy, working)
        (OneActs-working xs ys a.session_id step both.0, OneActs-Distinct xs ys step both.1)
]

-- A list that has nobody in it.
pub elem-none : (ks : List String) → ((k : String) → elem k ks ≡ false) → ks ≡ []
elem-none [] h = refl
elem-none (k ∷ ks) h =
    let nobody : elem k (k ∷ ks) ≡ false = h k in absurd (ground (arith, nobody, same_refl k))

pub working-append : (xs ys : List SessionActor) → working (xs ++ ys) ≡ working xs ++ working ys
working-append [] ys = refl
working-append (x ∷ xs) ys = elim (Bool-cases (is_idle x)) [
  | inl idle ↦ rw (idle, working) (working-append xs ys)
  | inr busy ↦ rw (busy, working) (ap (λ ks. x.session_id ∷ ks) (working-append xs ys))
]

pub working-told : (xs : List SessionActor) → working (map told_to_close xs) ≡ working xs
working-told [] = refl
working-told (x ∷ xs) =
    ap (λ rest. if is_idle x then rest else x.session_id ∷ rest) (working-told xs)

pub elem-working :
    (xs : List SessionActor) (k : String)
    → elem k (sessions xs) ≡ false
    → elem k (working xs) ≡ false
elem-working [] k h = refl
elem-working (x ∷ xs) k h =
    let rest = elem-working xs k (ground arith) in
    elim (Bool-cases (is_idle x)) [
      | inl idle ↦ rw (idle, working) rest
      | inr busy ↦ rw (busy, working) (ground (arith, rest))
    ]

pub working-Distinct : (xs : List SessionActor) → Distinct (sessions xs) → Distinct (working xs)
working-Distinct [] d = tt
working-Distinct (x ∷ xs) d = elim (Bool-cases (is_idle x)) [
  | inl idle ↦ rw (idle, working) (working-Distinct xs d.1)
  | inr busy ↦ rw (busy, working) (elem-working xs x.session_id d.0, working-Distinct xs d.1)
]

elem-later :
    (x : SessionActor) (xs : List SessionActor) (k : String)
    → elem k (working (x ∷ xs)) ≡ false
    → elem k (working xs) ≡ false
elem-later x xs k h = elim (Bool-cases (is_idle x)) [
  | inl idle ↦ rw (idle, working) at h
  | inr busy ↦
      let both : elem k (x.session_id ∷ working xs) ≡ false = rw (busy, working) at h in
      ground arith
]

Distinct-later :
    (x : SessionActor) (xs : List SessionActor)
    → Distinct (working (x ∷ xs))
    → Distinct (working xs)
Distinct-later x xs d = elim (Bool-cases (is_idle x)) [
  | inl idle ↦ rw (idle, working) at d
  | inr busy ↦ let both : Distinct (x.session_id ∷ working xs) = rw (busy, working) at d in both.1
]

pub elem-in_progress :
    (xs : List SessionActor) (k : String)
    → elem k (working xs) ≡ false
    → elem k (in_progress xs) ≡ false
elem-in_progress [] k h = refl
elem-in_progress (x ∷ xs) k h = elim (Option-cases x.running) [
  | inl waits ↦ rw (waits, in_progress) (elem-in_progress xs k (elem-later x xs k h))
  | inr (e, runs) ↦
      let busy : is_idle x ≡ false = rw (runs, is_idle) refl in
      let both : elem k (x.session_id ∷ working xs) ≡ false = rw (busy, working) at h in
      let rest = elem-in_progress xs k (ground arith) in
      rw (runs, in_progress) (ground (arith, rest))
]

pub in_progress-Distinct :
    (xs : List SessionActor) → Distinct (working xs) → Distinct (in_progress xs)
in_progress-Distinct [] d = tt
in_progress-Distinct (x ∷ xs) d = elim (Option-cases x.running) [
  | inl waits ↦ rw (waits, in_progress) (in_progress-Distinct xs (Distinct-later x xs d))
  | inr (e, runs) ↦
      let busy : is_idle x ≡ false = rw (runs, is_idle) refl in
      let both : Distinct (x.session_id ∷ working xs) = rw (busy, working) at d in
      rw (runs, in_progress)
        (elem-in_progress xs x.session_id both.0, in_progress-Distinct xs both.1)
]
