-- ===== src/Guard/Public.antt =====
-- What `approve` of siatt/fetch/guard.py lets through.
use siatt.Base.{
  ℕ, suc, String, ◌≡◌, refl, sym, ap, ◌∙◌, subst, ◌⊎◌, inl, inr, true, false, ◌||◌, Option, none,
  some, List, [], ◌∷◌, arith, Bool-cases, Option-cases, ◌==◌, nat_keyed, string_keyed, elem,
  pair_keyed, Every,
}
use siatt.Guard.{
  Parts, Libraries, Reason, Blocked, Target, allowed_schemes, ports_elem, default_port, given,
  port_or, inner_of, outer_reason, through, inside, judge, forbidden, Resolver, addresses, reported,
  first_forbidden, admit, connect, approve_port, approve_host, approve_authority, approve_parts,
  approve,
}

module _ (l : Libraries) where
  open l use {Ip}

  -- What is asked of `ipaddress`: a tunnelled address is a v4 address, and its text reads back.
  abbrev pub TunnelsV4 : Type 0
  TunnelsV4 =
      (ip v : Ip)
      → inner_of l ip ≡ some v
      → (l.is_v6 v ≡ false) × (l.ip_address (l.show v) ≡ some v)

  -- An address of the public internet.
  pub record IsOpen (ip : Ip) : Type 0 where
    pub no_loopback : l.is_loopback ip ≡ false
    pub no_link_local : l.is_link_local ip ≡ false
    pub no_multicast : l.is_multicast ip ≡ false
    pub no_unspecified : l.is_unspecified ip ≡ false
    pub no_private : l.is_private ip ≡ false
    pub no_reserved : l.is_reserved ip ≡ false
    pub global : l.is_global ip ≡ true

  -- So is the address, and the v4 address that it carries if it carries one.
  pub record IsPublic (address : String) : Type 0 where
    pub ip : Ip
    pub reads : l.ip_address address ≡ some ip
    pub outside : IsOpen ip
    pub carried : (v : Ip) → inner_of l ip ≡ some v → IsOpen v

  outer_reason-IsOpen : (ip : Ip) → outer_reason l ip ≡ none → IsOpen ip
  outer_reason-IsOpen ip e = record {
    no_loopback = ground arith;
    no_link_local = ground arith;
    no_multicast = ground arith;
    no_unspecified = ground arith;
    no_private = ground arith;
    no_reserved = ground arith;
    global = ground arith;
  }

  through-none :
      (inner outer : Option Reason) → through l inner outer ≡ none → (inner ≡ none) × (outer ≡ none)
  through-none none outer e = (refl, e)
  through-none (some reason) outer e = absurd (cc e)

  -- A v4 address is judged on itself.
  forbidden-v4 :
      (n : ℕ) (v : Ip) (address : String)
      → l.is_v6 v ≡ false
      → l.ip_address address ≡ some v
      → forbidden l (suc n) address ≡ outer_reason l v
  forbidden-v4 n v address four reads = ap (judge l (forbidden l n)) reads ∙ rw four refl

  inside-enough :
      (n : ℕ) (o : Option Ip)
      → ((v : Ip) → o ≡ some v → (l.is_v6 v ≡ false) × (l.ip_address (l.show v) ≡ some v))
      → inside l (forbidden l (suc n)) o ≡ inside l (forbidden l 1) o
  inside-enough n none h = refl
  inside-enough n (some v) h =
      let v4 = h v refl in
      forbidden-v4 n v (l.show v) v4.0 v4.1 ∙ sym (forbidden-v4 0 v (l.show v) v4.0 v4.1)

  -- A call on the tunnelled address calls itself no further: two levels are enough.
  pub forbidden-fuel :
      TunnelsV4
      → (n : ℕ) (address : String) → forbidden l (suc (suc n)) address ≡ forbidden l 2 address
  forbidden-fuel tunnels n address = judged (l.ip_address address)
    where
      judged : (o : Option Ip) → judge l (forbidden l (suc n)) o ≡ judge l (forbidden l 1) o
      judged none = refl
      judged (some ip) =
          ap (λ i. through l i (outer_reason l ip)) (inside-enough n (inner_of l ip) (tunnels ip))

  forbidden-IsPublic :
      (address : String) → TunnelsV4 → forbidden l 2 address ≡ none → IsPublic address
  forbidden-IsPublic address tunnels e = elim (Option-cases (l.ip_address address)) [
    | inl h ↦ absurd (cc (rw h at e))
    | inr (ip, h) ↦
        let both =
          through-none (inside l (forbidden l 1) (inner_of l ip)) (outer_reason l ip) (rw h at e) in
        record {
          ip = ip;
          reads = h;
          outside = outer_reason-IsOpen ip both.1;
          carried = λ v c.
              let v4 = tunnels ip v c in
              outer_reason-IsOpen v (
                sym (forbidden-v4 0 v (l.show v) v4.0 v4.1)
                ∙ sym (ap (inside l (forbidden l 1)) c)
                ∙ both.0);
        }
  ]

  reported-none :
      (address : String) (o : Option Reason) (rest : Option (String × Reason))
      → reported l address o rest ≡ none
      → (o ≡ none) × (rest ≡ none)
  reported-none address none rest e = (refl, e)
  reported-none address (some reason) rest e = absurd (cc e)

  admit-none :
      (target t : Target) (o : Option (String × Reason))
      → admit l target o ≡ inr t
      → (o ≡ none) × (target ≡ t)
  admit-none target t none e = (refl, cc e)
  admit-none target t (some bad) e = absurd (cc e)

  first_forbidden-IsPublic :
      (found : List String) → TunnelsV4 → first_forbidden l found ≡ none → Every IsPublic found
  first_forbidden-IsPublic [] tunnels e = tt
  first_forbidden-IsPublic (address ∷ rest) tunnels e =
      let both = reported-none address (forbidden l 2 address) (first_forbidden l rest) e in
      (forbidden-IsPublic address tunnels both.0, first_forbidden-IsPublic rest tunnels both.1)

  -- The addresses of a target: its own comes first, and all of them are public.
  pub record IsPinned (resolve : Resolver l) (target : Target) : Type 0 where
    pub rest : List String
    pub resolved : addresses l target.host target.port resolve ≡ inr (target.address ∷ rest)
    pub all_public : Every IsPublic (target.address ∷ rest)

  pub record IsApproved (url : String) (resolve : Resolver l) (target : Target) : Type 0 where
    pub parts : Parts
    pub splits : l.urlsplit url ≡ some parts
    pub no_credentials : (given parts.username || given parts.password) ≡ false
    pub on_the_web : elem target.scheme allowed_schemes ≡ true
    pub on_a_web_port : ports_elem target.port ≡ true
    pub pinned : IsPinned resolve target

  connect-IsPinned :
      (url scheme host : String) (port : ℕ) (resolve : Resolver l) (target : Target)
      → (r : Blocked ⊎ List String) → TunnelsV4
      → addresses l host port resolve ≡ r
      → connect l url scheme host port r ≡ inr target
      → (target.scheme ≡ scheme) × (target.port ≡ port) × IsPinned resolve target
  connect-IsPinned url scheme host port resolve target (inl blocked) tunnels a e = absurd (cc e)
  connect-IsPinned url scheme host port resolve target (inr []) tunnels a e = absurd (cc e)
  connect-IsPinned url scheme host port resolve target (inr (address ∷ rest)) tunnels a e =
      let both = admit-none _ target (first_forbidden l (address ∷ rest)) e in
      subst (λ (t : Target). (t.scheme ≡ scheme) × (t.port ≡ port) × IsPinned resolve t) both.1
        (
          refl,
          refl,
          record {
            rest = rest;
            resolved = a;
            all_public = first_forbidden-IsPublic (address ∷ rest) tunnels both.0;
          },
        )

  approve_port-IsPinned :
      (url scheme host : String) (port : ℕ) (resolve : Resolver l) (target : Target)
      → TunnelsV4
      → approve_port l url scheme host port resolve ≡ inr target
      → (target.scheme ≡ scheme) × (ports_elem target.port ≡ true) × IsPinned resolve target
  approve_port-IsPinned url scheme host port resolve target tunnels e =
      elim (Bool-cases (ports_elem port)) [
        | inl web ↦
            let pinned =
              connect-IsPinned url scheme host port resolve target (addresses l host port resolve)
                tunnels refl (rw web at e) in
            (pinned.0, ap ports_elem pinned.1 ∙ web, pinned.2)
        | inr other ↦ absurd (cc (rw other at e))
      ]

  approve_host-IsPinned :
      (url scheme : String) (hostname : Option String) (port : Option ℕ) (resolve : Resolver l)
      → (target : Target) → TunnelsV4
      → approve_host l url scheme hostname port resolve ≡ inr target
      → (target.scheme ≡ scheme) × (ports_elem target.port ≡ true) × IsPinned resolve target
  approve_host-IsPinned url scheme none port resolve target tunnels e = absurd (cc e)
  approve_host-IsPinned url scheme (some host) port resolve target tunnels e =
      elim (Bool-cases (host == "")) [
        | inl empty ↦ absurd (cc (rw empty at e))
        | inr named ↦
            approve_port-IsPinned url scheme host (port_or port (default_port scheme)) resolve
              target tunnels (rw named at e)
      ]

  approve_parts-IsApproved :
      (url : String) (parts : Parts) (resolve : Resolver l) (target : Target)
      → TunnelsV4
      → l.urlsplit url ≡ some parts
      → approve_parts l url parts resolve ≡ inr target
      → IsApproved url resolve target
  approve_parts-IsApproved url parts resolve target tunnels splits e =
      elim (Bool-cases (elem (l.lower parts.scheme) allowed_schemes)) [
        | inr other ↦ absurd (cc (rw other at e))
        | inl web ↦
            let e₁ = rw web at e in
            elim (Bool-cases (given parts.username || given parts.password)) [
              | inl secret ↦ absurd (cc (rw secret at e₁))
              | inr bare ↦ port_known bare web (rw bare at e₁)
            ]
      ]
    where
      port_known :
          (given parts.username || given parts.password) ≡ false
          → elem (l.lower parts.scheme) allowed_schemes ≡ true
          → approve_authority l url (l.lower parts.scheme) parts resolve ≡ inr target
          → IsApproved url resolve target
      port_known bare web e₂ = elim (Option-cases parts.port) [
        | inl h ↦ absurd (cc (rw h at e₂))
        | inr (port, h) ↦
            let pinned =
              approve_host-IsPinned url (l.lower parts.scheme) parts.hostname port resolve target
                tunnels (rw h at e₂) in
            record {
              parts = parts;
              splits = splits;
              no_credentials = bare;
              on_the_web = ap (λ s. elem s allowed_schemes) pinned.0 ∙ web;
              on_a_web_port = pinned.1;
              pinned = pinned.2;
            }
      ]

  -- A URL that is approved has a scheme and a port of the web and no credentials, and is pinned to
  -- the first of the addresses that its host resolved to. All of them, and the v4 addresses that
  -- they carry, are on the public internet.
  pub approve-IsApproved :
      (url : String) (resolve : Resolver l) (target : Target)
      → TunnelsV4
      → approve l url resolve ≡ inr target
      → IsApproved url resolve target
  unfolding approve
  approve-IsApproved url resolve target tunnels e = elim (Option-cases (l.urlsplit url)) [
    | inl h ↦ absurd (cc (rw (h, approve) at e))
    | inr (parts, h) ↦
        approve_parts-IsApproved url parts resolve target tunnels h (rw (h, approve) at e)
  ]
