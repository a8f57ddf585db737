-- ===== src/Guard.antt =====
-- Where a fetch may go: siatt/fetch/guard.py. `urlsplit`, `ipaddress` and the resolver are
-- parameters; a `Blocked` that is raised is the left side of the result.
pub mod Public
mod Tests
use Prim.Native.String.{◌++◌ as cat}
use siatt.Base.{
  ℕ, zero, suc, String, ◌⊎◌, inl, inr, Bool, false, not, ◌||◌, Option, none, some, List, [], ◌∷◌,
  if◌then◌else◌, ◌==◌, nat_keyed, string_keyed, elem, pair_keyed,
}

-- What `urlsplit` finds; `port` is `none` where it raises.
pub record Parts : Type 0 where
  pub scheme : String
  pub username : Option String
  pub password : Option String
  pub hostname : Option String
  pub port : Option (Option ℕ)

pub record Libraries : Type 1 where
  pub Ip : Type 0
  -- `urlsplit(url.strip())`, nothing where it raises ValueError.
  pub urlsplit : String → Option Parts
  pub lower : String → String
  -- `host.strip("[]")`
  pub unbracketed : String → String
  -- `ipaddress.ip_address`, nothing where it raises ValueError, and `str` of an address.
  pub ip_address : String → Option Ip
  pub show : Ip → String
  pub is_v6 : Ip → Bool
  pub ipv4_mapped : Ip → Option Ip
  pub sixtofour : Ip → Option Ip
  -- The second address of `ip.teredo`.
  pub teredo : Ip → Option Ip
  pub is_loopback : Ip → Bool
  pub is_link_local : Ip → Bool
  pub is_multicast : Ip → Bool
  pub is_unspecified : Ip → Bool
  pub is_private : Ip → Bool
  pub is_reserved : Ip → Bool
  pub is_global : Ip → Bool

-- Why an address may not be fetched.
pub data Reason : Type 0 where
  not_an_address : Reason
  loopback : Reason
  link_local : Reason
  multicast : Reason
  unspecified : Reason
  private_address : Reason
  reserved : Reason
  not_global : Reason
  tunnelling : Reason → Reason
  -- The model's fuel is out, which `forbidden-fuel` rules out.
  too_deep : Reason

pub data Blocked : Type 0 where
  no_url : Blocked
  bad_scheme : String → Blocked
  credentials : Blocked
  no_port : Blocked
  no_host : Blocked
  bad_port : ℕ → Blocked
  unresolved : String → Blocked
  forbidden_address : String → String → Reason → Blocked

pub record Target : Type 0 where
  pub url : String
  pub scheme : String
  pub host : String
  pub port : ℕ
  pub address : String

abbrev pub allowed_schemes : List String
allowed_schemes = "http" ∷ "https" ∷ []

abbrev pub ports_elem : ℕ → Bool
ports_elem port = port == 80 || port == 443

abbrev pub default_port : String → ℕ
default_port scheme = if scheme == "http" then 80 else 443

-- A text that is there and not empty.
abbrev pub given : Option String → Bool
given none = false
given (some text) = not (text == "")

-- `parts.port or DEFAULT_PORTS[scheme]`
abbrev pub port_or : Option ℕ → ℕ → ℕ
port_or none default = default
port_or (some port) default = if port == 0 then default else port

module _ (l : Libraries) where
  open l use {Ip}

  abbrev pub first_of : Option Ip → Option Ip → Option Ip
  first_of none other = other
  first_of (some ip) other = some ip

  abbrev pub tunnelled : Ip → Option Ip
  tunnelled ip = first_of (l.ipv4_mapped ip) (first_of (l.sixtofour ip) (l.teredo ip))

  abbrev pub inner_of : Ip → Option Ip
  inner_of ip = if l.is_v6 ip then tunnelled ip else none

  -- The tests on the address itself.
  abbrev pub outer_reason : Ip → Option Reason
  outer_reason ip =
      if l.is_loopback ip
      then some loopback
      else if l.is_link_local ip
      then some link_local
      else if l.is_multicast ip
      then some multicast
      else if l.is_unspecified ip
      then some unspecified
      else if l.is_private ip
      then some private_address
      else if l.is_reserved ip
      then some reserved
      else if l.is_global ip
      then none
      else some not_global

  abbrev pub through : Option Reason → Option Reason → Option Reason
  through (some reason) outer = some (tunnelling reason)
  through none outer = outer

  abbrev pub inside : (String → Option Reason) → Option Ip → Option Reason
  inside deeper none = none
  inside deeper (some ip) = deeper (l.show ip)

  abbrev pub judge : (String → Option Reason) → Option Ip → Option Reason
  judge deeper none = some not_an_address
  judge deeper (some ip) = through (inside deeper (inner_of ip)) (outer_reason ip)

  -- `_forbidden`, which calls itself on the address tunnelled inside: `fuel` bounds the depth.
  abbrev pub forbidden : ℕ → String → Option Reason
  forbidden zero address = some too_deep
  forbidden (suc fuel) address = judge (forbidden fuel) (l.ip_address address)

  -- Resolving: a name and a port to addresses, nothing where it raises OSError.
  abbrev pub Resolver : Type 0
  Resolver = String → ℕ → Option (List String)

  abbrev pub literal : String → Option String
  literal host = elim (l.ip_address (l.unbracketed host)) [
    | none ↦ none
    | some ip ↦ some (l.show ip)
  ]

  abbrev pub found : String → Option (List String) → Blocked ⊎ List String
  found host none = inl (unresolved host)
  found host (some []) = inl (unresolved host)
  found host (some (address ∷ rest)) = inr (address ∷ rest)

  -- `if literal := ...`: an address written as an address needs no resolver.
  abbrev pub addresses_of : Option String → String → ℕ → Resolver → Blocked ⊎ List String
  addresses_of none host port resolve = found host (resolve host port)
  addresses_of (some address) host port resolve =
      if address == "" then found host (resolve host port) else inr (address ∷ [])

  abbrev pub addresses : String → ℕ → Resolver → Blocked ⊎ List String
  addresses host port resolve = addresses_of (literal host) host port resolve

  abbrev pub reported : String → Option Reason → Option (String × Reason) → Option (String × Reason)
  reported address none rest = rest
  reported address (some reason) rest = some (address, reason)

  -- The loop over the addresses: the first that is forbidden.
  abbrev pub first_forbidden : List String → Option (String × Reason)
  first_forbidden [] = none
  first_forbidden (address ∷ rest) = reported address (forbidden 2 address) (first_forbidden rest)

  abbrev pub admit : Target → Option (String × Reason) → Blocked ⊎ Target
  admit target none = inr target
  admit target (some (address, reason)) = inl (forbidden_address target.host address reason)

  abbrev pub connect : String → String → String → ℕ → Blocked ⊎ List String → Blocked ⊎ Target
  connect url scheme host port (inl blocked) = inl blocked
  connect url scheme host port (inr []) = inl (unresolved host)
  connect url scheme host port (inr (address ∷ rest)) =
      admit (record { url = url; scheme = scheme; host = host; port = port; address = address })
        (first_forbidden (address ∷ rest))

  abbrev pub approve_port : String → String → String → ℕ → Resolver → Blocked ⊎ Target
  approve_port url scheme host port resolve =
      if ports_elem port
      then connect url scheme host port (addresses host port resolve)
      else inl (bad_port port)

  abbrev pub approve_host : String → String → Option String → Option ℕ → Resolver → Blocked ⊎ Target
  approve_host url scheme none port resolve = inl no_host
  approve_host url scheme (some host) port resolve =
      if host == ""
      then inl no_host
      else approve_port url scheme host (port_or port (default_port scheme)) resolve

  abbrev pub approve_authority : String → String → Parts → Resolver → Blocked ⊎ Target
  approve_authority url scheme parts resolve = elim parts.port [
    | none ↦ inl no_port
    | some port ↦ approve_host url scheme parts.hostname port resolve
  ]

  abbrev pub approve_parts : String → Parts → Resolver → Blocked ⊎ Target
  approve_parts url parts resolve =
      if not (elem (l.lower parts.scheme) allowed_schemes)
      then inl (bad_scheme (l.lower parts.scheme))
      else if given parts.username || given parts.password
      then inl credentials
      else approve_authority url (l.lower parts.scheme) parts resolve

  unfoldable pub approve : String → Resolver → Blocked ⊎ Target
  approve url resolve = elim (l.urlsplit url) [
    | none ↦ inl no_url
    | some parts ↦ approve_parts url parts resolve
  ]

  -- `Target.authority`
  unfoldable pub authority : (ℕ → String) → Target → String
  authority show_port target =
      if target.port == default_port target.scheme
      then target.host
      else cat target.host (cat ":" (show_port target.port))
