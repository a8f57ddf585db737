-- ===== src/Guard/Tests.antt =====
-- A small internet for siatt/fetch/guard.py: one public address, the loopback,
-- and the two v6 addresses that carry them.
use siatt.Base.{
  String, ◌≡◌, refl, subst, inl, inr, Bool, true, false, not, Option, none, some, [], ◌∷◌,
  if◌then◌else◌, ◌==◌, nat_keyed, string_keyed, pair_keyed,
}
use siatt.Guard.{Parts, Libraries, forbidden, approve, loopback, forbidden_address, tunnelling}
use siatt.Guard.Public.{TunnelsV4, IsApproved, approve-IsApproved, forbidden-fuel}

abbrev page : Parts
page = record {
  scheme = "https";
  username = none;
  password = none;
  hostname = some "siatt.example";
  port = some none;
}

data Ip : Type 0 where
  site : Ip
  home : Ip
  carries_site : Ip
  carries_home : Ip

abbrev read_ip : String → Option Ip
read_ip text =
    if text == "93.184.216.34"
    then some site
    else if text == "127.0.0.1"
    then some home
    else if text == "::ffff:93.184.216.34"
    then some carries_site
    else if text == "::ffff:127.0.0.1"
    then some carries_home
    else none

abbrev show_ip : Ip → String
show_ip site = "93.184.216.34"
show_ip home = "127.0.0.1"
show_ip carries_site = "::ffff:93.184.216.34"
show_ip carries_home = "::ffff:127.0.0.1"

abbrev is_long : Ip → Bool
is_long site = false
is_long home = false
is_long carries_site = true
is_long carries_home = true

abbrev mapped : Ip → Option Ip
mapped carries_site = some site
mapped carries_home = some home
mapped _ = none

abbrev is_home : Ip → Bool
is_home home = true
is_home _ = false

abbrev internet : Libraries
internet = record {
  Ip = Ip;
  urlsplit = λ url. some page;
  lower = λ text. text;
  unbracketed = λ text. text;
  ip_address = read_ip;
  show = show_ip;
  is_v6 = is_long;
  ipv4_mapped = mapped;
  sixtofour = λ ip. none;
  teredo = λ ip. none;
  is_loopback = is_home;
  is_link_local = λ ip. false;
  is_multicast = λ ip. false;
  is_unspecified = λ ip. false;
  is_private = is_home;
  is_reserved = λ ip. false;
  is_global = λ ip. not (is_home ip);
}

abbrev ReadsBack : Ip → Type 0
ReadsBack v = (is_long v ≡ false) × (read_ip (show_ip v) ≡ some v)

internet-TunnelsV4 : TunnelsV4 internet
internet-TunnelsV4 carries_site v e =
    let same : site ≡ v = cc e in subst ReadsBack same (refl, refl)
internet-TunnelsV4 carries_home v e =
    let same : home ≡ v = cc e in subst ReadsBack same (refl, refl)
internet-TunnelsV4 site v e = absurd (cc e)
internet-TunnelsV4 home v e = absurd (cc e)

approved :
    approve internet "https://siatt.example/"
      (λ host port. some ("::ffff:93.184.216.34" ∷ "93.184.216.34" ∷ []))
    ≡ inr (record {
      url = "https://siatt.example/";
      scheme = "https";
      host = "siatt.example";
      port = 443;
      address = "::ffff:93.184.216.34";
    })
unfolding approve
approved = refl

-- A second answer that is the loopback in disguise blocks the page.
rebinding :
    approve internet "https://siatt.example/"
      (λ host port. some ("93.184.216.34" ∷ "::ffff:127.0.0.1" ∷ []))
    ≡ inl (forbidden_address "siatt.example" "::ffff:127.0.0.1" (tunnelling loopback))
unfolding approve
rebinding = refl

approve-IsApproved_example :
    IsApproved internet "https://siatt.example/"
      (λ host port. some ("::ffff:93.184.216.34" ∷ "93.184.216.34" ∷ []))
      (record {
        url = "https://siatt.example/";
        scheme = "https";
        host = "siatt.example";
        port = 443;
        address = "::ffff:93.184.216.34";
      })
approve-IsApproved_example =
    approve-IsApproved internet "https://siatt.example/" _ _ internet-TunnelsV4 approved

forbidden-fuel_example :
    forbidden internet 9 "::ffff:127.0.0.1" ≡ forbidden internet 2 "::ffff:127.0.0.1"
forbidden-fuel_example = forbidden-fuel internet internet-TunnelsV4 7 "::ffff:127.0.0.1"
