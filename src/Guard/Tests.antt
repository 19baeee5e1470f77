-- ===== src/Guard/Tests.antt =====
-- Runs of the policy, on the inputs of guard.rs's own tests, and its theorems at concrete inputs.
use pawrly.Prelude.{
  Text, codes, String, ◌≤◌, ◌≡◌, refl, ◌↔◌, ◌⊎◌, true, false, Option, some, List, [], ◌∷◌, ◌++◌, ok,
  err, is_ok, arith, All, text_eq, to_ascii_lowercase, trim, trim_end_matches, strip_prefix,
  ends_with, contains_char, len,
}
use pawrly.Guard.Host.{HostPattern, exact, suffix, parse, matches, normal_host, is_wildcard}
use pawrly.Guard.Host.Laws.{IsCanonical, parse-IsCanonical}
use pawrly.Guard.Addr.{Ipv4, Ipv6, IpAddr, v4, v6, always_refuse, private, classify, normalize}
use pawrly.Guard.Addr.Ranges.{
  classify-v4_iff, classify-v6_iff, IsNeverReachable, IsPrivateRange, value, IsLow, Between,
}
use pawrly.Guard.Target.{
  Host, domain, ipv4, ipv6, Url, check_target, redirect_policy, same_origin, host_allowed,
  metadata_target, private_target, follow,
}
use pawrly.Guard.Target.Laws.{Permitted, check_target_iff}
use pawrly.Guard.Target.Redirect.{IsTrusted, redirect_policy-follow_iff}
use pawrly.Guard.Resolver.{resolve, GuardedResolver, name_trusted}
use pawrly.Guard.Resolver.Laws.{Screened, resolve_iff}

-- A public suffix list that knows `com` alone.
abbrev only_com : Text → Option Text
only_com s = some (codes "com")

abbrev wildcard : HostPattern
wildcard = suffix (codes ".example.com")

parse-wildcard_run : parse only_com (codes " *.Example.com. ") ≡ ok wildcard
unfolding parse to_ascii_lowercase trim trim_end_matches strip_prefix text_eq contains_char
parse-wildcard_run = refl

parse_broad : is_ok (parse only_com (codes "*.com")) ≡ false
unfolding parse to_ascii_lowercase trim trim_end_matches strip_prefix text_eq contains_char
parse_broad = refl

parse-IsCanonical_example :
    IsCanonical only_com wildcard
    × ((is_wildcard wildcard ≡ true) ↔ (
        (rest : Text) × (to_ascii_lowercase (trim (codes " *.Example.com. "))
          ≡ codes "*." ++ rest)))
parse-IsCanonical_example =
    parse-IsCanonical only_com (codes " *.Example.com. ") wildcard parse-wildcard_run

matches_run : matches wildcard (codes "a.Example.com.") ≡ true
unfolding matches normal_host len to_ascii_lowercase trim_end_matches ends_with text_eq
matches_run = refl

abbrev metadata : Ipv4
metadata = record { a = 169; b = 254; c = 169; d = 254 }

abbrev lan : Ipv4
lan = record { a = 10; b = 9; c = 9; d = 9 }

abbrev mapped_metadata : Ipv6
mapped_metadata = record {
  s0 = 0;
  s1 = 0;
  s2 = 0;
  s3 = 0;
  s4 = 0;
  s5 = 0xffff;
  s6 = 0xa9fe;
  s7 = 0xa9fe;
}

classify-v4_iff_example :
    ((classify (v4 metadata) ≡ always_refuse) ↔ IsNeverReachable (value metadata))
    × ((classify (v4 metadata) ≡ private) ↔ IsPrivateRange (value metadata))
classify-v4_iff_example = classify-v4_iff metadata (omega arith)

classify-v6_iff_example :
    ((classify (v6 mapped_metadata) ≡ always_refuse)
      ↔ (IsLow 0 mapped_metadata ⊎ Between 0xfe80 0xfebf mapped_metadata.s0))
    × ((classify (v6 mapped_metadata) ≡ private) ↔ Between 0xfc00 0xfdff mapped_metadata.s0)
classify-v6_iff_example = classify-v6_iff mapped_metadata (omega arith)

mapped_run : classify (normalize (v6 mapped_metadata)) ≡ always_refuse
unfolding classify normalize
mapped_run = refl

abbrev url_of : String → Host → String → Url
url_of scheme host name = record {
  scheme = codes scheme;
  host = some host;
  host_str = some (codes name);
  port_or_known_default = some 80;
}

abbrev base : Url
base = url_of "https" (domain (codes "api.example.com")) "api.example.com"

abbrev lan_url : Url
lan_url = url_of "http" (ipv4 lan) "10.9.9.9"

abbrev lan_listed : List HostPattern
lan_listed = exact (codes "10.9.9.9") ∷ []

lan_refused : check_target lan_url base [] ≡ err private_target
unfolding check_target same_origin host_allowed classify text_eq
lan_refused = refl

lan_allowed : check_target lan_url base lan_listed ≡ ok tt
unfolding check_target same_origin host_allowed classify matches normal_host len to_ascii_lowercase
    trim_end_matches ends_with text_eq
lan_allowed = refl

-- An allow-listed metadata address is refused all the same.
metadata_refused :
    check_target
      (url_of "http" (ipv6 mapped_metadata) "[::ffff:169.254.169.254]")
      base
      (exact (codes "[::ffff:169.254.169.254]") ∷ [])
    ≡ err metadata_target
unfolding check_target same_origin host_allowed classify normalize text_eq
metadata_refused = refl

check_target_iff_example :
    (check_target lan_url base lan_listed ≡ ok tt) ↔ Permitted lan_url lan_listed base
check_target_iff_example = check_target_iff lan_url lan_listed base

redirect_policy-follow_iff_example : (redirect_policy base lan_listed true 5 lan_url ≡ follow) ↔ (
    (5 ≤ 5)
    × Permitted lan_url lan_listed base
    × ((true ≡ true) → IsTrusted lan_url base lan_listed))
redirect_policy-follow_iff_example = redirect_policy-follow_iff base lan_url lan_listed true 5

redirect_run : redirect_policy base lan_listed true 5 lan_url ≡ follow
unfolding redirect_policy check_target same_origin host_allowed classify matches normal_host len
    to_ascii_lowercase trim_end_matches ends_with text_eq
redirect_run = refl

abbrev to_lan : Text → Option (List IpAddr)
to_lan host = some (v4 lan ∷ [])

abbrev resolver : GuardedResolver
resolver = record { base_host = some (codes "api.example.com"); allowed = [] }

resolve_iff_example : (resolve to_lan resolver (codes "API.example.com") ≡ ok (v4 lan ∷ [])) ↔ (
    (to_lan (to_ascii_lowercase (codes "API.example.com")) ≡ some (v4 lan ∷ []))
    × All
        (Screened (
          name_trusted
            (to_ascii_lowercase (codes "API.example.com"))
            resolver.base_host
            resolver.allowed))
        (v4 lan ∷ []))
resolve_iff_example = resolve_iff to_lan resolver (codes "API.example.com") (v4 lan ∷ [])

resolve_run : resolve to_lan resolver (codes "API.example.com") ≡ ok (v4 lan ∷ [])
unfolding resolve name_trusted classify normalize to_ascii_lowercase text_eq
resolve_run = refl
