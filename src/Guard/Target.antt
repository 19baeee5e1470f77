-- ===== src/Guard/Target.antt =====
-- `same_origin`, `is_trusted`, `check_target` and `redirect_policy` of
-- crates/pawrly-sources/http/src/guard.rs.
pub mod Laws
pub mod Redirect
use pawrly.Prelude.{
  ℕ, ◌==◌, ltb, Text, codes, Bool, false, ◌&&◌, ◌||◌, not, Option, none, some, List, [], Result, ok,
  err, if◌then◌else◌, option_eq, text_eq, ends_with,
}
use pawrly.Guard.Host.{HostPattern, any_matches, normal_host}
use pawrly.Guard.Addr.{
  Ipv4, Ipv6, IpAddr, v4, v6, IpClass, allow, private, always_refuse, classify, normalize,
}

pub data Host : Type 0 where
  domain : Text → Host
  ipv4 : Ipv4 → Host
  ipv6 : Ipv6 → Host

-- A `url::Url` by what the policy asks of it. The parser of the crate `url` is not modelled.
pub record Url : Type 0 where
  pub scheme : Text
  pub host : Option Host
  pub host_str : Option Text
  pub port_or_known_default : Option ℕ

-- Why a request is refused.
pub data Refusal : Type 0 where
  not_http host_less internal_host private_target metadata_target : Refusal

unfoldable pub same_origin : Url → Url → Bool
same_origin a b =
    text_eq a.scheme b.scheme
    && option_eq text_eq a.host_str b.host_str
    && option_eq ◌==◌ a.port_or_known_default b.port_or_known_default

unfoldable pub host_allowed : Url → List HostPattern → Bool
host_allowed url allowed = elim url.host_str [ none ↦ false | some h ↦ any_matches allowed h ]

unfoldable pub is_trusted : Url → Url → List HostPattern → Bool
unfolding same_origin host_allowed
is_trusted url base allowed = same_origin url base || host_allowed url allowed

check_class : IpClass → Url → List HostPattern → Result (Unit {0}) Refusal
check_class allow url allowed = ok tt
check_class always_refuse url allowed = err metadata_target
check_class private url allowed = if host_allowed url allowed then ok tt else err private_target

unfoldable pub check_ip : IpAddr → Url → List HostPattern → Result (Unit {0}) Refusal
unfolding check_class
check_ip ip url allowed = check_class (classify ip) url allowed

-- The case of a host name.
check_domain : Text → Url → List HostPattern → Result (Unit {0}) Refusal
check_domain name url allowed =
    let d = normal_host name in
    if host_allowed url allowed || text_eq d (codes "localhost") || ends_with (codes ".localhost") d
    then ok tt
    else if ends_with (codes ".internal") d
    then err internal_host
    else ok tt

check_host : Option Host → Url → List HostPattern → Result (Unit {0}) Refusal
unfolding check_domain check_ip
check_host none url allowed = err host_less
check_host (some (domain d)) url allowed = check_domain d url allowed
check_host (some (ipv4 ip)) url allowed = check_ip (v4 ip) url allowed
check_host (some (ipv6 ip)) url allowed = check_ip (normalize (v6 ip)) url allowed

abbrev is_http : Text → Bool
is_http scheme = text_eq scheme (codes "http") || text_eq scheme (codes "https")

unfoldable pub check_target : Url → Url → List HostPattern → Result (Unit {0}) Refusal
unfolding check_host
check_target url base allowed =
    if same_origin url base
    then ok tt
    else if not (is_http url.scheme)
    then err not_http
    else check_host url.host url allowed

-- What the policy of an attempted redirect answers.
pub data Action : Type 0 where
  too_many_redirects : Action
  refused : Refusal → Action
  credentialed_redirect : Action
  follow : Action

-- The closure that `redirect_policy` builds; `previous` is the number of URLs already visited.
unfoldable pub redirect_policy : Url → List HostPattern → Bool → ℕ → Url → Action
unfolding is_trusted
redirect_policy base allowed has_auth previous url =
    if ltb 5 previous then too_many_redirects else elim (check_target url base allowed) [
      | err e ↦ refused e
      | ok _ ↦
          if has_auth && not (is_trusted url base allowed) then credentialed_redirect else follow
    ]
