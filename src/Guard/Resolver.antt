-- ===== src/Guard/Resolver.antt =====
-- `name_trusted` and `screen_resolved` of crates/pawrly-sources/http/src/guard.rs: the addresses that
-- a host name resolves to. The lookup itself is the runtime's, so the addresses are an argument.
pub mod Laws
use pawrly.Prelude.{
  Text, Bool, false, ◌||◌, not, Option, none, some, List, [], ◌∷◌, Result, ok, err, if◌then◌else◌,
  eq_ignore_ascii_case, to_ascii_lowercase,
}
use pawrly.Guard.Host.{HostPattern, any_matches}
use pawrly.Guard.Addr.{IpAddr, IpClass, allow, private, always_refuse, classify, normalize}
use pawrly.Guard.Target.{Url}

pub data Screening : Type 0 where
  resolves_to_metadata : Screening
  resolves_to_private : IpAddr → Screening

unfoldable pub name_trusted : Text → Option Text → List HostPattern → Bool
name_trusted name base_host allowed =
    elim base_host [ none ↦ false | some b ↦ eq_ignore_ascii_case b name ]
    || any_matches allowed name

-- One round of the loop.
screen_class : IpClass → IpAddr → Bool → Result (Unit {0}) Screening → Result (Unit {0}) Screening
screen_class allow ip trusted rest = rest
screen_class always_refuse ip trusted rest = err resolves_to_metadata
screen_class private ip trusted rest = if not trusted then err (resolves_to_private ip) else rest

screen_from : Bool → List IpAddr → Result (Unit {0}) Screening
screen_from trusted [] = ok tt
screen_from trusted (ip ∷ ips) =
    screen_class (classify (normalize ip)) ip trusted (screen_from trusted ips)

unfoldable pub screen_resolved :
    Text → List IpAddr → Option Text → List HostPattern → Result (Unit {0}) Screening
unfolding screen_from screen_class
screen_resolved name addrs base_host allowed =
    screen_from (name_trusted name base_host allowed) addrs

-- `GuardedResolver`: the names and patterns that a client's resolver carries.
pub record GuardedResolver : Type 0 where
  pub base_host : Option Text
  pub allowed : List HostPattern

pub new : Url → List HostPattern → GuardedResolver
new base allowed = record {
  base_host = elim base.host_str [ none ↦ none | some h ↦ some (to_ascii_lowercase h) ];
  allowed = allowed;
}

pub data ResolveError : Type 0 where
  lookup_failed : ResolveError
  screened : Screening → ResolveError

-- The two `?` of `resolve`: of the lookup, and of the screen of its addresses.
answer :
    Option (List IpAddr)
    → (List IpAddr → Result (Unit {0}) Screening)
    → Result (List IpAddr) ResolveError
answer none screen = err lookup_failed
answer (some addrs) screen = elim (screen addrs) [ ok _ ↦ ok addrs | err e ↦ err (screened e) ]

-- `resolve`: `lookup_host` of the runtime is a parameter, and its failure is an error of its own.
module _ (lookup_host : Text → Option (List IpAddr)) where
  unfoldable pub resolve : GuardedResolver → Text → Result (List IpAddr) ResolveError
  unfolding screen_resolved answer
  resolve r name =
      let host = to_ascii_lowercase name in
      answer (lookup_host host) (λ addrs. screen_resolved host addrs r.base_host r.allowed)
