-- ===== src/Guard/Resolver/Laws.antt =====
-- What the screen of resolved addresses lets through.
use mathlib.Core.Path.{subst}
use pawrly.Prelude.{
  Text, ◌≡◌, ◌≢◌, refl, sym, ap, ◌∙◌, ◌↔◌, ◌⊎◌, inl, inr, Bool, true, false, Option, none, some,
  List, [], ◌∷◌, Result, ok, err, some_inj, All, arith, text_eq_iff, to_ascii_lowercase, ||-eq-true,
}
use pawrly.Guard.Host.{HostPattern}
use pawrly.Guard.Addr.{IpAddr, IpClass, allow, private, always_refuse, classify, normalize}
use pawrly.Guard.Target.Laws.{AnyMatches, any_matches_iff}
use pawrly.Guard.Resolver.{
  Screening, name_trusted, screen_class, screen_from, screen_resolved, GuardedResolver, resolve,
  answer,
}

-- A name whose private addresses are reachable: the base's own, or an allow-listed one.
abbrev pub IsTrustedName : Text → Option Text → List HostPattern → Type 0
IsTrustedName name base_host allowed =
    ((b : Text) × (base_host ≡ some b) × (to_ascii_lowercase b ≡ to_ascii_lowercase name))
    ⊎ AnyMatches allowed name

pub name_trusted_iff :
    (name : Text) (base_host : Option Text) (allowed : List HostPattern)
    → (name_trusted name base_host allowed ≡ true) ↔ IsTrustedName name base_host allowed
unfolding name_trusted
name_trusted_iff name none allowed =
    let (f, g) = any_matches_iff allowed name in
    (λ h. inr (f h), λ h. elim h [ inl (b, e, _) ↦ cc | inr m ↦ g m ])
name_trusted_iff name (some b) allowed =
    let (f, g) = any_matches_iff allowed name in
    let (t, t') = text_eq_iff (to_ascii_lowercase b) (to_ascii_lowercase name) in
    (
      λ h. elim (||-eq-true _ _ h) [ inl e ↦ inl (b, refl, t e) | inr m ↦ inr (f m) ],
      λ h. elim h [
        | inl (b', e, k) ↦ rw (t' (ap to_ascii_lowercase (some_inj e) ∙ k)) refl
        | inr m ↦ ground (arith, g m)
      ],
    )

-- An address that a connection may go to, for a name that is trusted or not.
abbrev pub Screened : Bool → IpAddr → Type 0
Screened trusted ip =
    (classify (normalize ip) ≢ always_refuse) × (classify (normalize ip) ≡ private → trusted ≡ true)

screen_class-ok :
    (c : IpClass) (ip : IpAddr) (trusted : Bool) (rest : Result (Unit {0}) Screening)
    → screen_class c ip trusted rest ≡ ok tt
    → (c ≢ always_refuse) × (c ≡ private → trusted ≡ true) × (rest ≡ ok tt)
unfolding screen_class
screen_class-ok allow ip t rest e = (λ h. cc, λ h. cc, e)
screen_class-ok always_refuse ip t rest e = cc
screen_class-ok private ip true rest e = (λ h. cc, λ h. refl, e)
screen_class-ok private ip false rest e = cc

ok-screen_class :
    (c : IpClass) (ip : IpAddr) (trusted : Bool) (rest : Result (Unit {0}) Screening)
    → (c ≢ always_refuse)
    → (c ≡ private → trusted ≡ true)
    → rest ≡ ok tt
    → screen_class c ip trusted rest ≡ ok tt
unfolding screen_class
ok-screen_class allow ip t rest n h e = e
ok-screen_class always_refuse ip t rest n h e = absurd (n refl)
ok-screen_class private ip t rest n h e = rw (h refl) e

screen_from_iff :
    (trusted : Bool) (addrs : List IpAddr)
    → (screen_from trusted addrs ≡ ok tt) ↔ All (Screened trusted) addrs
unfolding screen_from
screen_from_iff trusted [] = (λ _. tt, λ _. refl)
screen_from_iff trusted (ip ∷ ips) =
    let (f, g) = screen_from_iff trusted ips in
    (
      λ e.
          let (n, h, k) = screen_class-ok (classify (normalize ip)) ip trusted _ e in ((n, h), f k),
      λ ((n, h), k). ok-screen_class (classify (normalize ip)) ip trusted _ n h (g k),
    )

answer_iff :
    (l : Option (List IpAddr)) (screen : List IpAddr → Result (Unit {0}) Screening)
    (addrs : List IpAddr)
    → (answer l screen ≡ ok addrs) ↔ ((l ≡ some addrs) × (screen addrs ≡ ok tt))
unfolding answer
answer_iff none screen addrs = (λ e. cc, λ e. cc e.0)
answer_iff (some xs) screen addrs = (
  λ e. passed (screen xs) refl e,
  λ (e, k).
      let same : addrs ≡ xs = cc e in
      rw (subst (λ a. screen a ≡ ok tt) same k, answer) (ap ok (sym same)),
)
  where
    passed :
        (r : Result (Unit {0}) Screening)
        → screen xs ≡ r
        → answer (some xs) (λ _. r) ≡ ok addrs
        → (some xs ≡ some addrs) × (screen addrs ≡ ok tt)
    passed (ok _) h e =
        let same : xs ≡ addrs = cc e in (ap some same, subst (λ a. screen a ≡ ok tt) same h)
    passed (err _) h e = cc

-- The resolver hands out an answer exactly if it is the lookup's, of the name in lower case, and
-- every address in it, an IPv4-mapped one as its IPv4 address, is not metadata, and is private only
-- if the name is the base's or allow-listed.
pub resolve_iff :
    (lookup_host : Text → Option (List IpAddr)) (r : GuardedResolver) (name : Text)
    (addrs : List IpAddr)
    → (resolve lookup_host r name ≡ ok addrs) ↔ (
        (lookup_host (to_ascii_lowercase name) ≡ some addrs)
        × All (Screened (name_trusted (to_ascii_lowercase name) r.base_host r.allowed)) addrs)
unfolding resolve screen_resolved
resolve_iff lookup_host r name addrs =
    let trusted = name_trusted (to_ascii_lowercase name) r.base_host r.allowed in
    let (f, g) = answer_iff (lookup_host (to_ascii_lowercase name)) (screen_from trusted) addrs in
    let (s, s') = screen_from_iff trusted addrs in
    (λ e. ((f e).0, s (f e).1), λ (l, h). g (l, s' h))
