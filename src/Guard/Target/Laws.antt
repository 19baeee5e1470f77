-- ===== src/Guard/Target/Laws.antt =====
-- Which targets a query may reach.
use mathlib.Core.Path.{subst}
use mathlib.Core.Bool.{false≢true}
use pawrly.Prelude.{
  Text, codes, ◌≡◌, sym, ◌∙◌, ◌↔◌, ◌⊎◌, inl, inr, Bool, true, false, Option, none, some, List, [],
  ◌∷◌, ◌++◌, Result, ok, err, option_eq_iff, text_eq, text_eq_iff, ==_iff, ◌==◌, ends_with,
  ends_with_iff, arith, ◌||◌, ||-eq-true, Option-cases, false_of_not, not, if◌then◌else◌,
}
use pawrly.Guard.Host.{HostPattern, any_matches, normal_host}
use pawrly.Guard.Host.Laws.{Matches, matches_iff}
use pawrly.Guard.Addr.{IpAddr, v4, v6, IpClass, allow, private, classify, normalize}
use pawrly.Guard.Target.{
  Host, domain, ipv4, ipv6, Url, Refusal, not_http, internal_host, same_origin, host_allowed,
  check_class, check_ip, check_domain, check_host, check_target, is_http,
}

-- Two URLs agree in scheme, host and effective port.
pub record SameOrigin (a b : Url) : Type 0 where
  pub scheme : a.scheme ≡ b.scheme
  pub host_str : a.host_str ≡ b.host_str
  pub port : a.port_or_known_default ≡ b.port_or_known_default

pub same_origin_iff : (a b : Url) → (same_origin a b ≡ true) ↔ SameOrigin a b
unfolding same_origin
same_origin_iff a b =
    let (s, s') = text_eq_iff a.scheme b.scheme in
    let (h, h') = option_eq_iff text_eq text_eq_iff a.host_str b.host_str in
    let (p, p') = option_eq_iff ◌==◌ ==_iff a.port_or_known_default b.port_or_known_default in
    (
      λ e. record {
        scheme = ground (arith, s);
        host_str = ground (arith, h);
        port = ground (arith, p);
      },
      λ o. ground (arith, s' o.scheme, h' o.host_str, p' o.port),
    )

-- Some pattern of the list means the host.
abbrev pub AnyMatches : List HostPattern → Text → Type 0
AnyMatches [] host = ⊥
AnyMatches (p ∷ ps) host = Matches p host ⊎ AnyMatches ps host

pub any_matches_iff :
    (ps : List HostPattern) (host : Text) → (any_matches ps host ≡ true) ↔ AnyMatches ps host
any_matches_iff [] host = (λ h. cc, λ h. elim h [ ])
any_matches_iff (p ∷ ps) host =
    let (f, g) = matches_iff p host in
    let (f', g') = any_matches_iff ps host in
    (
      λ h. elim (||-eq-true _ _ h) [ inl e ↦ inl (f e) | inr e ↦ inr (f' e) ],
      λ m. elim m [ inl e ↦ ground (arith, g e) | inr e ↦ ground (arith, g' e) ],
    )

abbrev pub HasSuffix : Text → Text → Type 0
HasSuffix suffix d = (pre : Text) × (d ≡ pre ++ suffix)

-- The tests of a host name, on their results.
domain_tests :
    (a l s i : Bool)
    → (◌≡◌ {A = Result (Unit {0}) Refusal}
        (if a || l || s then ok tt else if i then err internal_host else ok tt)
        (ok tt))
      ↔ ((a ≡ true) ⊎ (l ≡ true) ⊎ (s ≡ true) ⊎ (i ≡ false))
domain_tests a l s i = (λ h. ground arith, λ h. ground arith)

module _ (url : Url) (allowed : List HostPattern) where
  -- A pattern of `allowed_hosts` means the URL's host.
  abbrev pub IsAllowlisted : Type 0
  IsAllowlisted = (h : Text) × (url.host_str ≡ some h) × AnyMatches allowed h

  pub host_allowed_iff : (host_allowed url allowed ≡ true) ↔ IsAllowlisted
  unfolding host_allowed
  host_allowed_iff = elim (Option-cases url.host_str) [
    | inl n ↦ rw n (λ h. cc, λ (h, e, _). cc)
    | inr (h, e) ↦
        let (f, g) = any_matches_iff allowed h in
        (λ k. (h, e, f (rw e at k)), λ (h', e', m). rw e (g (subst (AnyMatches allowed) (cc) m)))
  ]

  abbrev pub PermittedIp : IpAddr → Type 0
  PermittedIp ip = (classify ip ≡ allow) ⊎ ((classify ip ≡ private) × IsAllowlisted)

  abbrev pub PermittedHost : Option Host → Type 0
  PermittedHost none = ⊥
  PermittedHost (some (domain d)) =
      IsAllowlisted
      ⊎ (normal_host d ≡ codes "localhost")
      ⊎ HasSuffix (codes ".localhost") (normal_host d)
      ⊎ ¬ HasSuffix (codes ".internal") (normal_host d)
  PermittedHost (some (ipv4 ip)) = PermittedIp (v4 ip)
  PermittedHost (some (ipv6 ip)) = PermittedIp (normalize (v6 ip))

  check_class_iff :
      (c : IpClass)
      → (check_class c url allowed ≡ ok tt)
        ↔ ((c ≡ allow) ⊎ ((c ≡ private) × (host_allowed url allowed ≡ true)))
  unfolding check_class
  check_class_iff c = (λ h. ground arith, λ h. ground arith)

  pub check_ip_iff : (ip : IpAddr) → (check_ip ip url allowed ≡ ok tt) ↔ PermittedIp ip
  unfolding check_ip
  check_ip_iff ip =
      let (f, g) = check_class_iff (classify ip) in
      let (mp, mpr) = host_allowed_iff in
      (
        λ h. elim (f h) [ inl a ↦ inl a | inr (p, t) ↦ inr (p, mp t) ],
        λ h. elim h [ inl a ↦ g (inl a) | inr (p, t) ↦ g (inr (p, mpr t)) ],
      )

  check_domain_iff :
      (d : Text) → (check_domain d url allowed ≡ ok tt) ↔ PermittedHost (some (domain d))
  unfolding check_domain
  check_domain_iff d =
      let (mp, mpr) = host_allowed_iff in
      let (l, l') = text_eq_iff (normal_host d) (codes "localhost") in
      let (s, s') = ends_with_iff (codes ".localhost") (normal_host d) in
      let (i, i') = ends_with_iff (codes ".internal") (normal_host d) in
      let (f, g) =
        domain_tests (host_allowed url allowed) (text_eq (normal_host d) (codes "localhost"))
          (ends_with (codes ".localhost") (normal_host d))
          (ends_with (codes ".internal") (normal_host d)) in
      (
        λ h. elim (f h) [
          | inl a ↦ inl (mp a)
          | inr (inl e) ↦ inr (inl (l e))
          | inr (inr (inl e)) ↦ inr (inr (inl (s e)))
          | inr (inr (inr e)) ↦ inr (inr (inr (λ k. false≢true (sym e ∙ i' k))))
        ],
        λ h. elim h [
          | inl a ↦ g (inl (mpr a))
          | inr (inl e) ↦ g (inr (inl (l' e)))
          | inr (inr (inl e)) ↦ g (inr (inr (inl (s' e))))
          | inr (inr (inr n)) ↦ g (inr (inr (inr (false_of_not _ (λ e. n (i e))))))
        ],
      )

  check_host_iff : (h : Option Host) → (check_host h url allowed ≡ ok tt) ↔ PermittedHost h
  unfolding check_host
  check_host_iff none = (λ h. cc, λ h. elim h [ ])
  check_host_iff (some (domain d)) = check_domain_iff d
  check_host_iff (some (ipv4 ip)) = check_ip_iff (v4 ip)
  check_host_iff (some (ipv6 ip)) = check_ip_iff (normalize (v6 ip))

  abbrev pub IsHttp : Type 0
  IsHttp = (url.scheme ≡ codes "http") ⊎ (url.scheme ≡ codes "https")

  -- What a query may reach: its own origin, or an HTTP target at a host that is permitted.
  abbrev pub Permitted : Url → Type 0
  Permitted base = SameOrigin url base ⊎ (IsHttp × PermittedHost url.host)

  target_tests :
      (o h : Bool) (r : Result (Unit {0}) Refusal)
      → ((if o then ok tt else if not h then err not_http else r) ≡ ok tt)
        ↔ ((o ≡ true) ⊎ ((h ≡ true) × (r ≡ ok tt)))
  target_tests o h r = (λ e. ground arith, λ e. ground arith)

  is_http_iff : (is_http url.scheme ≡ true) ↔ IsHttp
  is_http_iff =
      let (f, f') = text_eq_iff url.scheme (codes "http") in
      let (g, g') = text_eq_iff url.scheme (codes "https") in
      (
        λ h. elim (||-eq-true _ _ h) [ inl e ↦ inl (f e) | inr e ↦ inr (g e) ],
        λ h. elim h [ inl e ↦ rw (f' e) | inr e ↦ ground (arith, g' e) ],
      )

  -- `check_target` passes exactly the URLs of the base's origin and the HTTP URLs at a permitted host:
  -- a name that is allow-listed, is `localhost` or below it, or is not below `.internal`; an address
  -- of the class `allow`, or a private one that is allow-listed. An IPv4-mapped IPv6 address is judged
  -- as the IPv4 address.
  pub check_target_iff : (base : Url) → (check_target url base allowed ≡ ok tt) ↔ Permitted base
  unfolding check_target
  check_target_iff base =
      let (o, o') = same_origin_iff url base in
      let (h, h') = is_http_iff in
      let (k, k') = check_host_iff url.host in
      let (f, g) =
        target_tests (same_origin url base) (is_http url.scheme)
          (check_host url.host url allowed) in
      (
        λ e. elim (f e) [ inl a ↦ inl (o a) | inr (a, b) ↦ inr (h a, k b) ],
        λ e. elim e [ inl a ↦ g (inl (o' a)) | inr (a, b) ↦ g (inr (h' a, k' b)) ],
      )
