-- ===== src/Guard/Target/Redirect.antt =====
-- Which redirects are followed.
use pawrly.Prelude.{
  ℕ, ◌≤◌, ◌≡◌, refl, ◌↔◌, ◌⊎◌, inl, inr, Bool, true, false, List, Result, ok, err, ltb, arith,
  ||-eq-true, ◌&&◌, not, if◌then◌else◌,
}
use pawrly.Guard.Host.{HostPattern}
use pawrly.Guard.Target.{
  Url, Refusal, Action, too_many_redirects, refused, credentialed_redirect, follow, is_trusted,
  check_target, redirect_policy,
}
use pawrly.Guard.Target.Laws.{
  SameOrigin, same_origin_iff, IsAllowlisted, host_allowed_iff, Permitted, check_target_iff,
}

module _ (url base : Url) (allowed : List HostPattern) where
  -- A host that a credential may be sent to.
  abbrev pub IsTrusted : Type 0
  IsTrusted = SameOrigin url base ⊎ IsAllowlisted url allowed

  pub is_trusted_iff : (is_trusted url base allowed ≡ true) ↔ IsTrusted
  unfolding is_trusted
  is_trusted_iff =
      let (o, o') = same_origin_iff url base in
      let (a, a') = host_allowed_iff url allowed in
      (
        λ h. elim (||-eq-true _ _ h) [ inl e ↦ inl (o e) | inr e ↦ inr (a e) ],
        λ h. elim h [ inl e ↦ ground (arith, o' e) | inr e ↦ ground (arith, a' e) ],
      )

abbrev decide_hop : Bool → Bool → Bool → Result (Unit {0}) Refusal → Action
decide_hop many auth trusted r = if many then too_many_redirects else elim r [
  | err e ↦ refused e
  | ok _ ↦ if auth && not trusted then credentialed_redirect else follow
]

decide_hop-follow :
    (many auth trusted : Bool) (r : Result (Unit {0}) Refusal)
    → decide_hop many auth trusted r ≡ follow
    → (many ≡ false) × (r ≡ ok tt) × ((auth ≡ true) → trusted ≡ true)
decide_hop-follow false false t (ok _) e = (refl, refl, λ h. cc)
decide_hop-follow false true true (ok _) e = (refl, refl, λ h. refl)
decide_hop-follow many auth trusted r e = ground arith

follow-decide_hop :
    (many auth trusted : Bool) (r : Result (Unit {0}) Refusal)
    → many ≡ false
    → r ≡ ok tt
    → ((auth ≡ true) → trusted ≡ true)
    → decide_hop many auth trusted r ≡ follow
follow-decide_hop many true t r m e h = rw (m, e, h refl)
follow-decide_hop many false t r m e h = rw (m, e)

-- A redirect is followed exactly if at most five URLs were visited, the target is permitted, and,
-- for a source with credentials, the target is of the base's origin or allow-listed.
pub redirect_policy-follow_iff :
    (base url : Url) (allowed : List HostPattern) (has_auth : Bool) (previous : ℕ)
    → (redirect_policy base allowed has_auth previous url ≡ follow) ↔ (
        (previous ≤ 5)
        × Permitted url allowed base
        × ((has_auth ≡ true) → IsTrusted url base allowed))
unfolding redirect_policy
redirect_policy-follow_iff base url allowed has_auth previous =
    let (c, c') = check_target_iff url allowed base in
    let (t, t') = is_trusted_iff url base allowed in
    (
      λ e.
          let (m, r, h) =
            decide_hop-follow (ltb 5 previous) has_auth (is_trusted url base allowed)
              (check_target url base allowed) e in
          (ground arith, c r, λ a. t (h a)),
      λ (m, p, h).
          follow-decide_hop (ltb 5 previous) has_auth (is_trusted url base allowed)
            (check_target url base allowed) (ground arith) (c' p) (λ a. t' (h a)),
    )
