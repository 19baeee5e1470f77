-- ===== src/Http/Fetch/Laws.antt =====
-- A fetch ends, sends only what it may, and keeps to the declared bounds.
use mathlib.Core.Path.{subst}
use pawrly.Prelude.{
  ℕ, zero, suc, ◌+◌, ◌≤◌, ◌<◌, ◌≡◌, refl, true, Option, none, some, List, [], length, All, All-map,
  ◌⊎◌, inl, inr, Result, arith, Bool-cases, leb,
}
use pawrly.Guard.Target.Laws.{Permitted, check_target_iff}
use pawrly.Guard.Target.Redirect.{IsTrusted, is_trusted_iff}
use pawrly.Http.Json.{Value}
use pawrly.Http.Source.{Crates}
use pawrly.Http.Paginate.Next.{Params}
use pawrly.Http.Auth.{Failure, Request, CachedToken, has_auth}
use pawrly.Http.Request.{Explode, Shape, select_request}
use pawrly.Http.Request.Laws.{IsSafe}
use pawrly.Http.Page.{
  HttpTableProvider, World, FetchState, PageStep, PageRun, stop, go, page_cap, fetch_page,
}
use pawrly.Http.Page.Laws.{
  IsWithin, KeepsWithin, IsSound, IsRound, Leads, SendsSafely, fetch_page-IsRound,
}
use pawrly.Http.Fetch.{Fetch, push_request, fetch_loop, first_state, fetch_rows}

PageStep-cases :
    {C : Crates} (p : PageStep C)
    → ((r : Result (List Value) Failure) × (p ≡ stop r)) ⊎ ((t : FetchState C) × (p ≡ go t))
PageStep-cases (stop r) = inl (r, refl)
PageStep-cases (go t) = inr (t, refl)

empty-IsWithin : (max_rows : Option ℕ) → IsWithin none max_rows []
empty-IsWithin none = tt
empty-IsWithin (some m) = omega arith

module _ {C : Crates} (provider : HttpTableProvider C) (limit : Option ℕ) where
  -- What the loop does from a page on.
  pub record IsFetched (page_index : ℕ) (f : Fetch C) : Type 0 where
    pub safe : All (IsSafe provider.source) f.requests
    pub result :
        (r : Result (List Value) Failure) × (f.result ≡ some r)
        × KeepsWithin limit provider.max_rows r
    pub bounded :
        page_index ≤ page_cap provider → length f.requests + page_index ≤ page_cap provider

  push_request-All :
      (o : Option (Request C)) (rs : List (Request C))
      → SendsSafely provider limit o
      → All (IsSafe provider.source) rs
      → All (IsSafe provider.source) (push_request o rs)
  unfolding push_request
  push_request-All none rs h hs = hs
  push_request-All (some r) rs h hs = (h, hs)

  length-push_request :
      (o : Option (Request C)) (rs : List (Request C))
      → length (push_request o rs) ≤ suc (length rs)
  unfolding push_request
  length-push_request none rs = omega arith
  length-push_request (some r) rs = omega arith

  -- A round that ends the loop.
  length-last :
      (o : Option (Request C)) (n cap : ℕ)
      → (cap ≤ n → o ≡ none)
      → n ≤ cap
      → length (push_request o []) + n ≤ cap
  unfolding push_request
  length-last none n cap h le = omega arith
  length-last (some r) n cap h le = elim (Bool-cases (leb cap n)) [
    | inl t ↦ cc (h (ground arith))
    | inr f ↦ ground arith
  ]

  fetch_loop-IsFetched :
      (world : World C) (shape : Shape) (explode : Explode) (rounds : ℕ) (s : FetchState C)
      → IsSound provider limit s
      → page_cap provider < s.page_index + rounds
      → s.page_index ≤ page_cap provider
      → IsFetched s.page_index (fetch_loop provider world shape explode limit rounds s)
  unfolding fetch_loop
  fetch_loop-IsFetched world shape explode zero s sound enough le = absurd (omega arith)
  fetch_loop-IsFetched world shape explode (suc rounds) s sound enough le =
      elim (PageStep-cases run.step) [
        | inl (r, e) ↦
            rw (e, fetch_loop)
              (record {
                safe = push_request-All run.request [] round.safe tt;
                result = (r, refl, subst (Leads provider limit s.page_index) e round.leads);
                bounded =
                    length-last run.request s.page_index (page_cap provider)
                      (λ h. (round.capped h).0);
              })
        | inr (t, e) ↦ elim (Bool-cases (leb (page_cap provider) s.page_index)) [
          | inl full ↦ cc (round.capped (ground arith)).1
          | inr lt ↦
              let (sound', next) : Leads provider limit s.page_index (go t) =
                subst (Leads provider limit s.page_index) e round.leads in
              let rest =
                fetch_loop-IsFetched world shape explode rounds t sound' (ground arith)
                  (ground arith) in
              rw (e, fetch_loop)
                (record {
                  safe = push_request-All run.request _ round.safe rest.safe;
                  result = rest.result;
                  bounded = λ le. omega (
                    arith,
                    length-push_request run.request
                        (fetch_loop provider world shape explode limit rounds t).requests,
                    rest.bounded (ground arith),
                    next,
                  );
                })
        ]
      ]
    where
      run : PageRun C
      run = fetch_page provider world shape explode limit s

      round : IsRound provider limit s run
      round = fetch_page-IsRound provider limit world shape explode s sound

  fetch_rows-IsFetched :
      (world : World C) (token : Option CachedToken) (m : Params) (explode : Explode)
      → IsFetched 0 (fetch_rows provider world token m explode limit)
  unfolding fetch_rows first_state
  fetch_rows-IsFetched world token m explode =
      fetch_loop-IsFetched world (select_request provider.spec m) explode (suc (page_cap provider))
        (first_state provider token m)
        (record { capped = empty-IsWithin provider.max_rows; checked = tt }) (omega arith)
        (omega arith)

  -- A fetch always ends, with a result after at most `max_pages` requests, whatever the server answers;
  -- the attempts at one request count as one.
  pub fetch_rows-terminates :
      (world : World C) (token : Option CachedToken) (m : Params) (explode : Explode)
      → ((r : Result (List Value) Failure) × ((fetch_rows provider world token m explode
              limit).result
            ≡ some r))
        × (length (fetch_rows provider world token m explode limit).requests ≤ page_cap provider)
  fetch_rows-terminates world token m explode =
      let fetched = fetch_rows-IsFetched world token m explode in
      let (r, e, _) = fetched.result in ((r, e), omega (arith, fetched.bounded (omega arith)))

  -- What a request of the fetch may reach.
  abbrev pub MayBeSent : Request C → Type 0
  MayBeSent req =
      Permitted (C.view req.url) provider.source.allowed_hosts (C.view provider.source.base_url)
      × ((has_auth provider.source.auth ≡ true)
          → IsTrusted (C.view req.url) (C.view provider.source.base_url)
              provider.source.allowed_hosts)

  -- Every request that a fetch sends, for any page and whatever URL the server gave for the next one, goes
  -- to a target that the policy permits, and, where the source has credentials, to the base's origin or an
  -- allow-listed host.
  pub fetch_rows-MayBeSent :
      (world : World C) (token : Option CachedToken) (m : Params) (explode : Explode)
      → All MayBeSent (fetch_rows provider world token m explode limit).requests
  fetch_rows-MayBeSent world token m explode =
      All-map (IsSafe provider.source) MayBeSent _
        (λ req (checked, trusts). (
          (check_target_iff (C.view req.url) provider.source.allowed_hosts
                (C.view provider.source.base_url)).0
              checked,
          λ a.
              (is_trusted_iff (C.view req.url) (C.view provider.source.base_url)
                  provider.source.allowed_hosts).0
                (trusts a),
        ))
        (fetch_rows-IsFetched world token m explode).safe
