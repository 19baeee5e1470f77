-- ===== src/Http/Fetch.antt =====
-- The loop of `fetch_rows` (crates/pawrly-sources/http/src/typed.rs): pages are fetched until the
-- declared pagination, a limit or an error ends it.
pub mod Laws
pub mod Slices
pub mod Offset
use pawrly.Prelude.{ℕ, zero, suc, Option, none, some, List, [], ◌∷◌, Result}
use pawrly.Http.Json.{Value}
use pawrly.Http.Source.{Crates}
use pawrly.Http.Paginate.Next.{Params, PaginationConfig, seed_initial}
use pawrly.Http.Auth.{Failure, Request, CachedToken}
use pawrly.Http.Request.{Explode, Shape, select_request}
use pawrly.Http.Page.{HttpTableProvider, World, FetchState, stop, go, page_cap, fetch_page}

-- The requests of a fetch, each once for all its attempts, the cached token after it, and its result.
pub record Fetch (C : Crates) : Type 0 where
  pub requests : List (Request C)
  pub oauth_token : Option CachedToken
  pub result : Option (Result (List Value) Failure)

unfoldable pub push_request :
    {C : Crates} → Option (Request C) → List (Request C) → List (Request C)
push_request none rs = rs
push_request (some r) rs = r ∷ rs

-- The loop with a number of rounds that it may take; the result is `none` where they run out.
unfoldable pub fetch_loop :
    {C : Crates}
    → HttpTableProvider C
    → World C
    → Shape
    → Explode
    → Option ℕ
    → (rounds : ℕ) → FetchState C
    → Fetch C
unfolding fetch_page push_request
fetch_loop provider world shape explode limit zero s = record {
  requests = [];
  oauth_token = s.oauth_token;
  result = none;
}
fetch_loop provider world shape explode limit (suc rounds) s =
    let run = fetch_page provider world shape explode limit s in
    elim run.step [
      | stop r ↦ record {
        requests = push_request run.request [];
        oauth_token = run.oauth_token;
        result = some r;
      }
      | go t ↦
          let rest = fetch_loop provider world shape explode limit rounds t in
          record {
            requests = push_request run.request rest.requests;
            oauth_token = rest.oauth_token;
            result = rest.result;
          }
    ]

unfoldable pub seeded : Option PaginationConfig → Params → Params
unfolding seed_initial
seeded none m = m
seeded (some config) m = seed_initial config m

-- The state before the first page.
unfoldable pub first_state :
    {C : Crates} → HttpTableProvider C → Option CachedToken → Params → FetchState C
unfolding seeded
first_state provider token m = record {
  all_rows = [];
  next_params = seeded provider.spec.pagination m;
  next_url = none;
  body_cursor = none;
  page_index = 0;
  oauth_token = token;
}

-- The rounds are one more than the pages that may be fetched.
unfoldable pub fetch_rows :
    {C : Crates}
    → HttpTableProvider C
    → World C
    → Option CachedToken
    → Params
    → Explode
    → Option ℕ
    → Fetch C
unfolding fetch_loop select_request page_cap first_state
fetch_rows provider world token m explode limit =
    fetch_loop provider world (select_request provider.spec m) explode limit
      (suc (page_cap provider)) (first_state provider token m)
