-- ===== src/Http/Page.antt =====
-- One round of the loop of `fetch_rows` (crates/pawrly-sources/http/src/typed.rs): a page is requested,
-- and its response is read. The waits are not modelled.
pub mod Laws
use pawrly.Prelude.{
  ℕ, zero, suc, ◌+◌, ◌==◌, ltb, leb, Text, Bool, false, ◌&&◌, Option, none, some, List, [], ◌∷◌,
  ◌++◌, length, if◌then◌else◌, Result, ok, err, codes,
}
use pawrly.Guard.Target.{check_target}
use pawrly.Http.Json.{Value, null}
use pawrly.Http.Source.{Crates, HttpSource, HeaderMap, header_text}
use pawrly.Http.Table.{HttpTableSpec, ResponseErrorSpec}
use pawrly.Http.Response.{detect_error, extract_rows}
use pawrly.Http.Paginate.Next.{Params, NextPage, params, url, body_cursor_at, next_page}
use pawrly.Http.Auth.{
  Failure, bad_url, read_failed, not_json, too_many_pages, too_many_rows, refused, api_error,
  not_rows, Request, CachedToken, TokenReply,
}
use pawrly.Http.Request.{Explode, Shape, page_request}
use pawrly.Http.Retry.{Response, Attempt, compute_throttle, send_with_retry_inner}

pub record HttpTableProvider (C : Crates) : Type 0 where
  pub source : HttpSource C
  pub spec : HttpTableSpec
  pub max_pages : Option ℕ
  pub max_rows : Option ℕ

-- What one fetch meets: what becomes of each attempt at the request of a page, the clock in milliseconds
-- when it is answered, the clock in seconds and the token endpoint when the credentials of a page are
-- made, and which requests can be cloned.
pub record World (C : Crates) : Type 0 where
  pub try : ℕ → Request C → ℕ → Attempt
  pub now_ms : ℕ → ℕ → ℕ
  pub now : ℕ → ℕ
  pub exchange : ℕ → Text → List (Text × Text) → TokenReply
  pub cloneable : Request C → Bool

-- The variables of the loop, with the cached token of the source.
pub record FetchState (C : Crates) : Type 0 where
  pub all_rows : List Value
  pub next_params : Params
  pub next_url : Option C.Location
  pub body_cursor : Option Text
  pub page_index : ℕ
  pub oauth_token : Option CachedToken

-- A round of the loop ends it, or goes on.
pub data PageStep (C : Crates) : Type 0 where
  stop : Result (List Value) Failure → PageStep C
  go : FetchState C → PageStep C

unfoldable pub truncate : Option ℕ → List Value → List Value
truncate none rows = rows
truncate (some zero) rows = []
truncate (some (suc n)) [] = []
truncate (some (suc n)) (r ∷ rows) = r ∷ truncate (some n) rows

-- The loop is left with the rows so far.
unfoldable pub finish : {C : Crates} → Option ℕ → FetchState C → PageStep C
unfolding truncate
finish limit s = stop (ok (truncate limit s.all_rows))

abbrev pub default_max_pages : ℕ
default_max_pages = 1000

unfoldable pub page_cap : {C : Crates} → HttpTableProvider C → ℕ
page_cap provider = elim provider.max_pages [ none ↦ default_max_pages | some n ↦ n ]

-- The state for the page that pagination asks for.
unfoldable pub advance : {C : Crates} → HttpTableProvider C → FetchState C → NextPage → PageStep C
unfolding check_target
advance {C} provider s (params p) = go (record {
  all_rows = s.all_rows;
  next_params = p;
  next_url = none;
  body_cursor = s.body_cursor;
  page_index = suc s.page_index;
  oauth_token = s.oauth_token;
})
advance {C} provider s (body_cursor_at c) = go (record {
  all_rows = s.all_rows;
  next_params = s.next_params;
  next_url = none;
  body_cursor = some c;
  page_index = suc s.page_index;
  oauth_token = s.oauth_token;
})
advance {C} provider s (url u) = elim (C.parse_url u) [
  | none ↦ stop (err bad_url)
  | some parsed ↦
      elim (check_target (C.view parsed) (C.view provider.source.base_url)
        provider.source.allowed_hosts) [
          | err e ↦ stop (err (refused e))
          | ok _ ↦ go (record {
            all_rows = s.all_rows;
            next_params = s.next_params;
            next_url = some parsed;
            body_cursor = s.body_cursor;
            page_index = suc s.page_index;
            oauth_token = s.oauth_token;
          })
        ]
]

-- `limit` or `max_rows` against the number of rows.
abbrev pub reached : Option ℕ → ℕ → Bool
reached none n = false
reached (some l) n = leb l n

abbrev pub exceeded : Option ℕ → ℕ → Bool
exceeded none n = false
exceeded (some m) n = ltb m n

unfoldable pub add_rows : {C : Crates} → List Value → FetchState C → FetchState C
add_rows rows s = record {
  all_rows = s.all_rows ++ rows;
  next_params = s.next_params;
  next_url = s.next_url;
  body_cursor = s.body_cursor;
  page_index = s.page_index;
  oauth_token = s.oauth_token;
}

-- The round once the rows of its page were added.
unfoldable pub after_rows :
    {C : Crates}
    → HttpTableProvider C
    → Option ℕ
    → Value
    → HeaderMap
    → (page_rows : List Value) → FetchState C
    → PageStep C
unfolding finish advance next_page header_text
after_rows provider limit body_json headers page_rows s =
    if reached limit (length s.all_rows)
    then finish limit s
    else if exceeded provider.max_rows (length s.all_rows)
    then stop (err too_many_rows)
    else elim provider.spec.pagination [
      | none ↦ finish limit s
      | some config ↦
          elim (next_page config s.next_params body_json (header_text (codes "link") headers)
            page_rows s.page_index) [ none ↦ finish limit s | some page ↦ advance provider s page ]
    ]

-- The error that the declared conditions see.
unfoldable pub declared_error : (Value → Text) → Option ResponseErrorSpec → ℕ → Value → Option Text
unfolding detect_error
declared_error to_json none status body = none
declared_error to_json (some spec) status body = detect_error to_json spec status body

-- A body that was read.
unfoldable pub read_body :
    {C : Crates}
    → HttpTableProvider C
    → Option ℕ
    → Response
    → FetchState C
    → Option Value
    → PageStep C
unfolding declared_error extract_rows after_rows add_rows
read_body {C} provider limit resp s none =
    elim (declared_error C.to_json provider.spec.response.error resp.status null) [
      | some msg ↦ stop (err (api_error msg))
      | none ↦ stop (err not_json)
    ]
read_body {C} provider limit resp s (some body_json) =
    elim (declared_error C.to_json provider.spec.response.error resp.status body_json) [
      | some msg ↦ stop (err (api_error msg))
      | none ↦ elim (extract_rows body_json provider.spec.response) [
        | err v ↦ stop (err (not_rows v))
        | ok rows ↦ after_rows provider limit body_json resp.headers rows (add_rows rows s)
      ]
    ]

unfoldable pub receive :
    {C : Crates} → HttpTableProvider C → Option ℕ → FetchState C → Response → PageStep C
unfolding read_body finish compute_throttle
receive {C} provider limit s resp =
    elim (compute_throttle provider.source.rate_limit resp.headers) [
      | err e ↦ stop (err e)
      | ok _ ↦
          if resp.status == 404 && provider.spec.response.allow_404_empty
          then finish limit s
          else elim resp.text [
            | none ↦ stop (err read_failed)
            | some text ↦ read_body provider limit resp s (C.from_json text)
          ]
    ]

unfoldable pub with_token : {C : Crates} → Option CachedToken → FetchState C → FetchState C
with_token token s = record {
  all_rows = s.all_rows;
  next_params = s.next_params;
  next_url = s.next_url;
  body_cursor = s.body_cursor;
  page_index = s.page_index;
  oauth_token = token;
}

-- One round: the request that it sent, the cached token after it, and how the loop goes on.
pub record PageRun (C : Crates) : Type 0 where
  pub request : Option (Request C)
  pub oauth_token : Option CachedToken
  pub step : PageStep C

-- A round whose request was made.
unfoldable pub send_page :
    {C : Crates}
    → HttpTableProvider C
    → World C
    → Option ℕ
    → FetchState C
    → Option CachedToken
    → Result (Request C) Failure
    → PageRun C
unfolding send_with_retry_inner receive with_token
send_page provider world limit s token (err e) = record {
  request = none;
  oauth_token = token;
  step = stop (err e);
}
send_page provider world limit s token (ok req) =
    let sent =
      send_with_retry_inner provider.source.retry provider.source.rate_limit (world.cloneable req)
        (world.try s.page_index req) (world.now_ms s.page_index) in
    record {
      request = some req;
      oauth_token = token;
      step = elim sent.answer [
        | err e ↦ stop (err e)
        | ok resp ↦ receive provider limit (with_token token s) resp
      ];
    }

unfoldable pub fetch_page :
    {C : Crates}
    → HttpTableProvider C
    → World C
    → Shape
    → Explode
    → Option ℕ
    → FetchState C
    → PageRun C
unfolding page_cap page_request send_page
fetch_page provider world shape explode limit s =
    if leb (page_cap provider) s.page_index
    then record { request = none; oauth_token = s.oauth_token; step = stop (err too_many_pages) }
    else let (token, made) =
        page_request provider.source provider.spec (world.exchange s.page_index)
          (world.now s.page_index) s.oauth_token shape s.next_params explode s.next_url
          s.body_cursor in
      send_page provider world limit s token made
