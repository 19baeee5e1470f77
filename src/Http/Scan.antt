-- ===== src/Http/Scan.antt =====
-- `scan_bound` and `scan_params` (crates/pawrly-sources/http/src/typed.rs). A batch is its rows with the
-- parameters that they were fetched for; the columns of a batch and the projection are not modelled here.
pub mod Laws
use Prim.Native.Nat.{min}
use pawrly.Prelude.{
  ℕ, suc, ◌+◌, ◌-◌, Text, Bool, Option, none, some, List, [], ◌∷◌, ◌++◌, length, is_empty,
  if◌then◌else◌, Result, ok, err, contains, contains_char, replace, without,
}
use pawrly.Http.Json.{Value}
use pawrly.Http.Source.{Crates}
use pawrly.Http.Paginate.Next.{Params, u64_max}
use pawrly.Http.Auth.{Failure, too_many_rows, required_filter, Request, CachedToken}
use pawrly.Http.Request.{Explode}
use pawrly.Http.Body.{placeholder}
use pawrly.Http.Filters.{Expr}
use pawrly.Http.Bind.{bind, expand_fanout}
use pawrly.Http.Page.{HttpTableProvider, World, reached, exceeded, truncate}
use pawrly.Http.Fetch.{Fetch, fetch_rows}

abbrev pub Batch : Type 0
Batch = Params × List Value

-- The variables of the loop over the bindings. The requests are those that were sent.
pub record Union (C : Crates) : Type 0 where
  pub out_batches : List Batch
  pub total_rows : ℕ
  pub oauth_token : Option CachedToken
  pub requests : List (Request C)

-- What a scan gives: the batches, a failure, or a place-holder for a join that binds the names.
pub data Scan : Type 0 where
  rows_of : List Batch → Scan
  failed_scan : Failure → Scan
  deferred : List Text → Scan
  unfinished : Scan

abbrev pub remaining : Option ℕ → ℕ → Option ℕ
remaining none total = none
remaining (some l) total = some (l - total)

-- A batch that is trimmed to what the limit leaves, and added where it has rows.
unfoldable pub add_batch :
    {C : Crates} → Option ℕ → Params → List Value → Fetch C → Union C → Union C
unfolding truncate
add_batch limit bound rows fetch u =
    let trimmed = truncate (remaining limit u.total_rows) rows in
    record {
      out_batches =
          if is_empty trimmed then u.out_batches else u.out_batches ++ (bound, trimmed) ∷ [];
      total_rows = u.total_rows + length trimmed;
      oauth_token = fetch.oauth_token;
      requests = u.requests ++ fetch.requests;
    }

-- The fetch of one binding, with its result.
unfoldable pub after_fetch :
    {C : Crates}
    → HttpTableProvider C
    → Option ℕ
    → Params
    → Fetch C
    → Union C
    → Result (Union C) Scan
unfolding add_batch
after_fetch provider limit bound fetch u = elim fetch.result [
  | none ↦ err unfinished
  | some (err e) ↦ err (failed_scan e)
  | some (ok rows) ↦
      if exceeded provider.max_rows (min (u.total_rows + length rows) u64_max)
      then err (failed_scan too_many_rows)
      else ok (add_batch limit bound rows fetch u)
]

-- The loop over the bindings; the first number is how many were fetched.
unfoldable pub fetch_union :
    {C : Crates}
    → HttpTableProvider C
    → (worlds : ℕ → World C) → Explode
    → Option ℕ
    → ℕ
    → List Params
    → Union C
    → Result (Union C) Scan
unfolding fetch_rows after_fetch
fetch_union provider worlds explode limit i [] u = ok u
fetch_union provider worlds explode limit i (b ∷ bs) u =
    if reached limit u.total_rows
    then ok u
    else elim (after_fetch provider limit b
        (fetch_rows provider (worlds i) u.oauth_token b explode (remaining limit u.total_rows)) u) [
          | err e ↦ err e
          | ok u' ↦ fetch_union provider worlds explode limit (suc i) bs u'
        ]

abbrev pub no_rows_yet : {C : Crates} → Option CachedToken → Union C
no_rows_yet token = record { out_batches = []; total_rows = 0; oauth_token = token; requests = [] }

-- At least one batch is given.
abbrev pub with_batch : Params → List Batch → List Batch
with_batch m [] = (m, []) ∷ []
with_batch m (b ∷ bs) = b ∷ bs

unfoldable pub collected : {C : Crates} → Params → Result (Union C) Scan → Scan
collected m (err e) = e
collected m (ok u) = rows_of (with_batch m u.out_batches)

unfoldable pub scan_bound :
    {C : Crates}
    → HttpTableProvider C
    → (worlds : ℕ → World C) → Option CachedToken
    → (now_epoch : ℕ) → List Expr
    → Option ℕ
    → (allow_defer : Bool) → Scan
unfolding bind expand_fanout fetch_union collected
scan_bound provider worlds token now_epoch filters limit allow_defer =
    let b = bind provider.spec filters now_epoch in
    elim b.unbound [
      | [] ↦ collected b.params (
          fetch_union provider worlds b.explode limit 0 (expand_fanout b.params b.fanout)
            (no_rows_yet token))
      | n ∷ ns ↦ if allow_defer then deferred (n ∷ ns) else failed_scan required_filter
    ]

-- The rows of a call with its parameters.
unfoldable pub scan_params :
    {C : Crates}
    → HttpTableProvider C
    → World C
    → Option CachedToken
    → Params
    → Option ℕ
    → Option (Result Batch Failure)
unfolding fetch_rows
scan_params provider world token m limit =
    elim (fetch_rows provider world token m [] limit).result [
      | none ↦ none
      | some (err e) ↦ some (err e)
      | some (ok rows) ↦ some (ok (m, rows))
    ]

-- `HttpFunctionExecutor::invoke` (crates/pawrly-sources/http/src/function.rs): the arguments that the
-- response path names are put there and are not sent.
unfoldable pub fill_response_path : Params → Text → Params → Text × Params
unfolding contains replace without
fill_response_path [] path m = (path, m)
fill_response_path ((k, v) ∷ args) path m =
    if contains (placeholder k) path
    then fill_response_path args (replace (placeholder k) v path) (without k m)
    else fill_response_path args path m

unfoldable pub with_response_path : {C : Crates} → Text → HttpTableProvider C → HttpTableProvider C
with_response_path path provider = record {
  source = provider.source;
  spec = record {
    name = provider.spec.name;
    endpoint = provider.spec.endpoint;
    method = provider.spec.method;
    params = provider.spec.params;
    headers = provider.spec.headers;
    body = provider.spec.body;
    requests = provider.spec.requests;
    response = record {
      path = path;
      schema = provider.spec.response.schema;
      allow_404_empty = provider.spec.response.allow_404_empty;
      error = provider.spec.response.error;
      reshape = provider.spec.response.reshape;
    };
    pagination = provider.spec.pagination;
  };
  max_pages = provider.max_pages;
  max_rows = none;
}

-- The path is filled where it has a brace.
unfoldable pub invoke :
    {C : Crates}
    → HttpTableProvider C
    → World C
    → Option CachedToken
    → Params
    → Option ℕ
    → Option (Result Batch Failure)
unfolding fill_response_path with_response_path scan_params contains_char
invoke provider world token args limit =
    let (path, m) =
      if contains_char b'{' provider.spec.response.path
      then fill_response_path args provider.spec.response.path args
      else (provider.spec.response.path, args) in
    scan_params (with_response_path path provider) world token m limit
