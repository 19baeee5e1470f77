-- ===== src/Http/Request.antt =====
-- The request for one page: `build_url`, `select_request`, `has_content_type` and the part of
-- `fetch_rows` up to the sending (crates/pawrly-sources/http/src/typed.rs).
pub mod Attach
pub mod Laws
use pawrly.Prelude.{
  ℕ, Text, codes, Bool, false, Option, none, some, List, [], ◌∷◌, ◌++◌, is_empty, all, map,
  if◌then◌else◌, Result, ok, err, ◌>>=◌, has_key, get, replace, contains, trim_start_matches, ◌==◌,
}
use pawrly.Guard.Host.{HostPattern}
use pawrly.Guard.Target.{check_target}
use pawrly.Http.Source.{Crates, HttpSource}
use pawrly.Http.Table.{RequestBody, ConditionalRequest, HttpTableSpec}
use pawrly.Http.Paginate.Next.{Params}
use pawrly.Http.Body.{placeholder}
use pawrly.Http.Auth.{Failure, bad_url, refused, Request, CachedToken, TokenReply, apply_auth}
use pawrly.Http.Request.Attach.{has_header, attach_body}

abbrev pub Explode : Type 0
Explode = List (Text × List Text)

-- Whether the template of a body consumes the placeholder.
abbrev in_template : Option Text → Text → Bool
in_template none needle = false
in_template (some t) needle = contains needle t

-- The path with its placeholders filled, and the parameters that are left for the query, which stand
-- after those that are there.
unfoldable pub fill_path : Option Text → Params → Text → Params → Text × Params
unfolding contains replace
fill_path template [] path query = (path, query)
fill_path template ((k, v) ∷ params) path query =
    if contains (placeholder k) path
    then fill_path template params (replace (placeholder k) v path) query
    else if in_template template (placeholder k)
    then fill_path template params path query
    else fill_path template params path (query ++ (k, v) ∷ [])

unfoldable pub explode_pairs : Explode → Params
explode_pairs [] = []
explode_pairs ((k, vals) ∷ es) = map (λ v. (k, v)) vals ++ explode_pairs es

unfoldable pub build_url :
    (C : Crates)
    → (base : C.Location) → List HostPattern
    → Text
    → Params
    → Option Text
    → Explode
    → Result C.Location Failure
unfolding fill_path explode_pairs trim_start_matches check_target
build_url C base allowed endpoint params template explode =
    let (path, query) = fill_path template params endpoint [] in
    elim (C.join base (trim_start_matches (λ c. c == b'/') path)) [
      | none ↦ err bad_url
      | some url ↦ elim (check_target (C.view url) (C.view base) allowed) [
        | err e ↦ err (refused e)
        | ok _ ↦
            let pairs = query ++ explode_pairs explode in
            if is_empty pairs then ok url else ok (C.append_pairs url pairs)
      ]
    ]

-- Endpoint, method and body of a request.
pub record Shape : Type 0 where
  pub endpoint : Text
  pub method : Text
  pub body : Option RequestBody

unfoldable pub first_request : List ConditionalRequest → Params → Shape → Shape
unfolding get
first_request [] params otherwise = otherwise
first_request (r ∷ rs) params otherwise =
    let rest = first_request rs params otherwise in
    if all (λ f. has_key f params) r.when_filters
    then record { endpoint = r.endpoint; method = r.method; body = r.body }
    else rest

unfoldable pub select_request : HttpTableSpec → Params → Shape
unfolding first_request
select_request spec params =
    first_request spec.requests params
      (record { endpoint = spec.endpoint; method = spec.method; body = spec.body })

-- The headers of the source that the table does not set, and those of the table.
unfoldable pub not_overridden : List (Text × Text) → List (Text × Text) → List (Text × Text)
unfolding has_header
not_overridden table [] = []
not_overridden table ((k, v) ∷ hs) =
    let rest = not_overridden table hs in if has_header k table then rest else (k, v) ∷ rest

-- The target of a page: the URL that pagination gave, or the one that is built.
unfoldable pub page_url :
    {C : Crates}
    → HttpSource C
    → Shape
    → Params
    → Explode
    → Option C.Location
    → Result C.Location Failure
unfolding build_url
page_url {C} source shape params explode (some u) = ok u
page_url {C} source shape params explode none =
    build_url C source.base_url source.allowed_hosts shape.endpoint params
      (elim shape.body [ none ↦ none | some b ↦ some b.template ]) explode

-- The method where it is one, and `GET` where it is not.
abbrev method_or_get : Option Text → Text
method_or_get none = codes "GET"
method_or_get (some m) = m

-- The request before its credentials.
unfoldable pub bare_request :
    {C : Crates} → HttpSource C → HttpTableSpec → Shape → C.Location → Request C
unfolding not_overridden
bare_request {C} source spec shape url = record {
  method = method_or_get (C.parse_method shape.method);
  url = url;
  headers = not_overridden spec.headers source.headers ++ spec.headers;
  body = none;
}

-- The request of a page, and the cached token after it was made.
unfoldable pub page_request :
    {C : Crates}
    → HttpSource C
    → HttpTableSpec
    → (exchange : Text → List (Text × Text) → TokenReply) → (now : ℕ) → Option CachedToken
    → Shape
    → Params
    → Explode
    → Option C.Location
    → Option Text
    → Option CachedToken × Result (Request C) Failure
unfolding page_url bare_request apply_auth attach_body
page_request source spec exchange now cached shape params explode next_url cursor =
    elim (page_url source shape params explode next_url) [
      | err e ↦ (cached, err e)
      | ok url ↦
          let (cached', authed) =
            apply_auth source exchange now cached (bare_request source spec shape url) in
          (cached', authed >>= (λ req. attach_body source spec shape.body params cursor req))
    ]
