-- ===== src/Http/Tests/Pages.antt =====
-- All the rows of a server that slices them.
use mathlib.Core.Bool.{false≢true}
use pawrly.Prelude.{
  ℕ, ◌*◌, ◌≡◌, refl, Text, codes, true, false, Option, none, some, List, [], ◌∷◌, ◌++◌, is_empty,
  ok, err, text_eq, text_eq_iff, get, has_key, inl, inr, Bool-cases, arith,
}
use pawrly.Http.Json.{Value, from_list, string, array}
use pawrly.Http.Source.{Crates, no_auth}
use pawrly.Http.Paginate.Next.{Params}
use pawrly.Http.Auth.{Request, unsent, apply_auth}
use pawrly.Http.Retry.{Response, answered, is_rate_limit}
use pawrly.Guard.Target.{same_origin}
use pawrly.Http.Request.Attach.{attach_body}
use pawrly.Http.Request.{
  page_url, bare_request, build_url, fill_path, explode_pairs, select_request, page_request,
}
use pawrly.Http.Page.{HttpTableProvider, World, page_cap}
use pawrly.Http.Fetch.{fetch_rows}
use pawrly.Http.Fetch.Slices.{take, drop}
use pawrly.Http.Fetch.Offset.{Serves, fetch_rows-offset}
use pawrly.Http.Fetch.Offset.Round.{IsPlainOffset}
use pawrly.Http.Tests.{api, crates, policy, retry, spec}

-- A server of three rows, whose response is the number of its page, to a source without credentials.
abbrev three_rows : List Value
three_rows = string (codes "a") ∷ string (codes "b") ∷ string (codes "c") ∷ []

abbrev page_of : Text → Option Value
page_of [] = none
page_of (page ∷ _) = some (array (from_list (take 2 (drop (2 * page) three_rows))))

abbrev sliced : Crates
sliced = record crates { from_json = page_of }

abbrev plain_provider : HttpTableProvider sliced
plain_provider = record {
  source = record {
    base_url = api;
    allowed_hosts = [];
    auth = no_auth;
    headers = [];
    retry = retry;
    rate_limit = policy;
    dynamic = [];
    resolve = λ id. err [];
  };
  spec = spec;
  max_pages = some 3;
  max_rows = none;
}

abbrev response_of : ℕ → Response
response_of page = record { status = 200; headers = []; text = some (page ∷ []) }

abbrev made_request : Request sliced
made_request = bare_request plain_provider.source spec (select_request spec []) api

abbrev slicing : World sliced
slicing = record {
  try = λ page req n. answered (response_of page);
  now_ms = λ page n. 0;
  now = λ page. 0;
  exchange = λ page url form. unsent [];
  cloneable = λ req. true;
}

plain : IsPlainOffset plain_provider (codes "offset") (codes "limit") 2
unfolding is_rate_limit text_eq
plain = record {
  pagination = refl;
  path = refl;
  no_error = refl;
  no_reshape = refl;
  no_cap = refl;
  no_quota = refl;
  not_limited = refl;
  apart = λ e. false≢true ((text_eq_iff (codes "offset") (codes "limit")).1 e);
  positive = omega arith;
}

-- Every request goes to the base itself.
build_url-api : (m : Params) → build_url sliced api [] (codes "/issues") m none [] ≡ ok api
unfolding build_url same_origin text_eq
build_url-api m =
    let pairs = (fill_path none m (codes "/issues") []).1 ++ explode_pairs [] in
    elim (Bool-cases (is_empty pairs)) [
      | inl t ↦ rw (t, build_url) refl
      | inr f ↦ rw (f, build_url) refl
    ]

slicing-Serves :
    Serves plain_provider slicing
      (select_request spec [])
      []
      (codes "offset")
      (codes "limit")
      2
      three_rows
unfolding page_request page_url select_request bare_request apply_auth attach_body
slicing-Serves page token m named sized = (
  made_request,
  rw (build_url-api m, page_request) refl,
  (response_of page, refl, refl, (page ∷ [], refl, refl)),
)

offset_unbound : has_key {A = Text} (codes "offset") [] ≡ false
unfolding get
offset_unbound = refl

limit_unbound : has_key {A = Text} (codes "limit") [] ≡ false
unfolding get
limit_unbound = refl

fetch_rows-offset_example :
    (fetch_rows plain_provider slicing none [] [] none).result ≡ some (ok three_rows)
unfolding page_cap
fetch_rows-offset_example =
    fetch_rows-offset plain_provider slicing [] (codes "offset") (codes "limit") 2 three_rows []
      none plain slicing-Serves offset_unbound limit_unbound (omega arith) (omega arith)
