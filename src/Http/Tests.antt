-- ===== src/Http/Tests.antt =====
-- The theorems on the HTTP source at concrete inputs.
mod Pages
use mathlib.Core.Bool.{false≢true}
use pawrly.Prelude.{
  ℕ, zero, suc, ◌≤◌, ◌≡◌, ◌≢◌, ◌↔◌, refl, Text, codes, true, false, none, some, List, [], ◌∷◌, ◌++◌,
  length, Result, err, All, get, put, contains, text_eq, text_eq_iff, inl, inr, contains_char,
}
use pawrly.Guard.Target.{Url, domain}
use pawrly.Http.Json.{Value, string, array, object, end, field, nil, cons}
use pawrly.Http.Source.{Crates, header, HttpSource, RetryConfig, RateLimitPolicy}
use pawrly.Http.Table.{ParamSpec, ResponseColumn, HttpTableSpec}
use pawrly.Http.Paginate.JsonPath.{json_at_path, set_json_at_path}
use pawrly.Http.Paginate.JsonPath.Laws.{json_at_path-set_json_at_path}
use pawrly.Http.Paginate.Next.{Params, offset}
use pawrly.Http.Body.{prune_unbound_filters, unbound_sentinel}
use pawrly.Http.Body.Laws.{IsClean, prune_unbound_filters-IsClean}
use pawrly.Http.Auth.{Failure, unsent}
use pawrly.Http.Retry.{Attempt, answered, send_with_retry_inner}
use pawrly.Http.Retry.Laws.{IsRun, send_with_retry_inner-IsRun}
use pawrly.Http.Page.{HttpTableProvider, World, page_cap}
use pawrly.Http.Fetch.{fetch_rows}
use pawrly.Http.Fetch.Laws.{MayBeSent, fetch_rows-terminates, fetch_rows-MayBeSent}
use pawrly.Http.Filters.{
  Expr, extract_cmp, param_of, is_path_param, column, literal, binary, eq, utf8, in_list, expr_cons,
  no_exprs,
}
use pawrly.Http.Bind.{bind, expand_fanout, extend}
use pawrly.Http.Bind.Laws.{Elem, Chooses, combinations, expand_fanout_iff}
use pawrly.Http.Bind.Bound.{key_of, bind-bound}
use pawrly.Http.Scan.{scan_bound}
use pawrly.Http.Scan.Laws.{KeepsBounds, scan_bound-KeepsBounds}

-- Texts that stand for values and URLs.
abbrev pub api : Url
api = record {
  scheme = codes "https";
  host = some (domain (codes "api.test"));
  host_str = some (codes "api.test");
  port_or_known_default = some 443;
}

abbrev pub elsewhere : Url
elsewhere = record {
  scheme = codes "https";
  host = some (domain (codes "files.internal"));
  host_str = some (codes "files.internal");
  port_or_known_default = some 443;
}

-- Every text parses as a page of two rows, and a URL that a body gives is elsewhere.
abbrev two_rows : Value
two_rows = array (cons (string (codes "a")) (cons (string (codes "b")) nil))

abbrev pub crates : Crates
crates = record {
  Location = Url;
  view = λ u. u;
  parse_url = λ s. some elsewhere;
  join = λ base s. some base;
  append_pairs = λ u pairs. u;
  view-append_pairs = λ u pairs. refl;
  from_json = λ s. some two_rows;
  to_json = λ v. codes "{}";
  parse_method = λ s. some s;
  basic_auth = λ u p. u ++ p;
  base64_text = λ s. some s;
  rfc3339 = λ n millis. none;
  as_i64 = λ n. none;
  f64_to_i64 = λ n. none;
  as_f64 = λ n. some 0;
  parse_f64 = λ s. none;
  rfc3339_micros = λ s. none;
  naive_micros = λ f s. none;
  naive_days = λ s. none;
}

abbrev pub policy : RateLimitPolicy
policy = record { remaining_header = none; reset_header = none; extra_statuses = 403 ∷ [] }

abbrev pub retry : RetryConfig
retry = record { max_retries = 3; base_backoff_ms = 200; max_backoff_ms = 5000 }

abbrev source : HttpSource crates
source = record {
  base_url = api;
  allowed_hosts = [];
  auth =
      header
        (record { name = codes "Authorization"; bearer = some (codes "t"); value = none } ∷ []);
  headers = [];
  retry = retry;
  rate_limit = policy;
  dynamic = [];
  resolve = λ id. err [];
}

abbrev pub param : Text → ParamSpec
param name = record {
  name = name;
  param_type = codes "varchar";
  required = true;
  default = none;
  accepts = [];
  emit = [];
  explode = false;
  derive = none;
  filterable = true;
}

abbrev pub spec : HttpTableSpec
spec = record {
  name = codes "issues";
  endpoint = codes "/issues";
  method = codes "GET";
  params = param (codes "a") ∷ param (codes "b") ∷ [];
  headers = [];
  body = none;
  requests = [];
  response = record {
    path = codes "$";
    schema =
        record { name = codes "id"; column_type = codes "float"; source = none; expr = none } ∷ [];
    allow_404_empty = true;
    error = none;
    reshape = none;
  };
  pagination = some (offset (codes "offset") (codes "limit") 2);
}

abbrev provider : HttpTableProvider crates
provider = record { source = source; spec = spec; max_pages = some 3; max_rows = some 5 }

-- The first attempt at each page fails.
abbrev attempt : ℕ → Attempt
attempt zero = answered (record { status = 503; headers = []; text = none })
attempt (suc n) = answered (record { status = 200; headers = []; text = some (codes "[]") })

abbrev world : World crates
world = record {
  try = λ page req n. attempt n;
  now_ms = λ page n. 0;
  now = λ page. 0;
  exchange = λ page url form. unsent [];
  cloneable = λ req. true;
}

abbrev variables : Value
variables = object (field (codes "query") (string (codes "q")) end)

plain_path : contains_char b'[' (codes "$.variables.after") ≡ false
unfolding contains_char
plain_path = refl

set_done : (set_json_at_path variables (codes "$.variables.after") (string (codes "c"))).0 ≡ true
unfolding set_json_at_path text_eq
set_done = refl

json_at_path-set_json_at_path_example :
    json_at_path
      (set_json_at_path variables (codes "$.variables.after") (string (codes "c"))).1
      (codes "$.variables.after")
    ≡ some (string (codes "c"))
json_at_path-set_json_at_path_example =
    json_at_path-set_json_at_path variables (string (codes "c")) (codes "$.variables.after")
      plain_path set_done

prune_run :
    prune_unbound_filters (
      object (
        field
          (codes "id")
          (object (field (codes "eq") (string unbound_sentinel) end))
          (field (codes "q") (string (codes "x")) end)))
    ≡ some (object (field (codes "q") (string (codes "x")) end))
unfolding prune_unbound_filters
prune_run = refl

prune_unbound_filters-IsClean_example :
    IsClean (object (field (codes "q") (string (codes "x")) end))
prune_unbound_filters-IsClean_example =
    prune_unbound_filters-IsClean
      (object (
        field (codes "id") (object (field (codes "eq") (string unbound_sentinel) end))
          (field (codes "q") (string (codes "x")) end)))
      (object (field (codes "q") (string (codes "x")) end)) prune_run

send_with_retry_inner-IsRun_example :
    IsRun policy attempt 3 0 (send_with_retry_inner retry policy true attempt (λ n. 0))
send_with_retry_inner-IsRun_example = send_with_retry_inner-IsRun retry policy true attempt (λ n. 0)

fetch_rows-terminates_example :
    ((r : Result (List Value) Failure) × ((fetch_rows provider world none [] [] (some 3)).result
        ≡ some r))
    × (length (fetch_rows provider world none [] [] (some 3)).requests ≤ page_cap provider)
fetch_rows-terminates_example = fetch_rows-terminates provider (some 3) world none [] []

fetch_rows-MayBeSent_example :
    All (MayBeSent provider (some 3)) (fetch_rows provider world none [] [] (some 3)).requests
fetch_rows-MayBeSent_example = fetch_rows-MayBeSent provider (some 3) world none [] []

-- `a = 'x'` and `b IN ('y', 'z')`.
abbrev equality : Expr
equality = binary (column (codes "a")) eq (literal (utf8 (some (codes "x"))))

abbrev several : Expr
several =
    in_list (column (codes "b"))
      (expr_cons (literal (utf8 (some (codes "y"))))
        (expr_cons (literal (utf8 (some (codes "z")))) no_exprs))
      false

scan_bound-KeepsBounds_example :
    KeepsBounds provider
      (some 3)
      false
      (scan_bound provider (λ i. world) none 0 (equality ∷ several ∷ []) (some 3) false)
scan_bound-KeepsBounds_example =
    scan_bound-KeepsBounds provider (some 3) (λ i. world) none 0 (equality ∷ several ∷ []) false

abbrev two_by_one : List (Text × List Text)
two_by_one = (codes "a", codes "1" ∷ codes "2" ∷ []) ∷ (codes "b", codes "3" ∷ []) ∷ []

expand_fanout_iff_example :
    ((m : Params)
      → Elem m (expand_fanout [] two_by_one)
        ↔ ((cs : Params) × Chooses cs two_by_one × (m ≡ extend cs [])))
    × (length (expand_fanout [] two_by_one) ≡ combinations two_by_one)
expand_fanout_iff_example = expand_fanout_iff [] two_by_one

abbrev float_column : ResponseColumn
float_column = record { name = codes "id"; column_type = codes "float"; source = none; expr = none }

several_fans_out : All (λ e. e.0 ≢ codes "a") (bind spec (equality ∷ several ∷ []) 0).fanout
unfolding bind text_eq is_path_param contains
several_fans_out = (λ e. false≢true ((text_eq_iff (codes "b") (codes "a")).1 e), tt)

set_of_z : Elem ((codes "a", codes "x") ∷ (codes "b", codes "z") ∷ []) (
    expand_fanout
      (bind spec (equality ∷ several ∷ []) 0).params
      (bind spec (equality ∷ several ∷ []) 0).fanout)
unfolding bind expand_fanout extend text_eq is_path_param contains put get
set_of_z = inr (inl refl)

equality_run : extract_cmp equality ≡ some (codes "a", codes "=", codes "x")
unfolding extract_cmp
equality_run = refl

a_declared : param_of spec (codes "a") ≡ some (param (codes "a"))
unfolding text_eq
a_declared = refl

several_other : key_of spec several ≢ some (codes "a")
unfolding extract_cmp
several_other e = cc

bind-bound_example :
    get (codes "a") ((codes "a", codes "x") ∷ (codes "b", codes "z") ∷ []) ≡ some (codes "x")
bind-bound_example =
    bind-bound spec [] (several ∷ []) equality (param (codes "a")) (codes "a") (codes "x") 0
      ((codes "a", codes "x") ∷ (codes "b", codes "z") ∷ []) equality_run a_declared
      (several_other, tt) several_fans_out set_of_z
