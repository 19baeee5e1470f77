-- ===== src/Http/Auth.antt =====
-- The credentials of a request: `resolve_dynamic`, `oauth_bearer` and `apply_auth` of
-- crates/pawrly-sources/http/src/source.rs. The names and values of headers are taken as valid.
use pawrly.Prelude.{
  ℕ, ◌+◌, ◌==◌, ltb, leb, Text, codes, Bool, true, false, ◌&&◌, not, Option, none, some, List, [],
  ◌∷◌, ◌++◌, if◌then◌else◌, Result, ok, err, ◌>>=◌, text_eq, trim, strip_prefix, cut_at, get,
  parse_unsigned,
}
use pawrly.Guard.Target.{Refusal, is_trusted}
use pawrly.Http.Json.{Value, number, get_key, as_str}
use pawrly.Http.Source.{
  Crates, AuthHeader, QueryCredential, AuthSpec, no_auth, header, basic, custom, oauth2, HttpSource,
}

-- Why a fetch fails.
pub data Failure : Type 0 where
  bad_url untrusted clock_overflow form_body invalid_body body_not_object : Failure
  request_failed read_failed not_json too_many_pages too_many_rows required_filter : Failure
  refused : Refusal → Failure
  credential api_error : Text → Failure
  not_rows : Value → Failure

pub record Request (C : Crates) : Type 0 where
  pub method : Text
  pub url : C.Location
  pub headers : List (Text × Text)
  pub body : Option Text

-- `RequestBuilder::header`, which appends.
unfoldable pub with_header : {C : Crates} → Text → Text → Request C → Request C
with_header k v req = record {
  method = req.method;
  url = req.url;
  headers = req.headers ++ (k, v) ∷ [];
  body = req.body;
}

-- `strip_suffix('}')`
unfoldable pub strip_brace : Text → Option Text
strip_brace [] = none
strip_brace (c ∷ []) = if c == b'}' then some [] else none
strip_brace (c ∷ d ∷ s) = elim (strip_brace (d ∷ s)) [ none ↦ none | some t ↦ some (c ∷ t) ]

-- The name of a reference whose text after `${` is given.
unfoldable pub var_target : Text → Option Text
unfolding strip_brace cut_at
var_target t = elim (strip_brace t) [
  | none ↦ none
  | some body ↦
      let (prefix, from) = cut_at b':' body in
      elim from [
        | [] ↦ none
        | c ∷ target ↦ if text_eq prefix (codes "var") then some target else none
      ]
]

unfoldable pub parse_var_ref : Text → Option Text
unfolding var_target trim strip_prefix
parse_var_ref s = elim (strip_prefix (codes "${") (trim s)) [ none ↦ none | some t ↦ var_target t ]

unfoldable pub resolve_dynamic : {C : Crates} → HttpSource C → Text → Result Text Failure
unfolding parse_var_ref get
resolve_dynamic source raw = elim (parse_var_ref raw) [
  | none ↦ ok raw
  | some name ↦ elim (get name source.dynamic) [
    | none ↦ ok raw
    | some id ↦ elim (source.resolve id) [ ok value ↦ ok value | err e ↦ err (credential e) ]
  ]
]

-- A cached token, with the second of the Unix clock at which it expires.
pub record CachedToken : Type 0 where
  pub token : Text
  pub expires_at : ℕ

-- What the token endpoint answers to a form: a failure to send, or a status with the JSON of the body and
-- the time at which it was read.
pub data TokenReply : Type 0 where
  unsent : Text → TokenReply
  replied : (status : ℕ) → (body : Option Value) → (at : ℕ) → TokenReply

-- A sum on `SystemTime`, which panics from the second 2 ^ 63 on.
abbrev pub time_sum : ℕ → ℕ → Option ℕ
time_sum a b = if ltb (a + b) 9223372036854775808 then some (a + b) else none

-- The form of the exchange.
abbrev when_some : Text → Option Text → List (Text × Text)
when_some k none = []
when_some k (some v) = (k, v) ∷ []

unfoldable pub token_form :
    (client_id client_secret : Text) → (scope audience : Option Text) → List (Text × Text)
token_form client_id client_secret scope audience =
    (codes "grant_type", codes "client_credentials")
    ∷ (codes "client_id", client_id)
    ∷ (codes "client_secret", client_secret)
    ∷ (when_some (codes "scope") scope ++ when_some (codes "audience") audience)

-- `as_u64`
abbrev as_u64 : Value → Option ℕ
as_u64 (number n) = parse_unsigned 18446744073709551616 n
as_u64 _ = none

unfoldable pub expires_in : Value → ℕ
unfolding get_key parse_unsigned
expires_in body = elim (get_key body (codes "expires_in")) [
  | none ↦ 300
  | some v ↦ elim (as_u64 v) [ none ↦ 300 | some n ↦ n ]
]

-- The token of a reply.
unfoldable pub token_of : TokenReply → Result CachedToken Failure
unfolding get_key expires_in
token_of (unsent e) = err (credential e)
token_of (replied status body at) =
    if not (leb 200 status && ltb status 300)
    then err (credential (codes "oauth token request returned"))
    else elim body [
      | none ↦ err (credential (codes "oauth token response was not JSON"))
      | some v ↦ elim (get_key v (codes "access_token")) [
        | none ↦ err (credential (codes "oauth token response missing `access_token`"))
        | some t ↦ elim (as_str t) [
          | none ↦ err (credential (codes "oauth token response missing `access_token`"))
          | some token ↦ elim (time_sum at (expires_in v)) [
            | none ↦ err clock_overflow
            | some expires_at ↦ ok (record { token = token; expires_at = expires_at })
          ]
        ]
      ]
    ]

-- The token, and the cache after the call. `exchange` is the token endpoint and `now` the clock.
unfoldable pub oauth_bearer :
    AuthSpec
    → (exchange : Text → List (Text × Text) → TokenReply) → (now : ℕ) → Option CachedToken
    → Option CachedToken × Result Text Failure
unfolding token_form token_of
oauth_bearer (oauth2 token_url client_id client_secret scope audience) exchange now cached =
    let fresh = token_of (exchange token_url (token_form client_id client_secret scope audience)) in
    let fetched : Option CachedToken × Result Text Failure = elim fresh [
      | ok t ↦ (some t, ok t.token)
      | err e ↦ (cached, err e)
    ] in
    elim cached [
      | some c ↦ if ltb (now + 30) c.expires_at then (some c, ok c.token) else fetched
      | none ↦ fetched
    ]
oauth_bearer _ exchange now cached =
    (cached, err (credential (codes "oauth_bearer called for non-OAuth2 source")))

-- The headers of a `type: header` block, in order.
unfoldable pub auth_headers :
    {C : Crates} → HttpSource C → List AuthHeader → Request C → Result (Request C) Failure
unfolding resolve_dynamic with_header
auth_headers source [] req = ok req
auth_headers source (h ∷ hs) req = elim h.bearer [
  | some b ↦
      resolve_dynamic source b
      >>= (λ token. auth_headers source hs (with_header h.name (codes "Bearer " ++ token) req))
  | none ↦ elim h.value [
    | some v ↦
        resolve_dynamic source v
        >>= (λ value. auth_headers source hs (with_header h.name value req))
    | none ↦ auth_headers source hs req
  ]
]

unfoldable pub query_pairs :
    {C : Crates} → HttpSource C → List QueryCredential → Result (List (Text × Text)) Failure
unfolding resolve_dynamic
query_pairs source [] = ok []
query_pairs source (q ∷ qs) =
    resolve_dynamic source q.value
    >>= (λ v. query_pairs source qs >>= (λ rest. ok ((q.name, v) ∷ rest)))

unfoldable pub with_query : {C : Crates} → List (Text × Text) → Request C → Request C
with_query {C} pairs req = record {
  method = req.method;
  url = C.append_pairs req.url pairs;
  headers = req.headers;
  body = req.body;
}

abbrev pub has_auth : AuthSpec → Bool
has_auth no_auth = false
has_auth _ = true

-- The credentials on a request whose target was tested.
unfoldable pub with_credentials :
    {C : Crates}
    → HttpSource C
    → (exchange : Text → List (Text × Text) → TokenReply) → (now : ℕ) → AuthSpec
    → Option CachedToken
    → Request C
    → Option CachedToken × Result (Request C) Failure
unfolding auth_headers query_pairs with_query oauth_bearer resolve_dynamic with_header
with_credentials source exchange now no_auth cached req = (cached, ok req)
with_credentials source exchange now (header hs) cached req = (cached, auth_headers source hs req)
with_credentials {C} source exchange now (basic username password) cached req = (
  cached,
  resolve_dynamic source password
      >>= (λ p. ok (with_header (codes "authorization") (C.basic_auth username p) req)),
)
with_credentials source exchange now (custom query body) cached req =
    (cached, query_pairs source query >>= (λ pairs. ok (with_query pairs req)))
with_credentials source exchange now (oauth2 u i s sc a) cached req =
    let (cached', token) = oauth_bearer (oauth2 u i s sc a) exchange now cached in
    (cached', token >>= (λ t. ok (with_header (codes "authorization") (codes "Bearer " ++ t) req)))

unfoldable pub apply_auth :
    {C : Crates}
    → HttpSource C
    → (exchange : Text → List (Text × Text) → TokenReply) → (now : ℕ) → Option CachedToken
    → Request C
    → Option CachedToken × Result (Request C) Failure
unfolding with_credentials is_trusted
apply_auth {C} source exchange now cached req =
    if has_auth source.auth
      && not (is_trusted (C.view req.url) (C.view source.base_url) source.allowed_hosts)
    then (cached, err untrusted)
    else with_credentials source exchange now source.auth cached req
