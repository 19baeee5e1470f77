-- ===== src/Http/Source.antt =====
-- `HttpSource`, `AuthSpec`, `RetryConfig` and `RateLimitPolicy`
-- (crates/pawrly-sources/http/src/source.rs), and the crates that a request goes through.
use pawrly.Prelude.{
  ℕ, Text, ◌≡◌, Bool, Option, none, some, List, [], ◌∷◌, to_ascii_lowercase, get, Result,
}
use pawrly.Guard.Host.{HostPattern}
use pawrly.Guard.Target.{Url}
use pawrly.Http.Json.{Value, Fields, insert_field, string}

-- What the source uses of the crates url, serde_json, base64, chrono and reqwest. `append_pairs` is
-- `query_pairs_mut().append_pair` for each pair; it changes nothing of a URL that the target policy asks
-- of it. A signed number is its sign with its size, a float its bits; `rfc3339` prints the time of a
-- number of seconds or milliseconds, and `naive_days` is a date in days of the Unix epoch.
pub record Crates : Type 1 where
  pub Location : Type 0
  pub view : Location → Url
  pub parse_url : Text → Option Location
  pub join : Location → Text → Option Location
  pub append_pairs : Location → List (Text × Text) → Location
  pub view-append_pairs :
      (u : Location) (pairs : List (Text × Text)) → view (append_pairs u pairs) ≡ view u
  pub from_json : Text → Option Value
  pub to_json : Value → Text
  pub parse_method : Text → Option Text
  pub basic_auth : Text → Text → Text
  pub base64_text : Text → Option Text
  pub rfc3339 : Text → (millis : Bool) → Option Text
  pub as_i64 : Text → Option (Bool × ℕ)
  pub f64_to_i64 : Text → Option (Bool × ℕ)
  pub as_f64 : Text → Option ℕ
  pub parse_f64 : Text → Option ℕ
  pub rfc3339_micros : Text → Option (Bool × ℕ)
  pub naive_micros : (format : Text) → Text → Option (Bool × ℕ)
  pub naive_days : Text → Option (Bool × ℕ)

-- The secrets are texts.
pub record AuthHeader : Type 0 where
  pub name : Text
  pub bearer : Option Text
  pub value : Option Text

pub record QueryCredential : Type 0 where
  pub name : Text
  pub value : Text

pub data AuthSpec : Type 0 where
  no_auth : AuthSpec
  header : List AuthHeader → AuthSpec
  basic : (username password : Text) → AuthSpec
  custom : (query body : List QueryCredential) → AuthSpec
  oauth2 : (token_url client_id client_secret : Text) → (scope audience : Option Text) → AuthSpec

unfoldable pub custom_body_object : List QueryCredential → Fields → Fields
unfolding insert_field
custom_body_object [] fs = fs
custom_body_object (c ∷ cs) fs = custom_body_object cs (insert_field c.name (string c.value) fs)

unfoldable pub custom_body_fields : AuthSpec → List QueryCredential
custom_body_fields (custom query body) = body
custom_body_fields _ = []

pub record RetryConfig : Type 0 where
  pub max_retries : ℕ
  pub base_backoff_ms : ℕ
  pub max_backoff_ms : ℕ

pub record RateLimitPolicy : Type 0 where
  pub remaining_header : Option Text
  pub reset_header : Option Text
  pub extra_statuses : List ℕ

-- The headers of a response, with the value of each where it is text; their names are in lower case.
abbrev pub HeaderMap : Type 0
HeaderMap = List (Text × Option Text)

-- `headers.get(name)?.to_str().ok()`
unfoldable pub header_text : Text → HeaderMap → Option Text
unfolding get to_ascii_lowercase
header_text name headers = elim (get (to_ascii_lowercase name) headers) [ none ↦ none | some v ↦ v ]

-- A source. `resolve` is what its store of variables answers for the identifier of a variable.
pub record HttpSource (C : Crates) : Type 0 where
  pub base_url : C.Location
  pub allowed_hosts : List HostPattern
  pub auth : AuthSpec
  pub headers : List (Text × Text)
  pub retry : RetryConfig
  pub rate_limit : RateLimitPolicy
  pub dynamic : List (Text × ℕ)
  pub resolve : ℕ → Result Text Text
