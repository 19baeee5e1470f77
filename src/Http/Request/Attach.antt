-- ===== src/Http/Request/Attach.antt =====
-- The body of a request, and the header that goes with it (`fetch_rows` and `has_content_type`,
-- crates/pawrly-sources/http/src/typed.rs).
use pawrly.Prelude.{
  Text, codes, Bool, false, ◌||◌, Option, none, some, List, [], ◌∷◌, if◌then◌else◌, Result, ok, err,
  ◌>>=◌, eq_ignore_ascii_case, to_ascii_lowercase,
}
use pawrly.Http.Json.{Value, string, object, end}
use pawrly.Http.Source.{Crates, QueryCredential, HttpSource, custom_body_object, custom_body_fields}
use pawrly.Http.Table.{ParamSpec, BodyKind, json, form, RequestBody, HttpTableSpec}
use pawrly.Http.Paginate.JsonPath.{set_json_at_path}
use pawrly.Http.Paginate.Next.{Params, PaginationConfig, body_cursor}
use pawrly.Http.Body.{render_template, render_json_body}
use pawrly.Http.Auth.{Failure, form_body, invalid_body, body_not_object, Request, with_header}

-- Whether some header has the name, in any case of letters.
unfoldable pub has_header : Text → List (Text × Text) → Bool
unfolding to_ascii_lowercase
has_header name [] = false
has_header name ((k, v) ∷ hs) = eq_ignore_ascii_case k name || has_header name hs

unfoldable pub has_content_type : {C : Crates} → HttpSource C → HttpTableSpec → Bool
unfolding has_header
has_content_type source spec =
    has_header (codes "content-type") source.headers
    || has_header (codes "content-type") spec.headers

unfoldable pub with_body : {C : Crates} → Text → Request C → Request C
with_body body req = record {
  method = req.method;
  url = req.url;
  headers = req.headers;
  body = some body;
}

-- The default `Content-Type`, unless one is pinned.
unfoldable pub with_content_type :
    {C : Crates} → HttpSource C → HttpTableSpec → BodyKind → Request C → Request C
unfolding has_content_type with_header
with_content_type source spec kind req =
    if has_content_type source spec
    then req
    else with_header (codes "content-type")
        (elim kind [
          | json ↦ codes "application/json"
          | form ↦ codes "application/x-www-form-urlencoded"
        ])
        req

-- Where a body cursor is written.
unfoldable pub body_cursor_path : Option PaginationConfig → Option Text
body_cursor_path (some (body_cursor cursor_path next_path)) = some cursor_path
body_cursor_path _ = none

-- The cursor of the page, written into a value; without one, or where it cannot be written, what stands
-- there. The flag says whether it was written.
unfoldable pub inject_cursor : Option Text → Option Text → Value → Bool × Value
unfolding set_json_at_path
inject_cursor (some cursor) (some path) v = set_json_at_path v path (string cursor)
inject_cursor _ _ v = (false, v)

-- The body of a table as its kind renders it, and with the cursor where it can be written.
unfoldable pub render_body : (C : Crates) → RequestBody → Params → List ParamSpec → Text
unfolding render_json_body render_template
render_body C tbody params declared = elim tbody.kind [
  | json ↦ render_json_body C.from_json C.to_json tbody.template params declared
  | form ↦ render_template tbody.template params
]

unfoldable pub cursored : (C : Crates) → Option Text → Option Text → Text → Text
unfolding inject_cursor
cursored C none path rendered = rendered
cursored C (some cursor) none rendered = rendered
cursored C (some cursor) (some path) rendered = elim (C.from_json rendered) [
  | none ↦ rendered
  | some v ↦
      let (done, w) = inject_cursor (some cursor) (some path) v in
      if done then C.to_json w else rendered
]

-- The fields of the credentials on a value that must be an object.
unfoldable pub merge_auth : List QueryCredential → Value → Result Value Failure
unfolding custom_body_object
merge_auth auth_body (object fs) = ok (object (custom_body_object auth_body fs))
merge_auth auth_body v = err body_not_object

unfoldable pub merged_body :
    (C : Crates)
    → RequestBody
    → List QueryCredential
    → Option Text
    → Option Text
    → Text
    → Result Text Failure
unfolding merge_auth inject_cursor
merged_body C tbody auth_body cursor path rendered = elim tbody.kind [
  | form ↦ err form_body
  | json ↦ elim (C.from_json rendered) [
    | none ↦ err invalid_body
    | some v ↦ merge_auth auth_body v >>= (λ w. ok (C.to_json (inject_cursor cursor path w).1))
  ]
]

-- The four cases of a table's body and the credentials' body, with the cursor and where it is written.
unfoldable pub attach_parts :
    {C : Crates}
    → HttpSource C
    → HttpTableSpec
    → (cursor path : Option Text) → Params
    → Option RequestBody
    → List QueryCredential
    → Request C
    → Result (Request C) Failure
unfolding with_body with_content_type render_body cursored merged_body
attach_parts {C} source spec cursor path params (some tbody) [] req = ok (
    with_body (cursored C cursor path (render_body C tbody params spec.params))
      (with_content_type source spec tbody.kind req))
attach_parts {C} source spec cursor path params (some tbody) (f ∷ fs) req =
    merged_body C tbody (f ∷ fs) cursor path (render_body C tbody params spec.params)
    >>= (λ text. ok (with_body text (with_content_type source spec json req)))
attach_parts {C} source spec cursor path params none (f ∷ fs) req = ok (
    with_body (C.to_json (object (custom_body_object (f ∷ fs) end)))
      (with_content_type source spec json req))
attach_parts source spec cursor path params none [] req = ok req

unfoldable pub attach_body :
    {C : Crates}
    → HttpSource C
    → HttpTableSpec
    → Option RequestBody
    → Params
    → Option Text
    → Request C
    → Result (Request C) Failure
unfolding attach_parts body_cursor_path custom_body_fields
attach_body source spec body params cursor req =
    attach_parts source spec cursor (body_cursor_path spec.pagination) params body
      (custom_body_fields source.auth) req
