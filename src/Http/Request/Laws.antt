-- ===== src/Http/Request/Laws.antt =====
-- Where requests go, and with which credentials.
use mathlib.Core.Path.{subst}
use pawrly.Prelude.{
  ℕ, Text, codes, ◌≡◌, refl, sym, Bool, true, false, ◌&&◌, not, Option, none, some, List, [], ◌∷◌,
  ◌++◌, is_empty, inl, inr, ok, OnOk, OnOk-bind, OnOk-map, OnOk-ok, Result-cases, Option-cases,
  Bool-cases, trim_start_matches, ◌==◌, arith,
}
use pawrly.Guard.Target.{Url, check_target, is_trusted}
use pawrly.Http.Source.{
  Crates, AuthHeader, QueryCredential, AuthSpec, no_auth, header, basic, custom, oauth2, HttpSource,
}
use pawrly.Http.Table.{BodyKind, json, RequestBody, HttpTableSpec}
use pawrly.Http.Paginate.Next.{Params}
use pawrly.Http.Auth.{
  Request, with_header, with_query, CachedToken, TokenReply, resolve_dynamic, oauth_bearer,
  auth_headers, query_pairs, with_credentials, apply_auth, has_auth,
}
use pawrly.Http.Request.Attach.{
  with_body, with_content_type, has_content_type, attach_parts, attach_body, merged_body,
}
use pawrly.Http.Request.{
  Explode, Shape, fill_path, explode_pairs, build_url, page_url, bare_request, page_request,
}

and_not : (a b : Bool) → (a && not b) ≡ false → a ≡ true → b ≡ true
and_not a b h e = ground arith

module _ {C : Crates} (source : HttpSource C) where
  -- The target was checked.
  abbrev pub ChecksOut : Url → Type 0
  ChecksOut u = check_target u (C.view source.base_url) source.allowed_hosts ≡ ok tt

  -- A source with credentials sends the request where they may go.
  abbrev pub TrustsTarget : Url → Type 0
  TrustsTarget u =
      (has_auth source.auth ≡ true)
      → is_trusted u (C.view source.base_url) source.allowed_hosts ≡ true

  build_url-ChecksOut :
      (endpoint : Text) (params : Params) (template : Option Text) (explode : Explode)
      → OnOk
          (λ u. ChecksOut (C.view u))
          (build_url C source.base_url source.allowed_hosts endpoint params template explode)
  unfolding build_url
  build_url-ChecksOut endpoint params template explode =
      let (path, query) = fill_path template params endpoint [] in
      let pairs = query ++ explode_pairs explode in
      elim (Option-cases (C.join source.base_url (trim_start_matches (λ c. c == b'/') path))) [
        | inl n ↦ rw (n, OnOk) tt
        | inr (u, e) ↦
            elim (Result-cases
              (check_target (C.view u) (C.view source.base_url) source.allowed_hosts)) [
                | inr (r, k) ↦ rw (e, OnOk) (rw (k, OnOk) tt)
                | inl (_, k) ↦ elim (Bool-cases (is_empty pairs)) [
                  | inl t ↦ rw (e, OnOk) (rw (k, OnOk) (rw (t, OnOk) k))
                  | inr f ↦
                      rw (e, OnOk)
                        (rw (k, OnOk)
                          (rw (f, OnOk) (subst ChecksOut (sym (C.view-append_pairs u pairs)) k)))
                ]
              ]
      ]

  -- A request that was made from another keeps its target.
  abbrev KeepsTarget : Request C → Request C → Type 0
  KeepsTarget req req' = C.view req'.url ≡ C.view req.url

  auth_headers-KeepsTarget :
      (hs : List AuthHeader) (req : Request C) → OnOk (KeepsTarget req) (auth_headers source hs req)
  unfolding auth_headers with_header
  auth_headers-KeepsTarget [] req = refl
  auth_headers-KeepsTarget (h ∷ hs) req = elim (Option-cases h.bearer) [
    | inr (b, e) ↦
        rw (e, OnOk)
          (OnOk-bind (KeepsTarget req) (resolve_dynamic source b) _
            (λ t _. auth_headers-KeepsTarget hs (with_header h.name (codes "Bearer " ++ t) req)))
    | inl n ↦ elim (Option-cases h.value) [
      | inr (v, e) ↦
          rw (n, OnOk)
            (rw (e, OnOk)
              (OnOk-bind (KeepsTarget req) (resolve_dynamic source v) _
                (λ t _. auth_headers-KeepsTarget hs (with_header h.name t req))))
      | inl m ↦ rw (n, OnOk) (rw (m, OnOk) (auth_headers-KeepsTarget hs req))
    ]
  ]

  with_credentials-KeepsTarget :
      (exchange : Text → List (Text × Text) → TokenReply) (now : ℕ) (auth : AuthSpec)
      (cached : Option CachedToken) (req : Request C)
      → OnOk (KeepsTarget req) (with_credentials source exchange now auth cached req).1
  unfolding with_credentials with_header with_query
  with_credentials-KeepsTarget exchange now no_auth cached req = refl
  with_credentials-KeepsTarget exchange now (header hs) cached req = auth_headers-KeepsTarget hs req
  with_credentials-KeepsTarget exchange now (basic username password) cached req =
      OnOk-bind (KeepsTarget req) (resolve_dynamic source password) _ (λ p _. refl)
  with_credentials-KeepsTarget exchange now (custom query body) cached req =
      OnOk-bind (KeepsTarget req) (query_pairs source query) _
        (λ pairs _. C.view-append_pairs req.url pairs)
  with_credentials-KeepsTarget exchange now (oauth2 u i s sc a) cached req =
      OnOk-bind (KeepsTarget req) (oauth_bearer (oauth2 u i s sc a) exchange now cached).1 _
        (λ t _. refl)

  with_content_type-KeepsTarget :
      (spec : HttpTableSpec) (kind : BodyKind) (req : Request C)
      → KeepsTarget req (with_content_type source spec kind req)
  unfolding with_content_type with_header
  with_content_type-KeepsTarget spec kind req = elim (Bool-cases (has_content_type source spec)) [
    | inl t ↦ rw t refl
    | inr f ↦ rw f refl
  ]

  attach_parts-KeepsTarget :
      (spec : HttpTableSpec) (cursor path : Option Text) (params : Params)
      (body : Option RequestBody) (fields : List QueryCredential) (req : Request C)
      → OnOk (KeepsTarget req) (attach_parts source spec cursor path params body fields req)
  unfolding attach_parts with_body
  attach_parts-KeepsTarget spec cursor path params (some tbody) [] req =
      with_content_type-KeepsTarget spec tbody.kind req
  attach_parts-KeepsTarget spec cursor path params (some tbody) (f ∷ fs) req =
      OnOk-bind (KeepsTarget req) (merged_body C tbody (f ∷ fs) cursor path _) _
        (λ text _. with_content_type-KeepsTarget spec json req)
  attach_parts-KeepsTarget spec cursor path params none (f ∷ fs) req =
      with_content_type-KeepsTarget spec json req
  attach_parts-KeepsTarget spec cursor path params none [] req = refl

  -- The target of the request was checked, and may get the credentials.
  abbrev pub IsSafe : Request C → Type 0
  IsSafe req = ChecksOut (C.view req.url) × TrustsTarget (C.view req.url)

  apply_auth-IsSafe :
      (exchange : Text → List (Text × Text) → TokenReply) (now : ℕ) (cached : Option CachedToken)
      (req : Request C)
      → ChecksOut (C.view req.url)
      → OnOk IsSafe (apply_auth source exchange now cached req).1
  unfolding apply_auth
  apply_auth-IsSafe exchange now cached req h =
      elim (Bool-cases (has_auth source.auth && not trusted)) [
        | inl t ↦ rw (t, OnOk) tt
        | inr f ↦
            rw (f, OnOk)
              (OnOk-map (KeepsTarget req) IsSafe _ (carried f)
                (with_credentials-KeepsTarget exchange now source.auth cached req))
      ]
    where
      trusted : Bool
      trusted = is_trusted (C.view req.url) (C.view source.base_url) source.allowed_hosts

      carried :
          (has_auth source.auth && not trusted) ≡ false
          → (a : Request C) → KeepsTarget req a
          → IsSafe a
      carried f a k = subst (λ u. ChecksOut u × TrustsTarget u) (sym k) (h, and_not _ trusted f)

  attach_body-IsSafe :
      (spec : HttpTableSpec) (body : Option RequestBody) (params : Params) (cursor : Option Text)
      (req : Request C)
      → IsSafe req
      → OnOk IsSafe (attach_body source spec body params cursor req)
  unfolding attach_body
  attach_body-IsSafe spec body params cursor req h =
      OnOk-map (KeepsTarget req) IsSafe _
        (λ a k. subst (λ u. ChecksOut u × TrustsTarget u) (sym k) h)
        (attach_parts-KeepsTarget spec cursor _ params body _ req)

  -- The URL that pagination gave, where there is one, was checked.
  abbrev pub IsChecked : Option C.Location → Type 0
  IsChecked none = Unit
  IsChecked (some u) = ChecksOut (C.view u)

  page_url-ChecksOut :
      (shape : Shape) (params : Params) (explode : Explode) (next_url : Option C.Location)
      → IsChecked next_url
      → OnOk (λ u. ChecksOut (C.view u)) (page_url source shape params explode next_url)
  unfolding page_url
  page_url-ChecksOut shape params explode none h =
      build_url-ChecksOut shape.endpoint params
        (elim shape.body [ none ↦ none | some b ↦ some b.template ]) explode
  page_url-ChecksOut shape params explode (some u) h = h

  pub page_request-IsSafe :
      (spec : HttpTableSpec) (exchange : Text → List (Text × Text) → TokenReply) (now : ℕ)
      (cached : Option CachedToken) (shape : Shape) (params : Params) (explode : Explode)
      (next_url : Option C.Location) (cursor : Option Text)
      → IsChecked next_url
      → OnOk IsSafe
          (page_request source spec exchange now cached shape params explode next_url cursor).1
  unfolding page_request bare_request
  page_request-IsSafe spec exchange now cached shape params explode next_url cursor h =
      elim (Result-cases (page_url source shape params explode next_url)) [
        | inr (e, q) ↦ rw (q, OnOk) tt
        | inl (url, q) ↦
            let made = apply_auth source exchange now cached (bare_request source spec shape url) in
            let checked : ChecksOut (C.view url) =
              OnOk-ok (λ u. ChecksOut (C.view u)) _ url
                (page_url-ChecksOut shape params explode next_url h) q in
            rw (q, OnOk)
              (OnOk-bind IsSafe made.1 _ (λ req e.
                attach_body-IsSafe spec shape.body params cursor req (
                  OnOk-ok IsSafe made.1 req
                    (apply_auth-IsSafe exchange now cached (bare_request source spec shape url)
                      checked)
                    e)))
      ]
