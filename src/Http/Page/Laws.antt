-- ===== src/Http/Page/Laws.antt =====
-- Where a round of the loop leads to.
use pawrly.Prelude.{
  ℕ, zero, suc, ◌≤◌, ◌<◌, ◌≡◌, refl, true, false, Option, none, some, List, [], ◌∷◌, length, inl,
  inr, ◌≢◌, sym, ap, ◌∙◌, ◌&&◌, ◌==◌, codes, Result, ok, err, OnOk, Result-cases, Option-cases,
  Bool-cases, arith, leb,
}
use pawrly.Guard.Target.{check_target}
use pawrly.Http.Json.{Value, null}
use pawrly.Http.Source.{Crates, HeaderMap, header_text}
use pawrly.Http.Paginate.Next.{NextPage, params, url, body_cursor_at, next_page}
use pawrly.Http.Response.{extract_rows}
use pawrly.Http.Auth.{Failure, too_many_pages, Request, CachedToken}
use pawrly.Http.Retry.{Response, Sent, compute_throttle, send_with_retry_inner}
use pawrly.Http.Request.{Explode, Shape}
use pawrly.Http.Request.Laws.{IsChecked, IsSafe, page_request-IsSafe}
use pawrly.Http.Page.{
  HttpTableProvider, World, FetchState, PageStep, PageRun, stop, go, reached, exceeded,
  declared_error, truncate, finish, advance, after_rows, add_rows, read_body, receive, with_token,
  send_page, fetch_page, page_cap,
}

pub length-truncate : (l : ℕ) (rows : List Value) → length (truncate (some l) rows) ≤ l
unfolding truncate
length-truncate zero rows = omega arith
length-truncate (suc l) [] = omega arith
length-truncate (suc l) (r ∷ rows) = omega (arith, length-truncate l rows)

-- Rows that keep to the limit or, where there is none, to the cap on rows.
abbrev pub IsWithin : (limit max_rows : Option ℕ) → List Value → Type 0
IsWithin (some l) m rows = length rows ≤ l
IsWithin none (some m) rows = length rows ≤ m
IsWithin none none rows = Unit

abbrev pub KeepsWithin : (limit max_rows : Option ℕ) → Result (List Value) Failure → Type 0
KeepsWithin limit max_rows (ok rows) = IsWithin limit max_rows rows
KeepsWithin limit max_rows (err e) = Unit

truncate-IsWithin :
    (limit max_rows : Option ℕ) (rows : List Value)
    → ((limit ≡ none) → IsWithin none max_rows rows)
    → IsWithin limit max_rows (truncate limit rows)
unfolding truncate
truncate-IsWithin none max_rows rows h = h refl
truncate-IsWithin (some l) max_rows rows h = length-truncate l rows

exceeded-IsWithin :
    (max_rows : Option ℕ) (rows : List Value)
    → exceeded max_rows (length rows) ≡ false
    → IsWithin none max_rows rows
exceeded-IsWithin none rows h = tt
exceeded-IsWithin (some m) rows h = ground arith

reached_some : (limit : Option ℕ) (n : ℕ) → reached limit n ≡ true → limit ≢ none
reached_some limit n h e = cc (sym h ∙ ap (λ l. reached l n) e)

module _ {C : Crates} (provider : HttpTableProvider C) (limit : Option ℕ) where
  -- Between rounds, without a limit, the rows keep to the cap, and the URL was checked.
  pub record IsSound (s : FetchState C) : Type 0 where
    pub capped : IsWithin none provider.max_rows s.all_rows
    pub checked : IsChecked provider.source s.next_url

  -- A round ends with rows that keep to the bounds, or leads to a sound state for the next page.
  abbrev pub Leads : ℕ → PageStep C → Type 0
  Leads page_index (stop r) = KeepsWithin limit provider.max_rows r
  Leads page_index (go t) = IsSound t × (t.page_index ≡ suc page_index)

  finish-Leads :
      (s : FetchState C) (i : ℕ)
      → ((limit ≡ none) → IsWithin none provider.max_rows s.all_rows)
      → Leads i (finish limit s)
  unfolding finish
  finish-Leads s i h = truncate-IsWithin limit provider.max_rows s.all_rows h

  advance-Leads :
      (s : FetchState C) (page : NextPage)
      → IsWithin none provider.max_rows s.all_rows
      → Leads s.page_index (advance provider s page)
  unfolding advance
  advance-Leads s (params p) h = (record { capped = h; checked = tt }, refl)
  advance-Leads s (body_cursor_at c) h = (record { capped = h; checked = tt }, refl)
  advance-Leads s (url u) h = elim (Option-cases (C.parse_url u)) [
    | inl n ↦ rw (n, Leads) tt
    | inr (parsed, e) ↦
        elim (Result-cases (
          check_target (C.view parsed) (C.view provider.source.base_url)
            provider.source.allowed_hosts)) [
              | inl (_, k) ↦
                  rw (e, Leads) (rw (k, Leads) (record { capped = h; checked = k }, refl))
              | inr (r, k) ↦ rw (e, Leads) (rw (k, Leads) tt)
            ]
  ]

  after_rows-Leads :
      (body : Value) (headers : HeaderMap) (page_rows : List Value) (s : FetchState C)
      → Leads s.page_index (after_rows provider limit body headers page_rows s)
  unfolding after_rows
  after_rows-Leads body headers page_rows s =
      elim (Bool-cases (reached limit (length s.all_rows))) [
        | inl t ↦
            rw (t, Leads)
              (finish-Leads s s.page_index
                (λ n. absurd (reached_some limit (length s.all_rows) t n)))
        | inr f ↦ elim (Bool-cases (exceeded provider.max_rows (length s.all_rows))) [
          | inl t ↦ rw (f, Leads) (rw (t, Leads) tt)
          | inr g ↦
              let within = exceeded-IsWithin provider.max_rows s.all_rows g in
              let done = finish-Leads s s.page_index (λ _. within) in
              elim (Option-cases provider.spec.pagination) [
                | inl n ↦ rw (f, Leads) (rw (g, Leads) (rw (n, Leads) done))
                | inr (config, e) ↦
                    elim (Option-cases (
                      next_page config s.next_params body (header_text (codes "link") headers)
                        page_rows s.page_index)) [
                          | inl n ↦
                              rw (f, Leads) (rw (g, Leads) (rw (e, Leads) (rw (n, Leads) done)))
                          | inr (page, q) ↦
                              rw (f, Leads)
                                (rw (g, Leads)
                                  (rw (e, Leads) (rw (q, Leads) (advance-Leads s page within))))
                        ]
              ]
        ]
      ]

  read_body-Leads :
      (resp : Response) (s : FetchState C) (body : Option Value)
      → Leads s.page_index (read_body provider limit resp s body)
  unfolding read_body add_rows
  read_body-Leads resp s none =
      elim (Option-cases (declared_error C.to_json provider.spec.response.error resp.status null)) [
        | inl n ↦ rw (n, Leads) tt
        | inr (msg, e) ↦ rw (e, Leads) tt
      ]
  read_body-Leads resp s (some body) =
      elim (Option-cases (declared_error C.to_json provider.spec.response.error resp.status body)) [
        | inr (msg, e) ↦ rw (e, Leads) tt
        | inl n ↦ elim (Result-cases (extract_rows body provider.spec.response)) [
          | inl (rows, e) ↦
              rw (n, Leads)
                (rw (e, Leads) (after_rows-Leads body resp.headers rows (add_rows rows s)))
          | inr (v, e) ↦ rw (n, Leads) (rw (e, Leads) tt)
        ]
      ]

  receive-Leads :
      (s : FetchState C) (resp : Response)
      → IsWithin none provider.max_rows s.all_rows
      → Leads s.page_index (receive provider limit s resp)
  unfolding receive
  receive-Leads s resp h =
      elim (Result-cases (compute_throttle provider.source.rate_limit resp.headers)) [
        | inr (e, q) ↦ rw (q, Leads) tt
        | inl (_, q) ↦
            elim (Bool-cases (resp.status == 404 && provider.spec.response.allow_404_empty)) [
              | inl t ↦ rw (q, Leads) (rw (t, Leads) (finish-Leads s s.page_index (λ _. h)))
              | inr f ↦ elim (Option-cases resp.text) [
                | inl n ↦ rw (q, Leads) (rw (f, Leads) (rw (n, Leads) tt))
                | inr (text, e) ↦
                    rw (q, Leads)
                      (rw (f, Leads) (rw (e, Leads) (read_body-Leads resp s (C.from_json text))))
              ]
            ]
      ]

  -- The request of a round, where there is one, is safe to send.
  abbrev pub SendsSafely : Option (Request C) → Type 0
  SendsSafely none = Unit
  SendsSafely (some req) = IsSafe provider.source req

  -- What a round does: it sends a safe request or none, none where the pages are used up, and leads on.
  pub record IsRound (s : FetchState C) (run : PageRun C) : Type 0 where
    pub safe : SendsSafely run.request
    pub leads : Leads s.page_index run.step
    pub capped :
        page_cap provider ≤ s.page_index
        → (run.request ≡ none) × (run.step ≡ stop (err too_many_pages))

  send_page-IsRound :
      (world : World C) (s : FetchState C) (token : Option CachedToken)
      (made : Result (Request C) Failure)
      → s.page_index < page_cap provider
      → IsSound s
      → OnOk (IsSafe provider.source) made
      → IsRound s (send_page provider world limit s token made)
  unfolding send_page with_token
  send_page-IsRound world s token (err e) lt sound safe = record {
    safe = tt;
    leads = tt;
    capped = λ le. absurd (omega arith);
  }
  send_page-IsRound world s token (ok req) lt sound safe = record {
    safe = safe;
    leads = elim (Result-cases sent.answer) [
      | inl (resp, e) ↦ rw (e, Leads) (receive-Leads (with_token token s) resp sound.capped)
      | inr (f, e) ↦ rw (e, Leads) tt
    ];
    capped = λ le. absurd (omega arith);
  }
    where
      sent : Sent
      sent =
          send_with_retry_inner provider.source.retry provider.source.rate_limit
            (world.cloneable req) (world.try s.page_index req) (world.now_ms s.page_index)

  pub fetch_page-IsRound :
      (world : World C) (shape : Shape) (explode : Explode) (s : FetchState C)
      → IsSound s
      → IsRound s (fetch_page provider world shape explode limit s)
  unfolding fetch_page
  fetch_page-IsRound world shape explode s sound =
      elim (Bool-cases (leb (page_cap provider) s.page_index)) [
        | inl t ↦ rw t (record { safe = tt; leads = tt; capped = λ _. (refl, refl) })
        | inr f ↦ rw f (
            send_page-IsRound world s _ _ (ground arith) sound (
              page_request-IsSafe provider.source provider.spec (world.exchange s.page_index)
                (world.now s.page_index) s.oauth_token shape s.next_params explode s.next_url
                s.body_cursor sound.checked))
      ]
