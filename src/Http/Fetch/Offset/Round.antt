-- ===== src/Http/Fetch/Offset/Round.antt =====
-- One page of a table that is read by offsets.
use Prim.Native.Nat.{min}
use pawrly.Prelude.{
  ℕ, zero, suc, ◌+◌, ◌*◌, ◌<◌, ◌≡◌, ◌≢◌, refl, ap, true, false, none, some, List, ◌++◌, length, inl,
  inr, ok, Bool-cases, ltb, if◌then◌else◌, Text, codes, text_eq, decimal, put,
}
use pawrly.Http.Json.{Value, array, from_list}
use pawrly.Http.Source.{Crates, HeaderMap}
use pawrly.Http.Response.{extract_rows, rows_at}
use pawrly.Http.Paginate.JsonPath.{json_at_path}
use pawrly.Http.Paginate.Next.{offset, u64_max, next_page}
use pawrly.Http.Retry.{Response, Attempt, answered, is_rate_limit, compute_throttle, attempts_from}
use pawrly.Http.Page.{
  HttpTableProvider, FetchState, PageStep, stop, go, receive, read_body, declared_error, after_rows,
  add_rows, finish, truncate, advance,
}
use pawrly.Http.Fetch.Slices.{to_list-from_list}

-- A table whose rows are the response itself, read by offsets, without caps on rows, on a source that
-- reads no quota headers.
pub record IsPlainOffset {C : Crates} (provider : HttpTableProvider C) (param size_param : Text)
    (size : ℕ) : Type 0 where
  pub pagination : provider.spec.pagination ≡ some (offset param size_param size)
  pub path : provider.spec.response.path ≡ codes "$"
  pub no_error : provider.spec.response.error ≡ none
  pub no_reshape : provider.spec.response.reshape ≡ none
  pub no_cap : provider.max_rows ≡ none
  pub no_quota : provider.source.rate_limit.remaining_header ≡ none
  pub not_limited : is_rate_limit provider.source.rate_limit 200 ≡ false
  pub apart : param ≢ size_param
  pub positive : 0 < size

module _ {C : Crates} (provider : HttpTableProvider C) (param size_param : Text) (size : ℕ)
    (plain : IsPlainOffset provider param size_param size) where
  -- What follows a page.
  unfoldable pub next_state : List Value → FetchState C → FetchState C
  next_state page_rows s = record {
    all_rows = s.all_rows ++ page_rows;
    next_params =
        put size_param (decimal size)
          (put param (decimal (min (size * min (s.page_index + 1) u64_max) u64_max)) s.next_params);
    next_url = none;
    body_cursor = s.body_cursor;
    page_index = suc s.page_index;
    oauth_token = s.oauth_token;
  }

  unfoldable pub after_page : List Value → FetchState C → PageStep C
  after_page page_rows s =
      if ltb (length page_rows) size
      then stop (ok (s.all_rows ++ page_rows))
      else go (next_state page_rows s)

  pub after_rows-offset :
      (s : FetchState C) (body : Value) (headers : HeaderMap) (page_rows : List Value)
      → after_rows provider none body headers page_rows (add_rows page_rows s)
        ≡ after_page page_rows s
  unfolding after_rows add_rows finish truncate advance next_page after_page next_state
  after_rows-offset s body headers page_rows =
      rw (plain.no_cap, after_rows)
        (rw plain.pagination (elim (Bool-cases (ltb (length page_rows) size)) [
          | inl t ↦ rw t refl
          | inr f ↦ rw f refl
        ]))

  pub extract_rows-array :
      (page_rows : List Value)
      → extract_rows (array (from_list page_rows)) provider.spec.response ≡ ok page_rows
  unfolding extract_rows json_at_path rows_at text_eq
  extract_rows-array page_rows =
      rw (plain.path, extract_rows) (rw plain.no_reshape (ap ok (to_list-from_list page_rows)))

  pub read_body-offset :
      (s : FetchState C) (resp : Response) (page_rows : List Value)
      → read_body provider none resp s (some (array (from_list page_rows))) ≡ after_page page_rows s
  unfolding read_body declared_error
  read_body-offset s resp page_rows =
      rw (plain.no_error, read_body)
        (rw (extract_rows-array page_rows) (after_rows-offset s _ resp.headers page_rows))

  -- The response with the page's rows.
  pub receive_page :
      (s : FetchState C) (resp : Response) (text : Text) (page_rows : List Value)
      → resp.status ≡ 200
      → resp.text ≡ some text
      → C.from_json text ≡ some (array (from_list page_rows))
      → receive provider none s resp ≡ after_page page_rows s
  unfolding receive compute_throttle
  receive_page s resp text page_rows ok_status has_text parses =
      rw (plain.no_quota, receive)
        (rw ok_status (rw has_text (rw parses (read_body-offset s resp page_rows))))

  pub after_page-last :
      (page_rows : List Value) (s : FetchState C)
      → ltb (length page_rows) size ≡ true
      → after_page page_rows s ≡ stop (ok (s.all_rows ++ page_rows))
  unfolding after_page
  after_page-last page_rows s t = rw t refl

  pub after_page-next :
      (page_rows : List Value) (s : FetchState C)
      → ltb (length page_rows) size ≡ false
      → after_page page_rows s ≡ go (next_state page_rows s)
  unfolding after_page
  after_page-next page_rows s f = rw f refl

  pub answered_first :
      (try : ℕ → Attempt) (now_ms : ℕ → ℕ) (resp : Response) (left : ℕ)
      → try 0 ≡ answered resp
      → resp.status ≡ 200
      → (attempts_from provider.source.retry provider.source.rate_limit try now_ms left 0).answer
        ≡ ok resp
  unfolding attempts_from
  answered_first try now_ms resp zero e ok_status = rw (e, attempts_from) refl
  answered_first try now_ms resp (suc left) e ok_status =
      rw (e, attempts_from) (rw ok_status (rw plain.not_limited refl))
