-- ===== src/Http/Fetch/Offset.antt =====
-- Offset pagination against a server that slices its rows.
pub mod Round
use Prim.Native.Nat.{min}
use pawrly.Prelude.{
  ℕ, zero, suc, ◌+◌, ◌*◌, ◌≤◌, ◌<◌, ◌≡◌, ◌≢◌, refl, sym, ◌∙◌, ap, false, Option, none, some, List,
  [], ◌++◌, length, length-append, inl, inr, ok, arith, Bool-cases, leb, ltb, if◌then◌else◌, Text,
  codes, decimal, decimal_within, get, put, get-put-same, get-put-other, has_key,
}
use pawrly.Http.Json.{Value, array, from_list}
use pawrly.Http.Source.{Crates}
use pawrly.Http.Paginate.Next.{Params, offset, u64_max, or_insert, seed_initial}
use pawrly.Http.Auth.{Request, CachedToken}
use pawrly.Http.Request.{Explode, Shape, select_request, page_request}
use pawrly.Http.Retry.{Response, answered, send_with_retry_inner}
use pawrly.Http.Page.{
  HttpTableProvider, World, FetchState, page_cap, fetch_page, send_page, with_token,
}
use pawrly.Http.Fetch.Slices.{
  take, drop, take-drop, drop-append, take_short, length-take-drop, length-take-le, append_assoc,
  below_cap, unsaturated,
}
use pawrly.Http.Fetch.{seeded, fetch_loop, first_state, fetch_rows}
use pawrly.Http.Fetch.Offset.Round.{
  IsPlainOffset, next_state, after_page, receive_page, after_page-last, after_page-next,
  answered_first,
}

-- The server slices its rows: for parameters that name the offset of a page and the size, the request of
-- the page can be made, and is answered at once with that many of the rows from the offset on.
abbrev pub Serves :
    {C : Crates}
    → HttpTableProvider C
    → World C
    → Shape
    → Explode
    → (param size_param : Text) → (size : ℕ) → List Value
    → Type 0
Serves {C} provider world shape explode param size_param size rows =
    (page : ℕ) (token : Option CachedToken) (m : Params)
    → get param m ≡ some (decimal (size * page))
    → get size_param m ≡ some (decimal size)
    → (req : Request C) × ((page_request provider.source provider.spec (world.exchange page)
          (world.now page) token shape m explode none none).1
        ≡ ok req)
      × ((resp : Response) × (world.try page req 0 ≡ answered resp)
          × (resp.status ≡ 200)
          × ((text : Text) × (resp.text ≡ some text)
              × (C.from_json text
                  ≡ some (array (from_list (take size (drop (size * page) rows)))))))

module _ {C : Crates} (provider : HttpTableProvider C) (world : World C) (shape : Shape)
    (explode : Explode) (param size_param : Text) (size : ℕ) (rows : List Value)
    (plain : IsPlainOffset provider param size_param size)
    (serves : Serves provider world shape explode param size_param size rows) where
  -- The state before a page.
  at_page : ℕ → List Value → Params → Option CachedToken → FetchState C
  at_page page got m token = record {
    all_rows = got;
    next_params = m;
    next_url = none;
    body_cursor = none;
    page_index = page;
    oauth_token = token;
  }

  -- The parameters name the offset of the page.
  abbrev Names : ℕ → Params → Type 0
  Names page m =
      (get param m ≡ some (decimal (size * page))) × (get size_param m ≡ some (decimal size))

  fetch_page-step :
      (page : ℕ) (got rest : List Value) (m : Params) (token : Option CachedToken)
      → page < page_cap provider
      → got ++ rest ≡ rows
      → length got ≡ size * page
      → Names page m
      → (token' : Option CachedToken) × ((fetch_page provider world shape explode none
            (at_page page got m token)).step
          ≡ after_page provider param size_param size plain
              (take size rest)
              (at_page page got m token'))
  unfolding fetch_page send_page send_with_retry_inner with_token at_page
  fetch_page-step page got rest m token below split_here offset_here (named, sized) =
      let (req, made, (resp, e, ok_status, (text, has_text, parses))) =
        serves page token m named sized in
      let here : drop (size * page) rows ≡ rest =
        ap (λ t. drop (size * page) t) (sym split_here)
        ∙ ap (λ n. drop n (got ++ rest)) (sym offset_here)
        ∙ drop-append got rest in
      let token' =
        (page_request provider.source provider.spec (world.exchange page) (world.now page) token
          shape m explode none none).0 in
      let open_cap : leb (page_cap provider) page ≡ false = ground arith in
      (
        token',
        rw (open_cap, fetch_page)
            (rw (made, send_page)
              (rw
                (answered_first provider param size_param size plain (world.try page req)
                  (world.now_ms page) resp
                  (if world.cloneable req then provider.source.retry.max_retries else 0) e
                  ok_status)
                (receive_page provider param size_param size plain (at_page page got m token') resp
                  text (take size rest) ok_status has_text
                  (parses ∙ ap (λ t. some (array (from_list (take size t)))) here)))),
      )

  next-Names :
      (page : ℕ) (m : Params)
      → size * suc page ≤ u64_max
      → Names (suc page) (
          put size_param
            (decimal size)
            (put param (decimal (min (size * min (page + 1) u64_max) u64_max)) m))
  next-Names page m fits = (
    get-put-other param size_param (decimal size) _ (λ e. plain.apart (sym e))
        ∙ get-put-same param _ m
        ∙ ap (λ n. some (decimal n)) (unsaturated size page plain.positive fits),
    get-put-same size_param (decimal size) _,
  )

  fetch_loop-rows :
      (rounds page : ℕ) (got rest : List Value) (m : Params) (token : Option CachedToken)
      → length rest + size * page < size * page_cap provider
      → page_cap provider ≤ page + rounds
      → length rows ≤ u64_max
      → got ++ rest ≡ rows
      → length got ≡ size * page
      → Names page m
      → (fetch_loop provider world shape explode none rounds (at_page page got m token)).result
        ≡ some (ok rows)
  unfolding fetch_loop at_page next_state
  fetch_loop-rows zero page got rest m token few enough fits split_here offset_here named =
      let below = below_cap size page (page_cap provider) (omega arith) in absurd (omega arith)
  fetch_loop-rows (suc rounds) page got rest m token few enough fits split_here offset_here named =
      let below = below_cap size page (page_cap provider) (omega arith) in
      let (token', e) = fetch_page-step page got rest m token below split_here offset_here named in
      let page_rows = take size rest in
      elim (Bool-cases (ltb (length page_rows) size)) [
        | inl t ↦
            let step =
              e
              ∙ after_page-last provider param size_param size plain page_rows
                  (at_page page got m token') t in
            rw (step, fetch_loop)
              (ap (λ r. some (ok (got ++ r))) (take_short size rest (ground arith))
                ∙ ap (λ r. some (ok r)) split_here)
        | inr f ↦
            let step =
              e
              ∙ after_page-next provider param size_param size plain page_rows
                  (at_page page got m token') f in
            let full : length page_rows ≡ size = ground (arith, length-take-le size rest) in
            let got_all : length (got ++ page_rows) ≡ size * suc page =
              length-append got page_rows ∙ omega (arith, full, offset_here) in
            let split_next : (got ++ page_rows) ++ drop size rest ≡ rows =
              append_assoc got page_rows (drop size rest)
              ∙ ap (λ r. got ++ r) (take-drop size rest)
              ∙ split_here in
            let fits_next : size * suc page ≤ u64_max = omega (
              arith,
              got_all,
              fits,
              ap length split_next,
              length-append (got ++ page_rows) (drop size rest),
            ) in
            rw (step, fetch_loop)
              (fetch_loop-rows rounds (suc page) (got ++ page_rows) (drop size rest) _ token'
                (omega (arith, few, full, length-take-drop size rest)) (omega arith) fits split_next
                got_all (next-Names page m fits_next))
      ]

or_insert-absent : (k v : Text) (m : Params) → has_key k m ≡ false → or_insert k v m ≡ put k v m
unfolding or_insert
or_insert-absent k v m h = rw h refl

zero_offset : (size : ℕ) → some (codes "0") ≡ some (decimal (size * 0))
unfolding decimal decimal_within
zero_offset size = let none_yet : 0 ≡ size * 0 = omega arith in ap (λ n. some (decimal n)) none_yet

module _ (param size_param : Text) (size : ℕ) (m : Params) where
  -- The parameters of the first page.
  seed : Params
  seed = put size_param (decimal size) (put param (codes "0") m)

  seed_initial-seed :
      param ≢ size_param
      → has_key param m ≡ false
      → has_key size_param m ≡ false
      → seed_initial (offset param size_param size) m ≡ seed
  unfolding seed_initial seed
  seed_initial-seed apart unbound unsized =
      let other : get size_param (put param (codes "0") m) ≡ get size_param m =
        get-put-other size_param param (codes "0") m apart in
      ap (or_insert size_param (decimal size)) (or_insert-absent param (codes "0") m unbound)
      ∙ or_insert-absent size_param (decimal size) (put param (codes "0") m)
          (rw (other, has_key) unsized)

-- A table that is read by offsets, from a server that answers the request of each page at once, with
-- status 200 and that slice of its rows, gives all the rows of the server, each once and in order. The
-- conditions: no limit and no `max_rows`; the response itself is the list of rows (path `$`), with no
-- reshaping and no declaration of errors; no header of a remaining quota is read, and 200 is not taken
-- for a rate limit; the two parameters differ, and the query binds neither itself; the page size is not
-- zero; the number of rows is within `u64`, and is less than the page size times the number of pages
-- that may be fetched. The last page is recognised by its length, also where the rows fill all pages
-- exactly.
pub fetch_rows-offset :
    {C : Crates} (provider : HttpTableProvider C) (world : World C) (explode : Explode)
    (param size_param : Text) (size : ℕ) (rows : List Value) (m : Params)
    (token : Option CachedToken)
    → IsPlainOffset provider param size_param size
    → Serves provider world (select_request provider.spec m) explode param size_param size rows
    → has_key param m ≡ false
    → has_key size_param m ≡ false
    → length rows < size * page_cap provider
    → length rows ≤ u64_max
    → (fetch_rows provider world token m explode none).result ≡ some (ok rows)
unfolding fetch_rows first_state seeded seed at_page
fetch_rows-offset provider world explode param size_param size rows m token plain serves unbound
      unsized few fits =
    let shape = select_request provider.spec m in
    let first : seeded provider.spec.pagination m ≡ seed param size_param size m =
      ap (λ c. seeded c m) plain.pagination
      ∙ seed_initial-seed param size_param size m plain.apart unbound unsized in
    let offset_named : get param (seed param size_param size m) ≡ some (decimal (size * 0)) =
      get-put-other param size_param (decimal size) (put param (codes "0") m)
        (λ e. plain.apart (sym e))
      ∙ get-put-same param (codes "0") m
      ∙ zero_offset size in
    let size_named = get-put-same size_param (decimal size) (put param (codes "0") m) in
    rw (first, fetch_rows)
      (fetch_loop-rows provider world shape explode param size_param size rows plain serves
        (suc (page_cap provider)) 0 [] rows (seed param size_param size m) token
        (omega (arith, few)) (omega arith) fits refl (omega arith) (offset_named, size_named))
