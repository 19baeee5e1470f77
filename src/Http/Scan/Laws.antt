-- ===== src/Http/Scan/Laws.antt =====
-- The bounds on the rows of a scan.
use mathlib.Core.Path.{subst}
use Prim.Native.Nat.{min}
use pawrly.Prelude.{
  ℕ, zero, suc, ◌+◌, ◌-◌, ◌≤◌, ◌≡◌, refl, sym, ◌∙◌, Bool, true, false, Option, none, some, List, [],
  ◌∷◌, ◌++◌, length, is_empty, ◌⊎◌, inl, inr, Result, ok, err, arith, Bool-cases, Result-cases,
  if◌then◌else◌, Text,
}
use pawrly.Http.Json.{Value}
use pawrly.Http.Source.{Crates}
use pawrly.Http.Paginate.Next.{Params, u64_max}
use pawrly.Http.Auth.{Failure, CachedToken}
use pawrly.Http.Request.{Explode}
use pawrly.Http.Filters.{Expr}
use pawrly.Http.Bind.{bind, expand_fanout}
use pawrly.Http.Page.{HttpTableProvider, World, reached, exceeded, truncate}
use pawrly.Http.Page.Laws.{length-truncate}
use pawrly.Http.Fetch.{Fetch, fetch_rows}
use pawrly.Http.Fetch.Laws.{fetch_rows-terminates}
use pawrly.Http.Scan.{
  Union, Scan, rows_of, failed_scan, deferred, unfinished, add_batch, after_fetch, fetch_union,
  scan_bound, collected, no_rows_yet, remaining, with_batch, Batch,
}

-- The rows of the batches together.
unfoldable pub row_count : List Batch → ℕ
row_count [] = 0
row_count ((m, rows) ∷ bs) = length rows + row_count bs

-- A number that a bound allows.
abbrev pub AtMost : Option ℕ → ℕ → Type 0
AtMost none n = Unit
AtMost (some b) n = n ≤ b

row_count-concat :
    (bs : List Batch) (m : Params) (rows : List Value)
    → row_count (bs ++ (m, rows) ∷ []) ≡ row_count bs + length rows
unfolding row_count
row_count-concat [] m rows = omega arith
row_count-concat ((k, r) ∷ bs) m rows = omega (arith, row_count-concat bs m rows)

length-truncate-le :
    (limit : Option ℕ) (rows : List Value) → length (truncate limit rows) ≤ length rows
unfolding truncate
length-truncate-le none rows = omega arith
length-truncate-le (some zero) rows = omega arith
length-truncate-le (some (suc n)) [] = omega arith
length-truncate-le (some (suc n)) (r ∷ rows) = omega (arith, length-truncate-le (some n) rows)

List-cases : (ts : List Text) → (ts ≡ []) ⊎ ((t : Text) × (us : List Text) × (ts ≡ t ∷ us))
List-cases [] = inl refl
List-cases (t ∷ us) = inr (t, us, refl)

AtMost-le : (b : Option ℕ) (m n : ℕ) → m ≤ n → AtMost b n → AtMost b m
AtMost-le none m n le h = tt
AtMost-le (some b) m n le h = omega arith

AtMost-exceeded : (b : Option ℕ) (n : ℕ) → exceeded b n ≡ false → AtMost b n
AtMost-exceeded none n h = tt
AtMost-exceeded (some b) n h = ground arith

-- What trimming leaves fits under the limit.
AtMost-trimmed :
    (limit : Option ℕ) (total : ℕ) (rows : List Value)
    → reached limit total ≡ false
    → AtMost limit (total + length (truncate (remaining limit total) rows))
AtMost-trimmed none total rows h = tt
AtMost-trimmed (some l) total rows h = ground (arith, length-truncate (l - total) rows)

row_count-if :
    (bs : List Batch) (m : Params) (rows : List Value)
    → row_count (if is_empty rows then bs else bs ++ (m, rows) ∷ []) ≡ row_count bs + length rows
row_count-if bs m [] = omega arith
row_count-if bs m (r ∷ rows) = row_count-concat bs m (r ∷ rows)

row_count-with_batch : (m : Params) (bs : List Batch) → row_count (with_batch m bs) ≡ row_count bs
unfolding row_count
row_count-with_batch m [] = refl
row_count-with_batch m (b ∷ bs) = refl

module _ {C : Crates} (provider : HttpTableProvider C) (limit : Option ℕ) where
  -- The count is that of the batches, and keeps to the limit and the cap.
  record IsCounted (u : Union C) : Type 0 where
    pub counted : row_count u.out_batches ≡ u.total_rows
    pub limited : AtMost limit u.total_rows
    pub capped : AtMost provider.max_rows (min u.total_rows u64_max)

  -- The result of a scan keeps to the bounds, where there is one, and only a scan that may be deferred is.
  abbrev pub KeepsBounds : (allow_defer : Bool) → Scan → Type 0
  KeepsBounds allow_defer (rows_of bs) =
      AtMost limit (row_count bs) × AtMost provider.max_rows (min (row_count bs) u64_max)
  KeepsBounds allow_defer (failed_scan e) = Unit
  KeepsBounds allow_defer (deferred names) = allow_defer ≡ true
  KeepsBounds allow_defer unfinished = ⊥

  abbrev Continues : Result (Union C) Scan → Type 0
  Continues (ok u) = IsCounted u
  Continues (err s) = KeepsBounds false s

  add_batch-IsCounted :
      (bound : Params) (rows : List Value) (fetch : Fetch C) (u : Union C)
      → reached limit u.total_rows ≡ false
      → exceeded provider.max_rows (min (u.total_rows + length rows) u64_max) ≡ false
      → IsCounted u
      → IsCounted (add_batch limit bound rows fetch u)
  unfolding add_batch
  add_batch-IsCounted bound rows fetch u open_limit fits h = record {
    counted = omega (
      arith,
      row_count-if u.out_batches bound (truncate (remaining limit u.total_rows) rows),
      h.counted,
    );
    limited = AtMost-trimmed limit u.total_rows rows open_limit;
    capped =
        AtMost-le provider.max_rows _ (min (u.total_rows + length rows) u64_max)
          (omega (arith, length-truncate-le (remaining limit u.total_rows) rows))
          (AtMost-exceeded provider.max_rows _ fits);
  }

  after_fetch-Continues :
      (bound : Params) (fetch : Fetch C) (u : Union C)
      → ((r : Result (List Value) Failure) × (fetch.result ≡ some r))
      → reached limit u.total_rows ≡ false
      → IsCounted u
      → Continues (after_fetch provider limit bound fetch u)
  unfolding after_fetch
  after_fetch-Continues bound fetch u (err e, q) open_limit h = rw (q, Continues) tt
  after_fetch-Continues bound fetch u (ok rows, q) open_limit h =
      elim (Bool-cases (exceeded provider.max_rows (min (u.total_rows + length rows) u64_max))) [
        | inl t ↦ rw (q, Continues) (rw (t, Continues) tt)
        | inr f ↦
            rw (q, Continues)
              (rw (f, Continues) (add_batch-IsCounted bound rows fetch u open_limit f h))
      ]

  fetch_union-Continues :
      (worlds : ℕ → World C) (explode : Explode) (i : ℕ) (bs : List Params) (u : Union C)
      → IsCounted u
      → Continues (fetch_union provider worlds explode limit i bs u)
  unfolding fetch_union
  fetch_union-Continues worlds explode i [] u h = h
  fetch_union-Continues worlds explode i (b ∷ bs) u h =
      elim (Bool-cases (reached limit u.total_rows)) [
        | inl t ↦ rw (t, Continues) h
        | inr f ↦
            let fetch =
              fetch_rows provider (worlds i) u.oauth_token b explode
                (remaining limit u.total_rows) in
            let next =
              after_fetch-Continues b fetch u
                (fetch_rows-terminates provider (remaining limit u.total_rows) (worlds i)
                  u.oauth_token b explode).0
                f h in
            elim (Result-cases (after_fetch provider limit b fetch u)) [
              | inl (u', e) ↦
                  rw (f, Continues)
                    (rw (e, Continues)
                      (fetch_union-Continues worlds explode (suc i) bs u' (subst Continues e next)))
              | inr (s, e) ↦ rw (f, Continues) (rw (e, Continues) (subst Continues e next))
            ]
      ]

  collected-KeepsBounds :
      (m : Params) (r : Result (Union C) Scan) (b : Bool)
      → Continues r
      → KeepsBounds b (collected m r)
  unfolding collected
  collected-KeepsBounds m (ok u) b h =
      let same : u.total_rows ≡ row_count (with_batch m u.out_batches) =
        sym (row_count-with_batch m u.out_batches ∙ h.counted) in
      subst (λ n. AtMost limit n × AtMost provider.max_rows (min n u64_max)) same
        (h.limited, h.capped)
  collected-KeepsBounds m (err (rows_of bs)) b h = h
  collected-KeepsBounds m (err (failed_scan e)) b h = tt
  collected-KeepsBounds m (err (deferred names)) b h = cc
  collected-KeepsBounds m (err unfinished) b h = h

  AtMost-zero : (b : Option ℕ) → AtMost b 0
  AtMost-zero none = tt
  AtMost-zero (some n) = omega arith

  -- A scan always comes to an end, and all its batches together have no more rows than the limit asks for
  -- and, as far as `u64` counts, than the cap allows, over all the requests that lists of values fan out
  -- to; it is deferred only where the caller allows it.
  pub scan_bound-KeepsBounds :
      (worlds : ℕ → World C) (token : Option CachedToken) (now_epoch : ℕ) (filters : List Expr)
      (allow_defer : Bool)
      → KeepsBounds allow_defer
          (scan_bound provider worlds token now_epoch filters limit allow_defer)
  unfolding scan_bound row_count
  scan_bound-KeepsBounds worlds token now_epoch filters allow_defer =
      let b = bind provider.spec filters now_epoch in
      elim (List-cases b.unbound) [
        | inl e ↦
            rw (e, KeepsBounds)
              (collected-KeepsBounds b.params _ allow_defer (
                fetch_union-Continues worlds b.explode 0 (expand_fanout b.params b.fanout)
                  (no_rows_yet token)
                  (record {
                    counted = refl;
                    limited = AtMost-zero limit;
                    capped = AtMost-zero provider.max_rows;
                  })))
        | inr (n, ns, e) ↦ elim (Bool-cases allow_defer) [
          | inl t ↦ rw (e, KeepsBounds) (rw (t, KeepsBounds) t)
          | inr f ↦ rw (e, KeepsBounds) (rw (f, KeepsBounds) tt)
        ]
      ]
