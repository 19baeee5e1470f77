-- ===== src/Cache/Provider/Reads.antt =====
-- What a query gets through the cache.
use pawrly.Prelude.{
  ℕ, ◌+◌, ◌<◌, ◌≤◌, ◌≡◌, refl, ap, ◌∙◌, inl, inr, Bool, true, none, some, List, ok, if◌then◌else◌,
  Bool-cases, leb, ltb_iff, leb_iff,
}
use pawrly.Cache.Types.{TableName, CachePolicy, ttl, max_duration, unexpired, ttl_expiry}
use pawrly.Cache.Disk.{Io, num_rows}
use pawrly.Cache.Manager.{Session, Provider, fresh, write_through, cached_entry}
use pawrly.Cache.Manager.Fresh.{
  Works, sized, after_write, write_entry-ok, fresh-after_write, read_parquet-after_write,
}
use pawrly.Cache.Provider.{scan, scan_entry, fetch, fetched}

-- A snapshot written at the instant `later` may be read at `t`: under a `ttl` that the clock can count,
-- for that long, and else for ever.
abbrev pub IsAlive : CachePolicy → ℕ → ℕ → Type 0
IsAlive (ttl d) later t = d ≤ max_duration → t < later + d
IsAlive _ later t = Unit

alive-unexpired :
    (key : TableName) (n : ℕ) (policy : CachePolicy) (later t : ℕ)
    → IsAlive policy later t
    → unexpired t (cached_entry later key n policy) ≡ true
unfolding ttl_expiry
alive-unexpired key n (ttl d) later t alive = elim (Bool-cases (leb d max_duration)) [
  | inl h ↦ rw h ((ltb_iff t (later + d)).1 (alive ((leb_iff d max_duration).0 h)))
  | inr h ↦ rw h
]
alive-unexpired key n _ later t alive = refl

module _ {Row Query : Type 0} (inner : Provider Row Query) (key : TableName)
    (policy : CachePolicy) where
  -- The store after a miss.
  scan-miss :
      (io io' : Io) (now later : ℕ) (q : Query) (s : Session Row Query) (batches : List (List Row))
      → Works io'
      → fresh now key s ≡ none
      → inner.scan q ≡ ok batches
      → (scan io io' now later q inner key policy s).1
        ≡ after_write io' batches (cached_entry later key (num_rows batches) policy) s
  unfolding scan fetch fetched write_through
  scan-miss io io' now later q s batches w miss answer =
      rw (miss, scan)
        (rw (answer, fetched)
          (ap (λ r. r.1)
            (write_entry-ok io' batches (cached_entry later key (num_rows batches) policy) s w)))

  -- A scan of a table whose entry is alive.
  scan-after_write :
      (io jo jo' : Io) (later t t' : ℕ) (q : Query) (s : Session Row Query)
      (batches : List (List Row))
      → IsAlive policy later t
      → let s' = after_write io batches (cached_entry later key (num_rows batches) policy) s in
        scan jo jo' t t' q inner key policy s' ≡ (ok batches, s')
  unfolding scan fetch
  scan-after_write io jo jo' later t t' q s batches alive =
      let e = cached_entry later key (num_rows batches) policy in
      let found : fresh t key (after_write io batches e s) ≡ some (sized io e) =
        fresh-after_write io batches e s t
        ∙ ap (λ (b : Bool). if b then some (sized io e) else none)
            (alive-unexpired key (num_rows batches) policy later t alive) in
      rw (found, scan) (rw (read_parquet-after_write io batches e s) (unfold scan_entry in refl))

  -- After a miss whose rows could be stored, the next scan of the table, with whatever filters and limit,
  -- answers with the rows that the source gave for the first scan's filters and limit, and leaves the
  -- store as it found it, if nothing else ran in between and the entry is alive: under a `ttl`, for
  -- that long; under any other policy, at any instant. Rows are those before the projection of columns.
  pub scan-scan :
      (io io' jo jo' : Io) (now later t t' : ℕ) (q q' : Query) (s : Session Row Query)
      (batches : List (List Row))
      → Works io'
      → fresh now key s ≡ none
      → inner.scan q ≡ ok batches
      → IsAlive policy later t
      → let s' = (scan io io' now later q inner key policy s).1 in
        scan jo jo' t t' q' inner key policy s' ≡ (ok batches, s')
  scan-scan io io' jo jo' now later t t' q q' s batches w miss answer alive =
      rw (scan-miss io io' now later q s batches w miss answer)
        (scan-after_write io' jo jo' later t t' q' s batches alive)
