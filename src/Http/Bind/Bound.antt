-- ===== src/Http/Bind/Bound.antt =====
-- A comparison of the query reaches the requests.
use mathlib.Core.Bool.{false≢true}
use pawrly.Prelude.{
  ℕ, Text, codes, ◌≡◌, ◌≢◌, refl, sym, ◌∙◌, ap, true, false, ◌&&◌, ◌||◌, not, Option, none, some,
  List, [], ◌∷◌, ◌++◌, inl, inr, All, arith, Bool-cases, Option-cases, if◌then◌else◌, text_eq,
  text_eq_refl, get, put, get-put-other, get-put-same, has_key,
}
use pawrly.Http.Table.{ParamSpec, HttpTableSpec}
use pawrly.Http.Paginate.Next.{Params}
use pawrly.Http.Request.{Explode}
use pawrly.Http.Filters.{Expr, extract_cmp, param_of}
use pawrly.Http.Bind.{
  Fanout, resolve_derived, bind_cmp, bind_filter, bind_filters, bound_elsewhere, add_defaults,
  derived_params, extend, expand_fanout, bind,
}
use pawrly.Http.Bind.Laws.{Elem, Chooses, expand_fanout_iff}

get-extend : (k : Text) (kvs m : Params) → All (λ e. e.0 ≢ k) kvs → get k (extend kvs m) ≡ get k m
unfolding extend
get-extend k [] m h = refl
get-extend k ((j, v) ∷ kvs) m (ne, h) = get-extend k kvs (put j v m) h ∙ get-put-other k j v m ne

present : (k v : Text) (m : Params) → get k m ≡ some v → has_key k m ≡ true
present k v m h = rw (h, has_key) refl

absent : (k j v : Text) (m : Params) → get k m ≡ some v → has_key j m ≡ false → j ≢ k
absent k j v m h unbound e = false≢true (sym unbound ∙ ap (λ i. has_key i m) e ∙ present k v m h)

module _ (explode : Explode) (fanout : Fanout) where
  get-add_defaults :
      (ps : List ParamSpec) (k v : Text) (m : Params)
      → get k m ≡ some v
      → get k (add_defaults ps explode fanout m) ≡ some v
  unfolding add_defaults
  get-add_defaults [] k v m h = h
  get-add_defaults (p ∷ ps) k v m h = elim (Option-cases p.default) [
    | inl n ↦ rw (n, add_defaults) (get-add_defaults ps k v m h)
    | inr (d, e) ↦
        elim (Bool-cases (not (has_key p.name m) && not (bound_elsewhere p.name explode fanout))) [
          | inl t ↦
              rw (e, add_defaults)
                (rw t (
                  get-add_defaults ps k v (put p.name d m)
                    (get-put-other k p.name d m (absent k p.name v m h (ground arith)) ∙ h)))
          | inr f ↦ rw (e, add_defaults) (rw f (get-add_defaults ps k v m h))
        ]
  ]

  derived_params-absent :
      (ps : List ParamSpec) (k v : Text) (m : Params) (now : ℕ)
      → get k m ≡ some v
      → All (λ e. e.0 ≢ k) (derived_params ps explode fanout m now)
  unfolding derived_params
  derived_params-absent [] k v m now h = tt
  derived_params-absent (p ∷ ps) k v m now h =
      let rest = derived_params-absent ps k v m now h in
      elim (Bool-cases (has_key p.name m || bound_elsewhere p.name explode fanout)) [
        | inl t ↦ rw (t, derived_params) rest
        | inr f ↦ elim (Option-cases p.derive) [
          | inl n ↦ rw (f, derived_params) (rw n rest)
          | inr (d, e) ↦ elim (Option-cases (resolve_derived d m now)) [
            | inl n ↦ rw (f, derived_params) (rw e (rw n rest))
            | inr (w, q) ↦
                rw (f, derived_params) (rw e (rw q (absent k p.name v m h (ground arith), rest)))
          ]
        ]
      ]

-- The parameter that a filter binds, where it binds one.
abbrev pub key_of : HttpTableSpec → Expr → Option Text
key_of spec f = elim (extract_cmp f) [
  | none ↦ none
  | some (col, op, val) ↦ elim (param_of spec col) [
    | none ↦ none
    | some param ↦ if text_eq op (codes "=") then some col else get op param.emit
  ]
]

get-bind_filter-other :
    (spec : HttpTableSpec) (f : Expr) (k : Text) (m : Params)
    → key_of spec f ≢ some k
    → get k (bind_filter spec f m) ≡ get k m
unfolding bind_filter bind_cmp
get-bind_filter-other spec f k m ne = elim (Option-cases (extract_cmp f)) [
  | inl n ↦ rw (n, bind_filter) refl
  | inr ((col, op, val), e) ↦ elim (Option-cases (param_of spec col)) [
    | inl n ↦ rw (e, bind_filter) (rw n refl)
    | inr (param, q) ↦ elim (Bool-cases (text_eq op (codes "="))) [
      | inl t ↦
          rw (e, bind_filter)
            (rw q (
              rw (t, bind_cmp)
                (get-put-other k col val m (λ c. ne (rw (e, key_of) (rw q (rw t (ap some c))))))))
      | inr u ↦ elim (Option-cases (get op param.emit)) [
        | inl n ↦ rw (e, bind_filter) (rw q (rw (u, bind_cmp) (rw n refl)))
        | inr (query_param, w) ↦
            rw (e, bind_filter)
              (rw q (
                rw (u, bind_cmp)
                  (rw w (
                    get-put-other k query_param val m
                      (λ c. ne (rw (e, key_of) (rw q (rw u (w ∙ ap some c)))))))))
      ]
    ]
  ]
]

get-bind_filters-other :
    (spec : HttpTableSpec) (fs : List Expr) (k : Text) (m : Params)
    → All (λ g. key_of spec g ≢ some k) fs
    → get k (bind_filters spec fs m) ≡ get k m
unfolding bind_filters
get-bind_filters-other spec [] k m h = refl
get-bind_filters-other spec (f ∷ fs) k m (ne, h) =
    get-bind_filters-other spec fs k (bind_filter spec f m) h ∙ get-bind_filter-other spec f k m ne

bind_filters-append :
    (spec : HttpTableSpec) (fs gs : List Expr) (m : Params)
    → bind_filters spec (fs ++ gs) m ≡ bind_filters spec gs (bind_filters spec fs m)
unfolding bind_filters
bind_filters-append spec [] gs m = refl
bind_filters-append spec (f ∷ fs) gs m = bind_filters-append spec fs gs (bind_filter spec f m)

get-bind_filter-same :
    (spec : HttpTableSpec) (f : Expr) (param : ParamSpec) (k v : Text) (m : Params)
    → extract_cmp f ≡ some (k, codes "=", v)
    → param_of spec k ≡ some param
    → get k (bind_filter spec f m) ≡ some v
unfolding bind_filter bind_cmp
get-bind_filter-same spec f param k v m e q =
    rw (e, bind_filter) (rw q (rw (text_eq_refl (codes "="), bind_cmp) (get-put-same k v m)))

Chooses-other :
    (k : Text) (cs : Params) (fanout : Fanout)
    → Chooses cs fanout
    → All (λ e. e.0 ≢ k) fanout
    → All (λ e. e.0 ≢ k) cs
Chooses-other k [] fanout c h = tt
Chooses-other k (_ ∷ cs) [] c h = elim c [ ]
Chooses-other k ((j, v) ∷ cs) ((name, vals) ∷ fanout) (e, w, c) (ne, h) =
    (λ q. ne (sym e ∙ q), Chooses-other k cs fanout c h)

-- An equality `col = v` on a declared parameter is in the parameters of every request that the scan fans
-- out to, whatever other filters the query has, where no later comparison binds `col` again and no list
-- fans it out; defaults and computed parameters do not replace it.
pub bind-bound :
    (spec : HttpTableSpec) (before after : List Expr) (f : Expr) (param : ParamSpec) (col v : Text)
    (now_epoch : ℕ) (m : Params)
    → extract_cmp f ≡ some (col, codes "=", v)
    → param_of spec col ≡ some param
    → All (λ g. key_of spec g ≢ some col) after
    → All (λ e. e.0 ≢ col) (bind spec (before ++ f ∷ after) now_epoch).fanout
    → Elem m (
        expand_fanout
          (bind spec (before ++ f ∷ after) now_epoch).params
          (bind spec (before ++ f ∷ after) now_epoch).fanout)
    → get col m ≡ some v
unfolding bind
bind-bound spec before after f param col v now_epoch m e q later lists mem =
    let b = bind spec (before ++ f ∷ after) now_epoch in
    let (cs, c, same) = ((expand_fanout_iff b.params b.fanout).0 m).0 mem in
    let direct = bind_filters spec (before ++ f ∷ after) [] in
    let bound_direct : get col direct ≡ some v =
      ap (get col) (bind_filters-append spec before (f ∷ after) [])
      ∙ get-bind_filters-other spec after col (bind_filter spec f (bind_filters spec before []))
          later
      ∙ get-bind_filter-same spec f param col v (bind_filters spec before []) e q in
    let bound_default = get-add_defaults b.explode b.fanout spec.params col v direct bound_direct in
    ap (get col) same
    ∙ get-extend col cs b.params (Chooses-other col cs b.fanout c lists)
    ∙ get-extend col _ _
        (derived_params-absent b.explode b.fanout spec.params col v _ now_epoch bound_default)
    ∙ bound_default
