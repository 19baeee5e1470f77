-- ===== src/Http/Body/Laws.antt =====
-- No value that marks an unbound parameter is left in a pruned body.
use mathlib.Core.Path.{subst}
use mathlib.Core.Bool.{false≢true}
use pawrly.Prelude.{
  Text, ◌≡◌, ◌≢◌, refl, sym, ◌∙◌, Bool, true, false, Option, none, some, inl, inr, text_eq,
  text_eq_iff, if◌then◌else◌, Bool-cases, Option-cases, text_leb,
}
use pawrly.Http.Json.{
  Value, null, bool, number, string, array, object, Items, nil, cons, Fields, end, field,
  insert_field,
}
use pawrly.Http.Body.{unbound_sentinel, prune_unbound_filters, prune_items, prune_fields}

-- No string in the value is the sentinel. Names of fields are not asked about.
mutual
  pub IsClean : Value → Type 0
  IsClean (string s) = s ≢ unbound_sentinel
  IsClean (array vs) = AreClean vs
  IsClean (object fs) = HasCleanFields fs
  IsClean null = Unit
  IsClean (bool b) = Unit
  IsClean (number n) = Unit

  pub AreClean : Items → Type 0
  AreClean nil = Unit
  AreClean (cons v vs) = IsClean v × AreClean vs

  pub HasCleanFields : Fields → Type 0
  HasCleanFields end = Unit
  HasCleanFields (field k v fs) = IsClean v × HasCleanFields fs

insert_field-HasCleanFields :
    (k : Text) (v : Value) (fs : Fields)
    → IsClean v
    → HasCleanFields fs
    → HasCleanFields (insert_field k v fs)
unfolding insert_field IsClean
insert_field-HasCleanFields k v end c cs = (c, tt)
insert_field-HasCleanFields k v (field j w fs) c (d, ds) = elim (Bool-cases (text_eq j k)) [
  | inl t ↦ rw (t, insert_field) (c, ds)
  | inr f ↦ elim (Bool-cases (text_leb k j)) [
    | inl t ↦ rw (f, insert_field) (rw t (c, (d, ds)))
    | inr g ↦ rw (f, insert_field) (rw g (d, insert_field-HasCleanFields k v fs c ds))
  ]
]

abbrev IsCleanOption : Option Value → Type 0
IsCleanOption none = Unit
IsCleanOption (some w) = IsClean w

if-IsCleanOption :
    (b : Bool) (v : Value) → ((b ≡ false) → IsClean v) → IsCleanOption (if b then none else some v)
if-IsCleanOption true v c = tt
if-IsCleanOption false v c = c refl

-- A value is kept in front of clean ones where it is clean itself.
kept :
    (o : Option Value) (vs : Items)
    → IsCleanOption o
    → AreClean vs
    → AreClean (elim o [ none ↦ vs | some w ↦ cons w vs ])
unfolding IsClean
kept none vs c cs = cs
kept (some w) vs c cs = (c, cs)

mutual
  unfolding prune_unbound_filters IsClean

  prune-IsCleanOption : (v : Value) → IsCleanOption (prune_unbound_filters v)
  prune-IsCleanOption (string s) =
      if-IsCleanOption (text_eq s unbound_sentinel) (string s)
        (λ f e. false≢true (sym f ∙ (text_eq_iff s unbound_sentinel).1 e))
  prune-IsCleanOption (array vs) = prune_items-AreClean vs
  prune-IsCleanOption (object fs) =
      if-IsCleanOption _ (object (prune_fields fs end)) (λ _. prune_fields-HasCleanFields fs end tt)
  prune-IsCleanOption null = tt
  prune-IsCleanOption (bool b) = tt
  prune-IsCleanOption (number n) = tt

  prune_items-AreClean : (vs : Items) → AreClean (prune_items vs)
  prune_items-AreClean nil = tt
  prune_items-AreClean (cons v vs) =
      kept (prune_unbound_filters v) (prune_items vs) (prune-IsCleanOption v)
        (prune_items-AreClean vs)

  prune_fields-HasCleanFields :
      (fs out : Fields) → HasCleanFields out → HasCleanFields (prune_fields fs out)
  prune_fields-HasCleanFields end out c = c
  prune_fields-HasCleanFields (field k v fs) out c = elim (Option-cases (prune_unbound_filters v)) [
    | inl n ↦ rw (n, prune_fields) (prune_fields-HasCleanFields fs out c)
    | inr (w, e) ↦
        rw (e, prune_fields)
          (prune_fields-HasCleanFields fs (insert_field k w out)
            (insert_field-HasCleanFields k w out (subst IsCleanOption e (prune-IsCleanOption v)) c))
  ]

-- A pruned body has no string left that is the sentinel of an unbound parameter, at any depth.
pub prune_unbound_filters-IsClean : (v w : Value) → prune_unbound_filters v ≡ some w → IsClean w
prune_unbound_filters-IsClean v w e = subst IsCleanOption e (prune-IsCleanOption v)
