-- ===== src/Cancel/Laws.antt =====
-- When a query that is running can be cancelled.
use pawrly.Prelude.{
  ℕ, Text, ◌≡◌, ◌≢◌, refl, sym, ap, ◌∙◌, true, Option, none, some, List, [], ◌∷◌, All, get,
  get-without_other, text_eq, text_eq_iff, text_eq_refl, false_of_not,
}
use pawrly.Cancel.{
  CancelRegistry, register, finish, cancel, cancel_token, Event, start, end_of, cancel_of, step,
  run,
}

abbrev pub name_of : Event → Text
name_of (start id) = id
name_of (end_of id) = id
name_of (cancel_of id) = id

cancel_token-kept :
    (k id : Text) (r : CancelRegistry) (t : Option ℕ)
    → k ≢ id
    → get k (cancel_token id r t).1.inner ≡ get k r.inner
unfolding cancel_token
cancel_token-kept k id r none n = refl
cancel_token-kept k id r (some token) n = get-without_other k id r.inner n

step-kept :
    (k : Text) (r : CancelRegistry) (ev : Event)
    → k ≢ name_of ev
    → get k (step r ev).inner ≡ get k r.inner
unfolding step register finish cancel get
step-kept k r (start id) n =
    rw (false_of_not (text_eq id k) (λ e. n (sym ((text_eq_iff id k).0 e))))
      (get-without_other k id r.inner n)
step-kept k r (end_of id) n = get-without_other k id r.inner n
step-kept k r (cancel_of id) n = cancel_token-kept k id r (get id r.inner) n

pub run-kept :
    (k : Text) (r : CancelRegistry) (events : List Event)
    → All (λ ev. k ≢ name_of ev) events
    → get k (run r events).inner ≡ get k r.inner
unfolding run
run-kept k r [] h = refl
run-kept k r (ev ∷ evs) (n, h) = run-kept k (step r ev) evs h ∙ step-kept k r ev n

pub registered : (id : Text) (r : CancelRegistry) → get id (register id r).1.inner ≡ some r.made
unfolding register get
registered id r = rw (text_eq_refl id) refl

-- Once a query is registered, and whatever queries of other names are started, ended and cancelled
-- after it, a cancel of its name answers yes, and calls `cancel` on the token that the query got and
-- on no other.
pub register-cancel :
    (id : Text) (r : CancelRegistry) (events : List Event)
    → All (λ ev. id ≢ name_of ev) events
    → let r' = run (register id r).1 events in
      ((cancel id r').0 ≡ true) × ((cancel id r').1.cancelled ≡ (register id r).0 ∷ r'.cancelled)
unfolding cancel register
register-cancel id r events others =
    let found : get id (run (register id r).1 events).inner ≡ some r.made =
      run-kept id (register id r).1 events others ∙ registered id r in
    (
      ap (λ t. (cancel_token id (run (register id r).1 events) t).0) found ∙ yes,
      ap (λ t. (cancel_token id (run (register id r).1 events) t).1.cancelled) found ∙ called,
    )
  where
    yes : (cancel_token id (run (register id r).1 events) (some r.made)).0 ≡ true
    yes = unfold cancel_token in refl

    called :
        (cancel_token id (run (register id r).1 events) (some r.made)).1.cancelled
        ≡ r.made ∷ (run (register id r).1 events).cancelled
    called = unfold cancel_token in refl
