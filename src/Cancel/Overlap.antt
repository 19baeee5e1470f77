-- ===== src/Cancel/Overlap.antt =====
-- Two queries under one name: `run_cancellable` of crates/pawrly-mcp/src/dispatch.rs does not ask whether
-- the name is free.
use mathlib.Core.Path.{subst}
use pawrly.Prelude.{
  ℕ, ◌<◌, Text, ◌≡◌, ◌≢◌, refl, sym, ap, true, false, Option, none, some, List, [], ◌∷◌, All, get,
  without, get-without, text_eq, text_eq_iff, Bool-cases, inl, inr, some_inj, arith,
}
use pawrly.Cancel.{
  CancelRegistry, register, finish, cancel, cancel_token, Event, start, end_of, cancel_of, step,
  run,
}
use pawrly.Cancel.Laws.{name_of, register-cancel}

-- The tokens that the registry holds or has cancelled were made before.
pub record IsNumbered (r : CancelRegistry) : Type 0 where
  pub inner : All (λ x. x.1 < r.made) r.inner
  pub cancelled : All (λ t. t < r.made) r.cancelled

All-imp {ℓ} :
    {A : Type ℓ} (P Q : A → Type 0) (xs : List A) → ((x : A) → P x → Q x) → All P xs → All Q xs
All-imp P Q [] f h = tt
All-imp P Q (x ∷ xs) f (p, h) = (f x p, All-imp P Q xs f h)

All-without :
    (P : Text × ℕ → Type 0) (k : Text) (xs : List (Text × ℕ)) → All P xs → All P (without k xs)
unfolding without
All-without P k [] h = tt
All-without P k ((j, t) ∷ xs) (p, h) = elim (Bool-cases (text_eq j k)) [
  | inl e ↦ rw (e, without) (All-without P k xs h)
  | inr e ↦ rw (e, without) (p, All-without P k xs h)
]

All-get :
    (P : Text × ℕ → Type 0) (k : Text) (t : ℕ) (xs : List (Text × ℕ))
    → All P xs
    → get k xs ≡ some t
    → P (k, t)
unfolding get
All-get P k t [] h e = cc
All-get P k t ((j, u) ∷ xs) (p, h) e = elim (Bool-cases (text_eq j k)) [
  | inl s ↦
      let same : (j, u) ≡ (k, t) = λ i. ((text_eq_iff j k).0 s i, some_inj (rw s at e) i) in
      subst P same p
  | inr s ↦ All-get P k t xs h (rw s at e)
]

cancel_token-IsNumbered :
    (id : Text) (r : CancelRegistry) (o : Option ℕ)
    → get id r.inner ≡ o
    → IsNumbered r
    → IsNumbered (cancel_token id r o).1
unfolding cancel_token
cancel_token-IsNumbered id r none e h = h
cancel_token-IsNumbered id r (some t) e h = record {
  inner = All-without (λ x. x.1 < r.made) id r.inner h.inner;
  cancelled = (All-get (λ x. x.1 < r.made) id t r.inner h.inner e, h.cancelled);
}

step-IsNumbered : (r : CancelRegistry) (ev : Event) → IsNumbered r → IsNumbered (step r ev)
unfolding step register finish cancel
step-IsNumbered r (start id) h = record {
  inner = (
    omega arith,
    All-imp _ _ (without id r.inner) (λ x p. omega (arith, p))
        (All-without (λ x. x.1 < r.made) id r.inner h.inner),
  );
  cancelled = All-imp _ _ r.cancelled (λ t p. omega (arith, p)) h.cancelled;
}
step-IsNumbered r (end_of id) h = record {
  inner = All-without (λ x. x.1 < r.made) id r.inner h.inner;
  cancelled = h.cancelled;
}
step-IsNumbered r (cancel_of id) h = cancel_token-IsNumbered id r (get id r.inner) refl h

run-IsNumbered :
    (r : CancelRegistry) (events : List Event) → IsNumbered r → IsNumbered (run r events)
unfolding run
run-IsNumbered r [] h = h
run-IsNumbered r (ev ∷ evs) h = run-IsNumbered (step r ev) evs (step-IsNumbered r ev h)

made_grows :
    (r : CancelRegistry) (t : ℕ) (events : List Event) → t < r.made → t < (run r events).made
unfolding run step register finish cancel
made_grows r t [] h = h
made_grows r t (start id ∷ evs) h = made_grows (register id r).1 t evs (omega (arith, h))
made_grows r t (end_of id ∷ evs) h = made_grows (finish id r) t evs h
made_grows r t (cancel_of id ∷ evs) h = made_grows (cancel id r).1 t evs (token (get id r.inner))
  where
    token : (o : Option ℕ) → t < (cancel_token id r o).1.made
    token none = unfold cancel_token in h
    token (some u) = unfold cancel_token in h

-- The token is held under the name alone, and was not cancelled.
record Running (id : Text) (t : ℕ) (r : CancelRegistry) : Type 0 where
  only : All (λ x. x.1 ≡ t → x.0 ≡ id) r.inner
  alive : All (λ u. u ≢ t) r.cancelled
  before : t < r.made

cancel_token-Running :
    (id : Text) (t : ℕ) (j : Text) (r : CancelRegistry) (o : Option ℕ)
    → id ≢ j
    → get j r.inner ≡ o
    → Running id t r
    → Running id t (cancel_token j r o).1
unfolding cancel_token
cancel_token-Running id t j r none n e h = h
cancel_token-Running id t j r (some u) n e h = record {
  only = All-without (λ x. x.1 ≡ t → x.0 ≡ id) j r.inner h.only;
  alive = (λ s. n (sym (All-get (λ x. x.1 ≡ t → x.0 ≡ id) j u r.inner h.only e s)), h.alive);
  before = h.before;
}

step-Running :
    (id : Text) (t : ℕ) (r : CancelRegistry) (ev : Event)
    → id ≢ name_of ev
    → Running id t r
    → Running id t (step r ev)
unfolding step register finish cancel
step-Running id t r (start j) n h = record {
  only = (
    λ s. absurd (omega (arith, s, h.before)),
    All-without (λ x. x.1 ≡ t → x.0 ≡ id) j r.inner h.only,
  );
  alive = h.alive;
  before = omega (arith, h.before);
}
step-Running id t r (end_of j) n h = record {
  only = All-without (λ x. x.1 ≡ t → x.0 ≡ id) j r.inner h.only;
  alive = h.alive;
  before = h.before;
}
step-Running id t r (cancel_of j) n h = cancel_token-Running id t j r (get j r.inner) n refl h

run-Running :
    (id : Text) (t : ℕ) (r : CancelRegistry) (events : List Event)
    → All (λ ev. id ≢ name_of ev) events
    → Running id t r
    → Running id t (run r events)
unfolding run
run-Running id t r [] o h = h
run-Running id t r (ev ∷ evs) (n, o) h =
    run-Running id t (step r ev) evs o (step-Running id t r ev n h)

register-Running :
    (id : Text) (r : CancelRegistry) → IsNumbered r → Running id (register id r).0 (register id r).1
unfolding register
register-Running id r h = record {
  only = (
    λ _. refl,
    All-imp _ _ (without id r.inner) (λ x p s. absurd (omega (arith, p, s)))
        (All-without (λ x. x.1 < r.made) id r.inner h.inner),
  );
  alive = All-imp _ _ r.cancelled (λ u p s. omega (arith, p, s)) h.cancelled;
  before = omega arith;
}

-- Two queries are started under one name, with events of other names between and after them, on a
-- registry whose tokens are numbered as they are made. They get different tokens, and at that point a
-- cancel of the name answers yes and cancels the second's. But once the first has ended, a cancel of the
-- name answers no and changes nothing: the second's token is not cancelled.
pub cancel-finish_overlap :
    (id : Text) (r : CancelRegistry) (between after : List Event)
    → IsNumbered r
    → All (λ ev. id ≢ name_of ev) between
    → All (λ ev. id ≢ name_of ev) after
    → let second = register id (run (register id r).1 between) in
      let both = run second.1 after in
      ((register id r).0 ≢ second.0)
      × ((cancel id both).0 ≡ true)
      × ((cancel id both).1.cancelled ≡ second.0 ∷ both.cancelled)
      × (cancel id (finish id both) ≡ (false, finish id both))
      × All (λ u. u ≢ second.0) (finish id both).cancelled
unfolding cancel finish cancel_token
cancel-finish_overlap id r between after numbered others others' =
    let (answers, called) = register-cancel id one after others' in
    (apart, answers, called, ap (cancel_token id (finish id both)) gone, running.alive)
  where
    one : CancelRegistry
    one = run (register id r).1 between

    both : CancelRegistry
    both = run (register id one).1 after

    apart : (register id r).0 ≢ (register id one).0
    apart =
        unfold register in
        λ e.
          let grown =
            made_grows (register id r).1 r.made between (unfold register in omega arith) in
          omega (arith, e, grown)

    gone : get id (finish id both).inner ≡ none
    gone = unfold finish in get-without id both.inner

    numbered' : IsNumbered one
    numbered' =
        run-IsNumbered (register id r).1 between
          (unfold step in step-IsNumbered r (start id) numbered)

    running : Running id (register id one).0 both
    running =
        run-Running id (register id one).0 (register id one).1 after others'
          (register-Running id one numbered')
