-- ===== src/Cancel.antt =====
-- `CancelRegistry` of crates/pawrly-mcp/src/cancel.rs, and the calls that `run_cancellable` of
-- crates/pawrly-mcp/src/dispatch.rs makes of it around a query.
pub mod Laws
pub mod Overlap
mod Tests
use pawrly.Prelude.{
  ℕ, ◌+◌, Text, Bool, true, false, Option, none, some, List, [], ◌∷◌, get, without,
}

-- `inner` is the map behind the lock. A token of the crate tokio_util is the number under which it was
-- made, and `cancelled` are the tokens whose `cancel` was called.
pub record CancelRegistry : Type 0 where
  pub inner : List (Text × ℕ)
  pub cancelled : List ℕ
  pub made : ℕ

-- An insertion replaces the entry of the same name.
unfoldable pub register : Text → CancelRegistry → ℕ × CancelRegistry
register id r = (r.made, record r { inner = (id, r.made) ∷ without id r.inner; made = r.made + 1 })

unfoldable pub finish : Text → CancelRegistry → CancelRegistry
finish id r = record r { inner = without id r.inner }

unfoldable pub cancel_token : Text → CancelRegistry → Option ℕ → Bool × CancelRegistry
cancel_token id r none = (false, r)
cancel_token id r (some token) =
    (true, record r { inner = without id r.inner; cancelled = token ∷ r.cancelled })

unfoldable pub cancel : Text → CancelRegistry → Bool × CancelRegistry
unfolding cancel_token
cancel id r = cancel_token id r (get id r.inner)

-- The calls of the queries that run at the same time, in the order in which they take the lock.
pub data Event : Type 0 where
  start end_of cancel_of : Text → Event

unfoldable pub step : CancelRegistry → Event → CancelRegistry
unfolding register finish cancel
step r (start id) = (register id r).1
step r (end_of id) = finish id r
step r (cancel_of id) = (cancel id r).1

unfoldable pub run : CancelRegistry → List Event → CancelRegistry
unfolding step
run r [] = r
run r (ev ∷ evs) = run (step r ev) evs
