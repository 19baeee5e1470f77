-- ===== src/Cancel/Tests.antt =====
-- The theorems on the registry at concrete inputs.
use mathlib.Core.Bool.{false≢true}
use pawrly.Prelude.{◌≢◌, text_eq, text_eq_iff, codes, ◌≡◌, true, false, All, [], ◌∷◌}
use pawrly.Cancel.{CancelRegistry, register, finish, cancel, start, cancel_of, run}
use pawrly.Cancel.Laws.{register-cancel}
use pawrly.Cancel.Overlap.{IsNumbered, cancel-finish_overlap}

abbrev idle : CancelRegistry
idle = record { inner = []; cancelled = []; made = 0 }

other_name : codes "q1" ≢ codes "q2"
unfolding text_eq
other_name e = false≢true ((text_eq_iff (codes "q1") (codes "q2")).1 e)

register-cancel_example :
    let r' =
      run (register (codes "q1") idle).1 (start (codes "q2") ∷ cancel_of (codes "q2") ∷ []) in
    ((cancel (codes "q1") r').0 ≡ true)
    × ((cancel (codes "q1") r').1.cancelled ≡ (register (codes "q1") idle).0 ∷ r'.cancelled)
register-cancel_example =
    register-cancel (codes "q1") idle (start (codes "q2") ∷ cancel_of (codes "q2") ∷ [])
      (other_name, (other_name, tt))

numbered : IsNumbered idle
numbered = record { inner = tt; cancelled = tt }

-- The second query starts while another one runs, and that one is cancelled after it.
cancel-finish_overlap_example :
    let second =
      register (codes "q1") (run (register (codes "q1") idle).1 (start (codes "q2") ∷ [])) in
    let both = run second.1 (cancel_of (codes "q2") ∷ []) in
    ((register (codes "q1") idle).0 ≢ second.0)
    × ((cancel (codes "q1") both).0 ≡ true)
    × ((cancel (codes "q1") both).1.cancelled ≡ second.0 ∷ both.cancelled)
    × (cancel (codes "q1") (finish (codes "q1") both) ≡ (false, finish (codes "q1") both))
    × All (λ u. u ≢ second.0) (finish (codes "q1") both).cancelled
cancel-finish_overlap_example =
    cancel-finish_overlap (codes "q1") idle (start (codes "q2") ∷ []) (cancel_of (codes "q2") ∷ [])
      numbered (other_name, tt) (other_name, tt)
