-- ===== src/Artifacts/Store/Runs.antt =====
-- The runs of artifacts/store.ts: its calls, the resumptions of its awaits, and its timers.
use browse_gateway.Base.{ℕ, Bool, Option, none, some, List, [], ◌∷◌, if◌then◌else◌, ◌==◌}
use browse_gateway.Base.Ids.{mem}
use browse_gateway.Artifacts.Capacity.{Limits}
use browse_gateway.Artifacts.Store.{Store, new_store}
use browse_gateway.Artifacts.Store.Discard.{Disk, discard_artifact_detailed, reap_expired}
use browse_gateway.Artifacts.Store.Close.{CloseDisk, close}
use browse_gateway.Artifacts.Store.Capture.{
  Source, Pending, Captured, capture_failed, published, waits, CaptureStep, capture,
  after_part_fsync, after_link,
}
use browse_gateway.Artifacts.Store.Responses.{
  Reading, acquire, resume, complete, time_out, claim_timeout,
}

-- The store, and the capture of each identifier that waits.
pub record World : Type 0 where
  pub store : Store
  pub pending : ℕ → Option Pending

unfoldable pub new_world : Limits → ℕ → World
new_world m ttl_ms = record { store = new_store m ttl_ms; pending = λ id. none }

-- What happens to the store. A capture that waits goes on under its identifier; a waiter goes on after
-- the permit was given to it, or does nothing more. A close is one of a store that is enabled.
pub data Event : Type 0 where
  captures : Disk → ℕ → ℕ → ℕ → Option ℕ → Source → CloseDisk → Event
  part_fsynced : ℕ → Bool → Bool → Bool → CloseDisk → Event
  part_linked : ℕ → Bool → Option ℕ → Bool → ℕ → CloseDisk → Event
  acquires : Disk → ℕ → ℕ → ℕ → ℕ → Bool → Reading → Event
  resumes : Disk → ℕ → ℕ → ℕ → ℕ → Bool → Reading → Event
  completes : Disk → ℕ → Event
  times_out : Disk → ℕ → Event
  claims : ℕ → Event
  discards : Disk → ℕ → Event
  cleans : Disk → ℕ → Event
  closes : CloseDisk → Event

-- The capture that an answer leaves waiting.
abbrev pub waiting_of : Captured → Option Pending
waiting_of (waits p) = some p
waiting_of (published r) = none
waiting_of (capture_failed f) = none

abbrev pub set_at : ℕ → Option Pending → (ℕ → Option Pending) → ℕ → Option Pending
set_at id o f j = if id == j then o else f j

abbrev pub captured : ℕ → World → CaptureStep → World
captured id w x = record { store = x.store; pending = set_at id (waiting_of x.answer) w.pending }

abbrev pub either : Option Pending → Option Pending → Option Pending
either none b = b
either (some a) b = some a

-- A call of `capture` that is refused leaves a capture of the identifier that waits as it is.
abbrev pub called : ℕ → World → CaptureStep → World
called id w x = record {
  store = x.store;
  pending = set_at id (either (waiting_of x.answer) (w.pending id)) w.pending;
}

abbrev pub resumed : Option Pending → World → (Pending → World) → World
resumed none w f = w
resumed (some p) w f = f p

abbrev pub with_store : World → Store → World
with_store w s = record w { store = s }

unfoldable pub step : World → Event → World
step w (captures d now id c ttl_ms f dc) = called id w (capture w.store d now id c ttl_ms f dc)
step w (part_fsynced id holds links cleans_up d) =
    resumed (w.pending id) w
      λ p. captured p.id w (after_part_fsync w.store p holds links cleans_up d)
step w (part_linked id holds proves cleans_up now d) =
    resumed (w.pending id) w
      λ p. captured p.id w (after_link w.store p holds proves cleans_up now d)
step w (acquires d now v id c holds reading) =
    with_store w (acquire w.store d now v id c holds reading).store
step w (resumes d now v id c holds reading) =
    if mem v w.store.permit.granted
    then with_store w (resume w.store d now v id c holds reading).store
    else w
step w (completes d t) = with_store w (complete w.store d t)
step w (times_out d t) = with_store w (time_out w.store d t)
step w (claims t) = with_store w (claim_timeout w.store t)
step w (discards d id) = with_store w (discard_artifact_detailed w.store d id).0
step w (cleans d now) = with_store w (reap_expired w.store d now)
step w (closes d) = if w.store.enabled then with_store w (close w.store d) else w

unfoldable pub run : World → List Event → World
run w [] = w
run w (e ∷ es) = run (step w e) es
