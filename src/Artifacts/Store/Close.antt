-- ===== src/Artifacts/Store/Close.antt =====
-- The ordered close of artifacts/store.ts: `close` and `#finishClose`.
use browse_gateway.Base.{
  ℕ, Bool, true, false, ◌&&◌, ◌||◌, not, Option, none, some, List, [], ◌∷◌, ◌++◌, ◌==◌,
  if◌then◌else◌, is_some,
}
use browse_gateway.Artifacts.Permit.{settle_responses}
use browse_gateway.Artifacts.Store.{
  Store, StoredRecord, CloseResult, closed_clean, close_cleanup_failed, mark_unhealthy,
  identity_proven, strict_delete,
}
use browse_gateway.Artifacts.Store.Discard.{Disk, Deleted, delete_physical, release_discarded}

-- What the file system does in a close: the first proof of identity, each artifact that is swept, the
-- listing of the directory and the removal of what is left there, its durability, and the teardown of
-- the data directory and the lock.
pub record CloseDisk : Type 0 where
  pub holds : Bool
  pub disk : Disk
  pub lists : Bool
  pub finds_names : Bool
  pub deletes_rest : Bool
  pub fsyncs_data : Bool
  pub tears_down : Bool

-- An artifact whose files are gone, and the facts of that.
pub record Swept : Type 0 where
  pub id : ℕ
  pub facts : Deleted

pub record Sweep : Type 0 where
  pub store : Store
  pub swept : List Swept
  pub records_clean : Bool

abbrev pub add_facts : ℕ → Option Deleted → Sweep → Sweep
add_facts id none w = record w { records_clean = false }
add_facts id (some f) w = record w { swept = w.swept ++ record { id = id; facts = f } ∷ [] }

-- Each record's files are deleted; nothing logical moves.
unfoldable pub sweep_records : Sweep → Disk → List StoredRecord → Sweep
sweep_records w d [] = w
sweep_records w d (r ∷ rs) =
    let x = delete_physical w.store d r.id in
    sweep_records (add_facts r.id x.facts (record w { store = x.store })) d rs

unfoldable pub release_swept : Store → List Swept → Store
release_swept s [] = s
release_swept s (w ∷ ws) = release_swept (release_discarded s w.id w.facts true) ws

-- The descriptors are closed and the promise is resolved.
abbrev pub resolved : Store → CloseResult → Store
resolved s r = record s { disposed = true; result = some r }

abbrev pub failed_close : Store → Store
failed_close s = resolved (mark_unhealthy s) close_cleanup_failed

unfoldable pub finish_sweep : Sweep → CloseDisk → Store
finish_sweep w d =
    if d.lists && w.records_clean && strict_delete w.store d.finds_names d.deletes_rest
    then if d.fsyncs_data && d.tears_down
      then resolved (release_swept w.store w.swept) closed_clean
      else failed_close w.store
    else failed_close w.store

unfoldable pub tear_down : Store → CloseDisk → Store
tear_down s d =
    let (s', proven) = identity_proven (record s { teardown_started = true }) d.holds in
    if proven
    then finish_sweep
        (sweep_records (record { store = s'; swept = []; records_clean = true }) d.disk s'.records)
        d
    else resolved s' close_cleanup_failed

unfoldable pub finish_close : Store → CloseDisk → Store
finish_close s d =
    if not s.close_requested || not (s.active_captures == 0) || s.disposed || s.teardown_started
    then s
    else tear_down s d

abbrev pub requested : Store → Store
requested s = record s {
  timers = [];
  permit = settle_responses s.unhealthy s.permit;
  close_requested = true;
}

-- A store that is disabled has nothing to tear down.
abbrev pub closed_disabled : Store → Store
closed_disabled s = record s {
  timers = [];
  permit = settle_responses s.unhealthy s.permit;
  result = some (if s.unhealthy then close_cleanup_failed else closed_clean);
}

-- The request is latched: a later call awaits the same promise.
unfoldable pub close : Store → CloseDisk → Store
close s d =
    if s.close_requested || is_some s.result
    then s
    else if not s.enabled
    then closed_disabled s
    else if s.active_captures == 0
    then finish_close (requested s) d
    else requested s
