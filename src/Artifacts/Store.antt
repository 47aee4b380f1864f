-- ===== src/Artifacts/Store.antt =====
-- The artifact store: artifacts/store.ts. Identifiers, consumers, digests and inodes are numbers. What
-- the file system answers, and the time, are arguments.
pub mod Discard
pub mod Capture
pub mod Responses
pub mod Close
pub mod Runs
pub mod Outcomes
pub mod Books
pub mod Documents
pub mod Permits
use browse_gateway.Base.{
  ℕ, ◌+◌, ◌≡◌, Bool, true, false, ◌&&◌, ◌||◌, not, Option, none, some, List, [], ◌∷◌, ◌++◌, ◌==◌,
  if◌then◌else◌, find?, is_some, keep, leb, ◌%◌,
}
use browse_gateway.Base.Ids.{mem, put, remove}
use browse_gateway.Artifacts.Capacity.{Limits, Capacity, no_reservations, max_artifact_bytes}
use browse_gateway.Artifacts.Permit.{Lease, Permit, free_permit, settle_responses}

pub data RecordStatus : Type 0 where
  available consuming : RecordStatus

abbrev pub is_consuming : RecordStatus → Bool
is_consuming available = false
is_consuming consuming = true

pub record StoredRecord : Type 0 where
  pub id : ℕ
  pub consumer_id : ℕ
  pub bytes : ℕ
  pub sha256 : ℕ
  pub created_at : ℕ
  pub expires_at : ℕ
  pub status : RecordStatus
  pub inode : ℕ

-- A call of `onDiscard`.
pub record Notice : Type 0 where
  pub id : ℕ
  pub close_owned : Bool

-- How a close ended.
pub data CloseResult : Type 0 where
  closed_clean close_cleanup_failed : CloseResult

-- `timers` has the response timer of each artifact, with the lease that it was set for; `claimed` lists
-- the leases whose flag `claimed` is set. `result` is what the promise of the close
-- was resolved with.
pub record Store : Type 0 where
  pub enabled : Bool
  pub limits : Limits
  pub ttl_ms : ℕ
  pub close_requested : Bool
  pub unhealthy : Bool
  pub identity_lost : Bool
  pub teardown_started : Bool
  pub disposed : Bool
  pub active_captures : ℕ
  pub inflight : List ℕ
  pub discarded_inflight : List ℕ
  pub records : List StoredRecord
  pub timers : List Lease
  pub claimed : List ℕ
  pub capacity : Capacity
  pub permit : Permit
  pub notices : List Notice
  pub result : Option CloseResult

unfoldable pub new_store : Limits → ℕ → Store
new_store m ttl_ms = record {
  enabled = true;
  limits = m;
  ttl_ms = ttl_ms;
  close_requested = false;
  unhealthy = false;
  identity_lost = false;
  teardown_started = false;
  disposed = false;
  active_captures = 0;
  inflight = [];
  discarded_inflight = [];
  records = [];
  timers = [];
  claimed = [];
  capacity = no_reservations;
  permit = free_permit;
  notices = [];
  result = none;
}

-- The store takes no more work.
abbrev pub shut : Store → Bool
shut s = s.close_requested || s.unhealthy

abbrev pub is_record : ℕ → StoredRecord → Bool
is_record id r = r.id == id

abbrev pub record_of : ℕ → List StoredRecord → Option StoredRecord
record_of id rs = find? (is_record id) rs

abbrev pub has_record : ℕ → List StoredRecord → Bool
has_record id rs = is_some (record_of id rs)

unfoldable pub clear_timer : Store → ℕ → Store
clear_timer s id = record s { timers = keep (λ l. not (l.id == id)) s.timers }

-- Poison: no future work, no timers, no responses.
unfoldable pub mark_unhealthy : Store → Store
mark_unhealthy s = record s {
  unhealthy = true;
  timers = [];
  permit = settle_responses true s.permit;
}

-- The state after the proof of identity, and whether it held; `holds` is what the file system shows.
unfoldable pub identity_proven : Store → Bool → Store × Bool
identity_proven s holds =
    if s.identity_lost
    then (s, false)
    else if not s.enabled || holds
    then (s, true)
    else (mark_unhealthy (record s { identity_lost = true }), false)

-- Whether paths are gone for good: `touches` says that there are any, `deletes` that the file system
-- removes them and makes it durable.
unfoldable pub strict_delete : Store → Bool → Bool → Bool
strict_delete s touches deletes = not s.identity_lost && (not touches || deletes)

-- One reading of a file: what the descriptor proofs decide from.
pub record FileStat : Type 0 where
  pub is_file : Bool
  pub size : ℕ
  pub uid : ℕ
  pub mode : ℕ

abbrev pub is_user : ℕ → Option ℕ → Bool
is_user u none = false
is_user u (some v) = u == v

-- `me` is the user of the process, where there is one; the mode is `0600` under the mask `07777`.
unfoldable pub proven_file_stat : Option ℕ → FileStat → ℕ → Bool
proven_file_stat me f bytes =
    f.is_file
    && leb bytes max_artifact_bytes
    && f.size == bytes
    && is_user f.uid me
    && f.mode % 4096 == 384
