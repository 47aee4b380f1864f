-- ===== src/Artifacts/Store/Capture.antt =====
-- The capture of a document: `capture` of artifacts/store.ts, cut at its two awaits.
use browse_gateway.Base.{
  ℕ, ◌+◌, ◌-◌, Bool, true, false, ◌&&◌, ◌||◌, not, Option, none, some, [], ◌∷◌, ◌++◌, ltb, ◌==◌,
  if◌then◌else◌, or_else,
}
use browse_gateway.Base.Ids.{mem, put, remove}
use browse_gateway.Artifacts.Capacity
use browse_gateway.Artifacts.Capacity.{Capacity, Handle, max_artifact_bytes}
use browse_gateway.Artifacts.Store.{
  Store, StoredRecord, available, shut, has_record, mark_unhealthy, identity_proven, strict_delete,
}
use browse_gateway.Artifacts.Store.Discard.{Disk, reap_expired}
use browse_gateway.Artifacts.Store.Close.{CloseDisk, finish_close}

pub data ArtifactFailure : Type 0 where
  runtime_invalidated at_capacity size_limit not_pdf integrity_failed lifecycle_race :
      ArtifactFailure
  artifact_cleanup_failed write_failed : ArtifactFailure

-- What the source file and the staging of its copy come to.
pub record Source : Type 0 where
  pub opens : Bool
  pub is_file : Bool
  pub size : ℕ
  pub reads : Bool
  pub end_size : ℕ
  pub has_magic : Bool
  pub sha256 : ℕ
  pub holds : Bool
  pub stages : Bool
  pub cleans_up : Bool

-- A capture that waits: its reservation, and what its continuation will use.
pub record Pending : Type 0 where
  pub id : ℕ
  pub consumer_id : ℕ
  pub ttl_ms : Option ℕ
  pub reservation : Handle
  pub bytes : ℕ
  pub sha256 : ℕ

pub data Captured : Type 0 where
  capture_failed : ArtifactFailure → Captured
  published : StoredRecord → Captured
  waits : Pending → Captured

pub record CaptureStep : Type 0 where
  pub store : Store
  pub answer : Captured

-- The `finally` block: the reservation stays for a published or a retained document.
unfoldable pub leave : Store → ℕ → Handle → Bool → CloseDisk → Store
leave s id h keeps d =
    let s' = record s {
      capacity = Capacity.finish_copy s.capacity h keeps;
      discarded_inflight = remove s.discarded_inflight id;
      inflight = remove s.inflight id;
      active_captures = s.active_captures - 1;
    } in
    if s'.close_requested && s'.active_captures == 0 then finish_close s' d else s'

unfoldable pub fail : Store → ℕ → Handle → Bool → CloseDisk → ArtifactFailure → CaptureStep
fail s id h keeps d f = record { store = leave s id h keeps d; answer = capture_failed f }

-- The `catch` block: `touches` says that a name of the artifact was made.
unfoldable pub caught : Store → ℕ → Handle → Bool → Bool → CloseDisk → CaptureStep
caught s id h touches cleans_up d =
    if strict_delete s touches cleans_up
    then fail s id h false d write_failed
    else fail (mark_unhealthy s) id h true d artifact_cleanup_failed

abbrev pub pending_of : ℕ → ℕ → Option ℕ → Handle → Source → Pending
pending_of id c ttl_ms h f = record {
  id = id;
  consumer_id = c;
  ttl_ms = ttl_ms;
  reservation = h;
  bytes = f.size;
  sha256 = f.sha256;
}

-- From the exact size of the source to the first await.
unfoldable pub stage_copy : Store → ℕ → ℕ → Option ℕ → Handle → Source → CloseDisk → CaptureStep
stage_copy s id c ttl_ms h f d =
    let s' = record s { capacity = Capacity.shrink_reservation s.capacity h f.size } in
    if not f.reads
    then caught s' id h false f.cleans_up d
    else if not (f.end_size == f.size) || not f.has_magic
    then fail s' id h false d integrity_failed
    else let (s'', proven) = identity_proven s' f.holds in
      if not proven
      then fail s'' id h false d runtime_invalidated
      else if not f.stages
      then caught s'' id h true f.cleans_up d
      else record { store = s''; answer = waits (pending_of id c ttl_ms h f) }

unfoldable pub read_source : Store → ℕ → ℕ → Option ℕ → Handle → Source → CloseDisk → CaptureStep
read_source s id c ttl_ms h f d =
    if not f.opens
    then caught s id h false f.cleans_up d
    else if not f.is_file || ltb max_artifact_bytes f.size
    then fail s id h false d size_limit
    else if ltb f.size 5
    then fail s id h false d not_pdf
    else stage_copy s id c ttl_ms h f d

abbrev pub entered : Store → ℕ → Capacity → Store
entered s id l = record s {
  capacity = l;
  inflight = put s.inflight id;
  active_captures = s.active_captures + 1;
}

-- A call with a valid identifier, consumer and `ttlMs`.
unfoldable pub capture : Store → Disk → ℕ → ℕ → ℕ → Option ℕ → Source → CloseDisk → CaptureStep
capture s d now id c ttl_ms f dc =
    let s' = reap_expired s d now in
    if shut s' || not s'.enabled
    then record { store = s'; answer = capture_failed runtime_invalidated }
    else if has_record id s'.records || mem id s'.inflight
    then record { store = s'; answer = capture_failed at_capacity }
    else let (l, made) = Capacity.reserve s'.limits s'.capacity id c in
      if made
      then read_source (entered s' id l) id c ttl_ms (record { token = s'.capacity.next; id = id })
          f dc
      else record { store = s'; answer = capture_failed at_capacity }

-- The first await, of `afterPartFsync`, is over: `links` says that the final name was made and the
-- first one removed.
unfoldable pub after_part_fsync : Store → Pending → Bool → Bool → Bool → CloseDisk → CaptureStep
after_part_fsync s p holds links cleans_up d =
    if mem p.id s.discarded_inflight
    then fail s p.id p.reservation false d lifecycle_race
    else if shut s
    then fail s p.id p.reservation false d runtime_invalidated
    else let (s', proven) = identity_proven s holds in
      if not proven
      then fail s' p.id p.reservation true d runtime_invalidated
      else if not links
      then caught s' p.id p.reservation true cleans_up d
      else record { store = s'; answer = waits p }

unfoldable pub record_for : Store → Pending → ℕ → ℕ → StoredRecord
record_for s p inode now = record {
  id = p.id;
  consumer_id = p.consumer_id;
  bytes = p.bytes;
  sha256 = p.sha256;
  created_at = now;
  expires_at = now + or_else p.ttl_ms s.ttl_ms;
  status = available;
  inode = inode;
}

-- The proof of the final name and the commit.
unfoldable pub commit : Store → Pending → Option ℕ → Bool → ℕ → CloseDisk → CaptureStep
commit s p (some inode) cleans_up now d =
    let r = record_for s p inode now in
    record {
      store = leave (record s { records = s.records ++ r ∷ [] }) p.id p.reservation true d;
      answer = published r;
    }
commit s p none cleans_up now d = caught s p.id p.reservation true cleans_up d

-- The second await, of `afterLinkBeforeCommit`, is over: `proves` is the inode that the final name
-- was proved to have, if it was, and the data directory made durable.
unfoldable pub after_link : Store → Pending → Bool → Option ℕ → Bool → ℕ → CloseDisk → CaptureStep
after_link s p holds proves cleans_up now d =
    if mem p.id s.discarded_inflight
    then fail s p.id p.reservation false d lifecycle_race
    else let (s', proven) = identity_proven s holds in
      if not proven
      then fail s' p.id p.reservation true d runtime_invalidated
      else if shut s'
      then if strict_delete s' true cleans_up
        then fail s' p.id p.reservation false d runtime_invalidated
        else fail (mark_unhealthy s') p.id p.reservation true d artifact_cleanup_failed
      else commit s' p proves cleans_up now d
