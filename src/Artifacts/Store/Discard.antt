-- ===== src/Artifacts/Store/Discard.antt =====
-- The deletion of artifacts: `discardArtifactDetailed`, its two halves and the reaping of expired
-- records of artifacts/store.ts.
use browse_gateway.Base.{
  ℕ, Bool, true, false, ◌&&◌, ◌||◌, not, Option, none, some, List, [], ◌∷◌, ◌++◌, leb, ◌==◌,
  if◌then◌else◌, keep,
}
use browse_gateway.Base.Ids.{mem, put}
use browse_gateway.Artifacts.Capacity
use browse_gateway.Artifacts.Permit.{settle_holder}
use browse_gateway.Artifacts.Store.{
  Store, StoredRecord, is_consuming, Notice, shut, record_of, has_record, clear_timer,
  mark_unhealthy, identity_proven, strict_delete,
}

-- What the file system does with each artifact in a step: whether the trees are still those of the
-- store when the artifact is dealt with, and whether its names are removed for good.
pub record Disk : Type 0 where
  pub holds : ℕ → Bool
  pub deletes : ℕ → Bool

-- The facts of a physical deletion that the logical half needs.
pub record Deleted : Type 0 where
  pub existed : Bool
  pub newly_discarded_inflight : Bool

pub record Deletion : Type 0 where
  pub store : Store
  pub facts : Option Deleted

abbrev pub deleted_facts : Store → ℕ → Deleted
deleted_facts s id = record {
  existed = has_record id s.records;
  newly_discarded_inflight = mem id s.inflight && not (mem id s.discarded_inflight);
}

unfoldable pub unlink : Store → ℕ → Bool → Deletion
unlink s id deletes =
    if strict_delete s true deletes
    then record { store = s; facts = some (deleted_facts s id) }
    else record { store = mark_unhealthy s; facts = none }

-- The response that may be holding the artifact is settled, and its timer is cleared.
unfoldable pub let_go : Store → ℕ → Store
let_go s id =
    let s' = clear_timer s id in record s' { permit = settle_holder (shut s') id s'.permit }

unfoldable pub delete_physical : Store → Disk → ℕ → Deletion
delete_physical s d id =
    let (s', proven) = identity_proven (let_go s id) (d.holds id) in
    if proven then unlink s' id (d.deletes id) else record { store = s'; facts = none }

abbrev pub notice : Bool → ℕ → Bool → List Notice
notice true id close_owned = record { id = id; close_owned = close_owned } ∷ []
notice false id close_owned = []

unfoldable pub release_discarded : Store → ℕ → Deleted → Bool → Store
release_discarded s id f close_owned = record s {
  records = if f.existed then keep (λ r. not (r.id == id)) s.records else s.records;
  discarded_inflight =
      if f.newly_discarded_inflight then put s.discarded_inflight id else s.discarded_inflight;
  notices = s.notices ++ notice (f.existed || f.newly_discarded_inflight) id close_owned;
  capacity = Capacity.release_discarded s.capacity id;
}

abbrev pub released : Option Deleted → Store → ℕ → Store × Bool
released none s id = (s, false)
released (some f) s id = (release_discarded s id f false, true)

unfoldable pub discard_owned : Store → Disk → ℕ → Store × Bool
discard_owned s d id = let x = delete_physical s d id in released x.facts x.store id

pub data DiscardResult : Type 0 where
  discard_clean discard_refused discard_failed : DiscardResult

abbrev pub is_being_consumed : ℕ → List StoredRecord → Bool
is_being_consumed id rs = elim (record_of id rs) [ none ↦ false | some r ↦ is_consuming r.status ]

abbrev pub as_result : Bool → DiscardResult
as_result true = discard_clean
as_result false = discard_failed

unfoldable pub discard_artifact_detailed : Store → Disk → ℕ → Store × DiscardResult
discard_artifact_detailed s d id =
    if not s.enabled
    then (s, discard_clean)
    else if s.close_requested || s.disposed
    then (s, discard_refused)
    else if s.unhealthy
    then (s, discard_failed)
    else if is_being_consumed id s.records
    then (s, discard_refused)
    else let (s', clean) = discard_owned s d id in (s', as_result clean)

-- The loop goes over the records that were there when it began.
unfoldable pub reap : Store → Disk → ℕ → List StoredRecord → Store
reap s d now [] = s
reap s d now (r ∷ rs) =
    reap (if leb r.expires_at now then (discard_artifact_detailed s d r.id).0 else s) d now rs

unfoldable pub reap_expired : Store → Disk → ℕ → Store
reap_expired s d now = reap s d now s.records
