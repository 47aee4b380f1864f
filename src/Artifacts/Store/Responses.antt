-- ===== src/Artifacts/Store/Responses.antt =====
-- The leases of artifacts/store.ts: `acquire`, the response that a lease holds and its end.
use browse_gateway.Base.{
  ℕ, Bool, true, false, ◌&&◌, ◌||◌, not, Option, none, some, [], ◌∷◌, ◌++◌, ◌==◌, if◌then◌else◌,
  find?, is_some, keep,
}
use browse_gateway.Base.Ids.{mem}
use browse_gateway.Base.Totals.{replace}
use browse_gateway.Artifacts.Permit.{
  Lease, Permit, with_bytes, release_response, yield_permit, with_done, detach_response_settle,
  wait_for, take, hold, wake, lease_of,
}
use browse_gateway.Artifacts.Store.{
  Store, StoredRecord, consuming, is_consuming, shut, is_record, record_of, clear_timer,
  mark_unhealthy, identity_proven,
}
use browse_gateway.Artifacts.Store.Discard.{Disk, discard_owned, reap_expired}

abbrev pub is_theirs : ℕ → Option StoredRecord → Bool
is_theirs c none = false
is_theirs c (some r) = r.consumer_id == c && not (is_consuming r.status)

-- The state after the reaping of expired records, and whether the consumer may lease the artifact.
unfoldable pub leasable : Store → Disk → ℕ → ℕ → ℕ → Store × Bool
leasable s d now id c =
    let s' = reap_expired s d now in (s', not (shut s') && is_theirs c (record_of id s'.records))

-- What the read of the final name comes to, and whether it ends within the response's time.
pub data Reading : Type 0 where
  unreadable too_late in_time : Reading

pub data Answer : Type 0 where
  no_lease : Answer
  queued : Answer
  leased : StoredRecord → Answer

pub record LeaseStep : Type 0 where
  pub store : Store
  pub answer : Answer

abbrev pub with_permit : Store → Permit → Store
with_permit s p = record s { permit = p }

abbrev pub yielded : Bool → ℕ → Store → Store
yielded closing t s = with_permit s (yield_permit closing t s.permit)

-- A deletion that cannot be proved poisons the store.
unfoldable pub discard_or_poison : Store → Disk → ℕ → Store
discard_or_poison s d id =
    let (s', clean) = discard_owned s d id in if clean then s' else mark_unhealthy s'

-- The end of a lease's response, on every path: the artifact is deleted, or the store poisoned, before
-- the permit goes on.
unfoldable pub end_response : Store → Disk → ℕ → ℕ → Store
end_response s d t id =
    let s1 = clear_timer (with_permit s (with_done t s.permit)) id in
    let s2 = with_permit s1 (detach_response_settle id s1.permit) in
    let s3 = discard_or_poison s2 d id in yielded (shut s3) t s3

abbrev pub consumed : StoredRecord → StoredRecord
consumed r = record r { status = consuming }

-- The caller has the permit: its record is consumed, the timer is set, and the file is read.
unfoldable pub open_response : Store → Disk → ℕ → StoredRecord → Reading → LeaseStep
open_response s d id r reading =
    let s' = record s {
      permit = hold id s.permit;
      records = replace (is_record id) consumed s.records;
      timers =
          keep (λ l. not (l.id == id)) s.timers ++ record { token = s.permit.next; id = id } ∷ [];
    } in
    elim reading [
      | unreadable ↦ record { store = end_response s' d s.permit.next id; answer = no_lease }
      | too_late ↦ record { store = end_response s' d s.permit.next id; answer = no_lease }
      | in_time ↦ record {
        store = with_permit s' (with_bytes r.bytes s'.permit);
        answer = leased (consumed r);
      }
    ]

abbrev pub release_if_busy : Store → Store
release_if_busy s = if s.permit.busy then with_permit s (release_response (shut s) s.permit) else s

abbrev pub open_record : Store → Disk → ℕ → Option StoredRecord → Reading → LeaseStep
open_record s d id none reading = record { store = s; answer = no_lease }
open_record s d id (some r) reading = open_response s d id r reading

unfoldable pub admit_lease : Store → Disk → ℕ → Bool → Reading → LeaseStep
admit_lease s d id holds reading =
    let (s', proven) = identity_proven s holds in
    if proven
    then open_record s' d id (record_of id s.records) reading
    else record { store = release_if_busy s'; answer = no_lease }

-- A call of `acquire` with a valid identifier: the waiter is `w` if it has to wait.
unfoldable pub acquire : Store → Disk → ℕ → ℕ → ℕ → ℕ → Bool → Reading → LeaseStep
acquire s d now w id c holds reading =
    let (s', may) = leasable s d now id c in
    if not may
    then record { store = s'; answer = no_lease }
    else if s'.permit.busy
    then record { store = with_permit s' (wait_for w s'.permit); answer = queued }
    else admit_lease (with_permit s' (take s'.permit)) d id holds reading

-- A waiter that was given the permit goes on.
unfoldable pub resume : Store → Disk → ℕ → ℕ → ℕ → ℕ → Bool → Reading → LeaseStep
resume s d now w id c holds reading =
    let (s', may) = leasable (with_permit s (wake w s.permit)) d now id c in
    if may
    then admit_lease s' d id holds reading
    else record { store = with_permit s' (release_response (shut s') s'.permit); answer = no_lease }

-- `complete` of the lease object `t`: once, and with no discard in a store that is shut.
unfoldable pub complete_lease : Store → Disk → ℕ → ℕ → Store
complete_lease s d t id =
    if mem t s.permit.done
    then s
    else if shut s
    then yielded true t (clear_timer (with_permit s (with_done t s.permit)) id)
    else end_response s d t id

abbrev pub on_lease : Option ℕ → Store → (ℕ → Store) → Store
on_lease none s f = s
on_lease (some id) s f = f id

unfoldable pub complete : Store → Disk → ℕ → Store
complete s d t = on_lease (lease_of t s.permit.leases) s (λ id. complete_lease s d t id)

unfoldable pub expire_lease : Store → Disk → ℕ → ℕ → Store
expire_lease s d t id =
    let s' = clear_timer s id in
    if mem t s'.permit.done || shut s' then s' else end_response s' d t id

abbrev pub is_timer_of : ℕ → Lease → Bool
is_timer_of t l = l.token == t

-- The response timer of the lease object `t` fires, if it is set.
unfoldable pub time_out : Store → Disk → ℕ → Store
time_out s d t =
    if is_some (find? (is_timer_of t) s.timers)
    then on_lease (lease_of t s.permit.leases) s (λ id. expire_lease s d t id)
    else s

-- The caller takes over the deadline, once.
unfoldable pub claim_timeout : Store → ℕ → Store
claim_timeout s t =
    if mem t s.claimed
    then s
    else on_lease (lease_of t s.permit.leases) s
        λ id. clear_timer (record s { claimed = t ∷ s.claimed }) id
