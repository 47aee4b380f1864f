-- ===== src/Gateway/Manager/Teardown.antt =====
-- Teardowns, reconfirms and the reaper: `release`, `#beginTeardown`, `#drainUnconfirmed` and `reapIdle`
-- of gateway/session-manager.ts.
use browse_gateway.Base.{
  ℕ, ◌-◌, Bool, true, false, ◌&&◌, ◌||◌, not, Option, none, some, List, [], ◌∷◌, ◌++◌, map, ltb,
  ◌==◌, if◌then◌else◌, is_some, keep,
}
use browse_gateway.Base.Ids.{mem, put, remove}
use browse_gateway.Gateway.Session.{Session, in_flight_ms}
use browse_gateway.Gateway.Ledger.{
  OrphanRecord, Ledger, settle_reaped_orphan, sweep_orphan, enforce_watch_cap,
}
use browse_gateway.Gateway.Manager.State.{Manager, delete_count, owned_by}

unfoldable pub has_session : List Session → ℕ → Bool
has_session [] sid = false
has_session (s ∷ ss) sid = s.id == sid || has_session ss sid

-- `#sessions.delete(sid)`.
unfoldable pub delete_session : List Session → ℕ → List Session
delete_session [] sid = []
delete_session (s ∷ ss) sid =
    if s.id == sid then delete_session ss sid else s ∷ delete_session ss sid

unfoldable pub begin_teardown : Manager → ℕ → Manager
begin_teardown m sid =
    if mem sid m.closing
    then m
    else if mem sid m.unconfirmed
    then m
    else record m { closing = put m.closing sid }

unfoldable pub release : Manager → ℕ → Manager
unfolding begin_teardown
release m sid = if has_session m.sessions sid then begin_teardown m sid else m

abbrev owned_dir : List (ℕ × ℕ) → ℕ → List ℕ
owned_dir [] sid = []
owned_dir ((s, d) ∷ ds) sid = if s == sid then d ∷ [] else owned_dir ds sid

unfoldable pub remove_owned_dir : Manager → ℕ → Manager
unfolding delete_count
remove_owned_dir m sid = record m {
  removed_dirs = m.removed_dirs ++ owned_dir m.owned_dirs sid;
  owned_dirs = delete_count m.owned_dirs sid;
}

-- A registered session's teardown ended, confirmed or not.
unfoldable pub torn_down : Manager → ℕ → Bool → Manager
unfolding remove_owned_dir
torn_down m sid true =
    remove_owned_dir
      (record m { sessions = delete_session m.sessions sid; closing = remove m.closing sid }) sid
torn_down m sid false = record m {
  unconfirmed = put m.unconfirmed sid;
  closing = remove m.closing sid;
}

-- The first counted record that holds the session.
unfoldable pub find_orphan : (ℕ → OrphanRecord) → List ℕ → ℕ → Option ℕ
unfolding owned_by
find_orphan heap [] sid = none
find_orphan heap (r ∷ rs) sid =
    if owned_by sid (heap r).session then some r else find_orphan heap rs sid

abbrev settle_found : Ledger → Option ℕ → Ledger
settle_found l none = l
settle_found l (some r) = settle_reaped_orphan l r

-- A reconfirmed kill of `#drainUnconfirmed`.
unfoldable pub reconfirmed : Manager → ℕ → Manager
unfolding remove_owned_dir find_orphan
reconfirmed m sid =
    let m' =
      remove_owned_dir
        (record m {
          sessions = delete_session m.sessions sid;
          unconfirmed = remove m.unconfirmed sid;
        })
        sid in
    record m' { ledger = settle_found m.ledger (find_orphan m.ledger.heap m.ledger.orphans sid) }

-- What `reapIdle` reaps.
unfoldable pub is_stale : Manager → ℕ → ℕ → ℕ → Session → Bool
unfolding in_flight_ms
is_stale m ttl now max_in_flight s =
    not (mem s.id m.closing)
    && (not (mem s.id m.unconfirmed)
        && ((is_some s.consumer_id && (s.in_flight == 0 && ltb ttl (now - s.last_activity_at)))
            || (ltb 0 s.in_flight && ltb max_in_flight (in_flight_ms s now))))

unfoldable pub stale : Manager → ℕ → ℕ → ℕ → List ℕ
unfolding is_stale
stale m ttl now max_in_flight = map (λ s. s.id) (keep (is_stale m ttl now max_in_flight) m.sessions)

unfoldable pub release_all : Manager → List ℕ → Manager
unfolding release
release_all m [] = m
release_all m (sid ∷ sids) = release_all (release m sid) sids

unfoldable pub sweep_all : Ledger → List ℕ → Ledger
sweep_all l [] = l
sweep_all l (r ∷ rs) = sweep_all (sweep_orphan l r) rs

-- The reaper's pass over the ledger, after its waits for teardowns and kills.
unfoldable pub reap_ledger : Manager → Manager
unfolding sweep_all
reap_ledger m =
    let l = enforce_watch_cap m.ledger 0 in record m { ledger = sweep_all l (l.orphans ++ l.watch) }

unfoldable pub begin_shutdown : Manager → Manager
begin_shutdown m = record m { shutting_down = true }
