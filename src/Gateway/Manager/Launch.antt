-- ===== src/Gateway/Manager/Launch.antt =====
-- How a launch ends: `#launchAndRegister` and `#reapLateLaunch` of gateway/session-manager.ts.
use browse_gateway.Base.{ℕ, Bool, true, false, Option, none, some, List, [], ◌∷◌, ◌++◌}
use browse_gateway.Base.Ids.{put, remove}
use browse_gateway.Gateway.Session.{Session}
use browse_gateway.Gateway.Ledger.{
  Ledger, set_record, add_orphan, enqueue_orphan, settle_reaped_orphan, late_resolve,
}
use browse_gateway.Gateway.Manager.State.{Manager, launch_settles, orphan_of}

abbrev own_dir : ℕ → Option ℕ → List (ℕ × ℕ) → List (ℕ × ℕ)
own_dir sid none dirs = dirs
own_dir sid (some d) dirs = dirs ++ (sid, d) ∷ []

-- The launch came up while the manager is open: the session is registered.
unfoldable pub register : Manager → Session → Option ℕ → Manager
unfolding launch_settles
register m s dir =
    let m' = launch_settles m s.consumer_id in
    record m' { sessions = m.sessions ++ s ∷ []; owned_dirs = own_dir s.id dir m.owned_dirs }

-- The launch came up while the manager shuts down: the core is an orphan and its teardown begins.
unfoldable pub launched_in_shutdown : Manager → ℕ → ℕ → Option ℕ → Manager
launched_in_shutdown m r sid dir = record m {
  ledger = add_orphan (set_record m.ledger r (orphan_of dir (some sid) none false)) r;
  reaping = put m.reaping sid;
}

abbrev enqueue_dir : Ledger → ℕ → Option ℕ → Option ℕ → Ledger
enqueue_dir l r none consumer = l
enqueue_dir l r (some d) consumer = enqueue_orphan l r (orphan_of (some d) none consumer true)

-- The factory threw, or its promise was rejected in time.
unfoldable pub launch_failed : Manager → ℕ → Option ℕ → Option ℕ → Manager
unfolding launch_settles
launch_failed m r dir consumer =
    let m' = launch_settles m consumer in record m' { ledger = enqueue_dir m.ledger r dir consumer }

-- The deadline passed first.
unfoldable pub launch_timed_out : Manager → ℕ → Option ℕ → Option ℕ → Manager
unfolding launch_settles
launch_timed_out m r dir consumer =
    let m' = launch_settles m consumer in
    record m' { ledger = enqueue_orphan m.ledger r (orphan_of dir none consumer false) }

-- The timed-out launch of a record resolves with a core.
unfoldable pub reap_late_launch : Manager → ℕ → ℕ → Manager
reap_late_launch m r sid = record m {
  ledger = late_resolve m.ledger r sid;
  reaping = put m.reaping sid;
}

-- The teardown of an orphan's core ended, confirmed or not.
unfoldable pub orphan_torn_down : Manager → ℕ → ℕ → Bool → Manager
orphan_torn_down m r sid true = record m {
  ledger = settle_reaped_orphan m.ledger r;
  reaping = remove m.reaping sid;
}
orphan_torn_down m r sid false = record m {
  unconfirmed = put m.unconfirmed sid;
  reaping = remove m.reaping sid;
}
