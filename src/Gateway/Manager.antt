-- ===== src/Gateway/Manager.antt =====
-- The session manager: gateway/session-manager.ts. Each function is one run of the source between
-- two waits; what a wait brings (how a launch, a teardown, a kill or a sweep ended) is an argument.
-- Sessions, cores, consumers and directories are known by numbers.
pub mod State
pub mod Launch
pub mod Teardown
pub mod Steps
pub mod Counts
pub mod Capped
pub mod Capacity
pub mod Reaper
pub mod Shutdown
pub mod Orphans
pub mod Sound
pub mod Lookup
pub mod Taken
pub mod Invariant
pub mod Births
pub mod Deaths
pub mod Runs
pub mod Kept
pub use browse_gateway.Gateway.Manager.State.{
  Manager, SessionFailureKind, Acquired, owners, orphan_owners, over_consumer_cap, reserve_for,
  release_for, orphan_of, admitted, refused, at_capacity_global, at_capacity_consumer,
  shutting_down_kind,
}
unfoldable pub use browse_gateway.Gateway.Manager.State.{
  get_count, set_count, delete_count, owned_by, count_owned, count_for_consumer, active_count,
  acquire, same_owner, drop_one, acquire_finally, launch_settles, new_manager,
}
unfoldable pub use browse_gateway.Gateway.Manager.Launch.{
  register, launched_in_shutdown, launch_failed, launch_timed_out, reap_late_launch,
  orphan_torn_down,
}
unfoldable pub use browse_gateway.Gateway.Manager.Teardown.{
  has_session, delete_session, begin_teardown, release, remove_owned_dir, torn_down, find_orphan,
  reconfirmed, is_stale, stale, release_all, sweep_all, reap_ledger, begin_shutdown,
}
