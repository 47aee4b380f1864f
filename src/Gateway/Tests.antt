-- ===== src/Gateway/Tests.antt =====
-- Runs of the gateway at concrete inputs.
use browse_gateway.Base.{
  inl, inr, arith, ℕ, zero, suc, ◌≡◌, ◌≤◌, ◌+◌, ◌==◌, refl, ◌⊎◌, true, false, Option, none, some,
  List, [], ◌∷◌, length, arith,
}
use browse_gateway.Base.Ids.{mem, put}
use browse_gateway.Gateway.Session.{Session, new_session}
use browse_gateway.Gateway.Session.Activity.{begins, ends, perform_all, in_flight-perform_all}
use browse_gateway.Gateway.Ledger.{
  Ledger, write, set_record, add_orphan, sweep_orphan, enqueue_orphan, late_resolve,
}
use browse_gateway.Gateway.Ledger.Heap.{Holds, Held}
use browse_gateway.Gateway.Manager.{
  Manager, acquire, active_count, count_for_consumer, get_count, set_count, count_owned, owners,
  orphan_of, same_owner, launch_settles, register, launch_timed_out, reap_late_launch, has_session,
  new_manager,
}
use browse_gateway.Gateway.Manager.{release_all, stale}
use browse_gateway.Gateway.Manager.Reaper.{reap_closes}
use browse_gateway.Gateway.Manager.Shutdown.{Closes, shutdown_admits_nothing}
use browse_gateway.Gateway.Manager.{begin_shutdown, launch_failed}
use browse_gateway.Gateway.Manager.Steps.{fails}
use browse_gateway.Gateway.Manager.Steps.{
  World, Step, Reach, here, next, acquires, registers, times_out, resolves_late,
}
use browse_gateway.Gateway.Manager.Kept.{new_world, live_counted, held_tended}
use browse_gateway.Gateway.Manager.Capacity.{sessions_bounded, reservations_exact}

-- Consumer 7 opens session 5.
abbrev reserved_manager : Manager
reserved_manager = record (new_manager 2 1) {
  reserved = 1;
  reserved_by_consumer = (7, 1) ∷ [];
  running = some 7 ∷ [];
}

abbrev reserved_world : World
reserved_world = record { manager = reserved_manager; alive = [] }

reserves : Step (new_world 2 1) reserved_world
reserves = acquires (some 7) reserved_manager (
    unfold acquire new_manager active_count count_for_consumer get_count set_count count_owned in
    refl)

abbrev session_5 : Session
session_5 = new_session 5 (some 7) true 100

abbrev registered_world : World
registered_world = record { manager = register reserved_manager session_5 none; alive = put [] 5 }

registers_5 : Step reserved_world registered_world
unfolding new_session
registers_5 =
    registers session_5 none (unfold new_manager in refl) (unfold new_session same_owner in refl) (
      unfold new_manager new_session mem has_session in
      (record { not_alive = refl; not_registered = refl; not_held = λ q e. cc }))

opens_5 : Reach (new_world 2 1) registered_world
opens_5 = next (next here reserves) registers_5

live_counted_example :
    (has_session registered_world.manager.sessions 5 ≡ true)
    ⊎ Held registered_world.manager.ledger 5
live_counted_example = live_counted 2 1 registered_world opens_5 5 (unfold put mem in refl)

sessions_bounded_example :
    (length registered_world.manager.sessions + length registered_world.manager.running ≤ 2)
    × ((c : ℕ)
        → count_owned c (owners registered_world.manager.sessions)
            + count_owned c registered_world.manager.running
          ≤ 1)
sessions_bounded_example = sessions_bounded 2 1 registered_world opens_5

reservations_exact_example :
    (registered_world.manager.reserved
      ≡ length registered_world.manager.running + length registered_world.manager.returning)
    × ((c : ℕ)
        → get_count registered_world.manager.reserved_by_consumer c
          ≡ count_owned c registered_world.manager.running
            + count_owned c registered_world.manager.returning)
reservations_exact_example = reservations_exact 2 1 registered_world opens_5

-- The launch misses its deadline with a directory, and comes up later as session 9.
abbrev late_world : World
late_world = record { manager = launch_timed_out reserved_manager 0 (some 3) (some 7); alive = [] }

abbrev held_world : World
held_world = record { manager = reap_late_launch late_world.manager 0 9; alive = put [] 9 }

times_out_7 : Step reserved_world late_world
times_out_7 =
    times_out 0 (some 3) (some 7) (unfold same_owner in refl)
      (unfold new_manager mem in (refl, refl))

misses : Reach (new_world 2 1) late_world
misses = next (next here reserves) times_out_7

late_heap : (q : ℕ) → (late_world.manager.ledger.heap q).session ≡ none
unfolding launch_timed_out launch_settles new_manager enqueue_orphan set_record add_orphan
    sweep_orphan write put mem
late_heap q = ground arith

comes_up_late : Reach (new_world 2 1) held_world
comes_up_late = next misses (
    resolves_late 0 9 (late_heap 0) (record {
      not_alive = unfold mem in refl;
      not_registered = unfold launch_timed_out launch_settles new_manager has_session in refl;
      not_held = λ q e. absurd (none_not 9 (late_heap q) e);
    }))
  where
    none_not : {o : Option ℕ} (k : ℕ) → o ≡ none → o ≡ some k → ⊥
    none_not k a b = cc

held_tended_example :
    (mem 9 held_world.manager.reaping ≡ true)
    ⊎ ((mem 9 held_world.manager.unconfirmed ≡ true)
        ⊎ (((held_world.manager.ledger.heap 0).sweeping ≡ true) × (mem 9 held_world.alive ≡ false)))
held_tended_example = held_tended 2 1 held_world comes_up_late 0 9 holds
  where
    holds : Holds held_world.manager.ledger 0 9
    holds =
        unfold reap_late_launch launch_timed_out launch_settles new_manager enqueue_orphan
          set_record add_orphan sweep_orphan write put mem late_resolve in
        (refl, refl)

-- One more than the cap is watched, and the eldest is being swept.
abbrev numbers : ℕ → List ℕ
numbers zero = []
numbers (suc n) = n ∷ numbers n

abbrev crowded : Ledger
crowded = record {
  heap = λ q. record (orphan_of (some q) none none false) { sweeping = q == 32 };
  orphans = [];
  watch = numbers 33;
  removed = [];
}

in_flight-perform_all_example :
    (perform_all (new_session 5 (some 7) true 0) (begins 1 ∷ begins 2 ∷ ends 3 ∷ [])).in_flight ≡ 1
in_flight-perform_all_example =
    (in_flight-perform_all 5 (some 7) true 0 (begins 1 ∷ begins 2 ∷ ends 3 ∷ [])).0

-- Session 5 is idle since 100.
reap_closes_example :
    mem 5
      (release_all registered_world.manager
        (stale registered_world.manager 900 1200 600000)).closing
    ≡ true
reap_closes_example = (reap_closes registered_world.manager 900 1200 600000 5).1 (
    inr (
      unfold register launch_settles new_manager new_session mem in
      (inl (refl, (refl, refl, inl (refl, refl, omega arith))))))

-- Shutdown begins while the launch of consumer 7 is in flight, and the launch fails.
abbrev shut_world : World
shut_world = record { manager = begin_shutdown reserved_manager; alive = [] }

abbrev failed_world : World
failed_world = record { manager = launch_failed shut_world.manager 0 (some 3) (some 7); alive = [] }

fails_7 : Step shut_world failed_world
fails_7 =
    fails 0 (some 3) (some 7) (unfold begin_shutdown same_owner in refl)
      (unfold begin_shutdown new_manager mem in (refl, refl))

shutdown_admits_nothing_example : Closes shut_world.manager failed_world.manager
shutdown_admits_nothing_example =
    shutdown_admits_nothing shut_world failed_world (unfold begin_shutdown in refl)
      (next here fails_7)
