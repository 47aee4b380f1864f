-- ===== src/Gateway/Manager/Capacity.antt =====
-- The two caps of `acquire` and what its reservations count.
use browse_gateway.Base.{ℕ, ◌+◌, ◌≤◌, ◌≡◌, refl, true, false, arith, length, ◌∙◌, ap}
use browse_gateway.Gateway.Manager.{
  acquire_finally, launch_settles, register, launched_in_shutdown, launch_failed, launch_timed_out,
  reap_late_launch, orphan_torn_down, release, begin_teardown, remove_owned_dir, torn_down,
  reconfirmed, begin_shutdown, new_manager, get_count, count_owned, owners,
}
use browse_gateway.Gateway.Ledger.{
  late_reject, sweep_orphan, sweep_settled, sweep_rejected, enforce_watch_cap,
}
use browse_gateway.Gateway.Manager.Steps.{
  World, Step, Reach, here, next, acquires, registers, comes_up_in_shutdown, settles, fails,
  times_out, returns, resolves_late, rejects_late, tears_orphan, releases, tears, reconfirms,
  sweeps, sweep_ends, sweep_fails, caps, acts, shuts, dies,
}
use browse_gateway.Gateway.Manager.Kept.{new_world}
use browse_gateway.Gateway.Manager.Capped.{
  IsCapped, acquire-admitted, acquire-IsCapped, launch_settles-IsCapped, acquire_finally-IsCapped,
  register-IsCapped, release-IsCapped, torn_down-IsCapped, reconfirmed-IsCapped,
  orphan_torn_down-IsCapped, ledger-IsCapped, act_on-IsCapped,
}

Step-IsCapped : (w v : World) → IsCapped w.manager → Step w v → IsCapped v.manager
Step-IsCapped w _ i (acquires c m e) = acquire-IsCapped w.manager m c e i
Step-IsCapped w _ i (registers s dir opened launched fresh) =
    register-IsCapped w.manager s dir launched i
Step-IsCapped w _ i (comes_up_in_shutdown r sid dir closed off fresh) =
    unfold launched_in_shutdown in
    (record { total = i.total; reserved = i.reserved; share = i.share; held = i.held })
Step-IsCapped w _ i (settles c launched) = launch_settles-IsCapped w.manager c launched i
Step-IsCapped w _ i (fails r dir c launched off) =
    let j = launch_settles-IsCapped w.manager c launched i in
    unfold launch_failed in
    (record { total = j.total; reserved = j.reserved; share = j.share; held = j.held })
Step-IsCapped w _ i (times_out r dir c launched off) =
    let j = launch_settles-IsCapped w.manager c launched i in
    unfold launch_timed_out in
    (record { total = j.total; reserved = j.reserved; share = j.share; held = j.held })
Step-IsCapped w _ i (returns c launched) = acquire_finally-IsCapped w.manager c launched i
Step-IsCapped w _ i (resolves_late r sid free fresh) =
    unfold reap_late_launch in
    (record { total = i.total; reserved = i.reserved; share = i.share; held = i.held })
Step-IsCapped w _ i (rejects_late r free) =
    ledger-IsCapped w.manager (late_reject w.manager.ledger r) i
Step-IsCapped w _ i (tears_orphan r sid ok owned pending died) =
    orphan_torn_down-IsCapped w.manager r sid ok i
Step-IsCapped w _ i (releases sid) = release-IsCapped w.manager sid i
Step-IsCapped w _ i (tears sid ok pending died) = torn_down-IsCapped w.manager sid ok i
Step-IsCapped w _ i (reconfirms sid dead) = reconfirmed-IsCapped w.manager sid i
Step-IsCapped w _ i (sweeps r) = ledger-IsCapped w.manager (sweep_orphan w.manager.ledger r) i
Step-IsCapped w _ i (sweep_ends r result stamps busy) =
    ledger-IsCapped w.manager (sweep_settled w.manager.ledger r result stamps) i
Step-IsCapped w _ i (sweep_fails r busy) =
    ledger-IsCapped w.manager (sweep_rejected w.manager.ledger r) i
Step-IsCapped w _ i caps = ledger-IsCapped w.manager (enforce_watch_cap w.manager.ledger 0) i
Step-IsCapped w _ i (acts sid v) = act_on-IsCapped w.manager sid v i
Step-IsCapped w _ i shuts =
    unfold begin_shutdown in
    (record { total = i.total; reserved = i.reserved; share = i.share; held = i.held })
Step-IsCapped w _ i (dies sid) = i

Reach-IsCapped : (u v : World) → IsCapped u.manager → Reach u v → IsCapped v.manager
Reach-IsCapped u _ i here = i
Reach-IsCapped u _ i (next {u = w} {v} r s) = Step-IsCapped w v (Reach-IsCapped u w i r) s

new-IsCapped : (n k : ℕ) → IsCapped (new_manager n k)
unfolding new_manager count_owned get_count
new-IsCapped n k = record {
  total = omega arith;
  reserved = refl;
  share = λ d. omega arith;
  held = λ d. refl;
}

-- No step changes the caps.
Step-caps :
    (w v : World)
    → Step w v
    → (v.manager.max_sessions ≡ w.manager.max_sessions)
      × (v.manager.per_consumer_max ≡ w.manager.per_consumer_max)
Step-caps w _ (acquires c m e) =
    let same = (acquire-admitted w.manager m c e).0 in
    (ap (λ a. a.max_sessions) same, ap (λ a. a.per_consumer_max) same)
Step-caps w _ (registers s dir opened launched fresh) =
    unfold register launch_settles in (refl, refl)
Step-caps w _ (comes_up_in_shutdown r sid dir closed off fresh) =
    unfold launched_in_shutdown in (refl, refl)
Step-caps w _ (settles c launched) = unfold launch_settles in (refl, refl)
Step-caps w _ (fails r dir c launched off) = unfold launch_failed launch_settles in (refl, refl)
Step-caps w _ (times_out r dir c launched off) =
    unfold launch_timed_out launch_settles in (refl, refl)
Step-caps w _ (returns c launched) = unfold acquire_finally in (refl, refl)
Step-caps w _ (resolves_late r sid free fresh) = unfold reap_late_launch in (refl, refl)
Step-caps w _ (rejects_late r free) = (refl, refl)
Step-caps w _ (tears_orphan r sid true owned pending died) = unfold orphan_torn_down in (refl, refl)
Step-caps w _ (tears_orphan r sid false owned pending died) =
    unfold orphan_torn_down in (refl, refl)
Step-caps w _ (releases sid) = unfold release begin_teardown in (ground arith, ground arith)
Step-caps w _ (tears sid true pending died) = unfold torn_down remove_owned_dir in (refl, refl)
Step-caps w _ (tears sid false pending died) = unfold torn_down in (refl, refl)
Step-caps w _ (reconfirms sid dead) = unfold reconfirmed remove_owned_dir in (refl, refl)
Step-caps w _ (sweeps r) = (refl, refl)
Step-caps w _ (sweep_ends r result stamps busy) = (refl, refl)
Step-caps w _ (sweep_fails r busy) = (refl, refl)
Step-caps w _ caps = (refl, refl)
Step-caps w _ (acts sid v) = (refl, refl)
Step-caps w _ shuts = unfold begin_shutdown in (refl, refl)
Step-caps w _ (dies sid) = (refl, refl)

Reach-caps :
    (u v : World)
    → Reach u v
    → (v.manager.max_sessions ≡ u.manager.max_sessions)
      × (v.manager.per_consumer_max ≡ u.manager.per_consumer_max)
Reach-caps u _ here = (refl, refl)
Reach-caps u _ (next {u = w} {v} r s) =
    let (a, b) = Step-caps w v s in let (c, d) = Reach-caps u w r in (a ∙ c, b ∙ d)

-- In every state that a new manager reaches, the registered sessions and the launches that may still
-- register one are together no more than `max_sessions`, and for each consumer no more than
-- `per_consumer_max`.
pub sessions_bounded :
    (n k : ℕ) (w : World)
    → Reach (new_world n k) w
    → (length w.manager.sessions + length w.manager.running ≤ n)
      × ((c : ℕ) → count_owned c (owners w.manager.sessions) + count_owned c w.manager.running ≤ k)
sessions_bounded n k w r =
    let i = Reach-IsCapped (new_world n k) w (new-IsCapped n k) r in
    let (a, b) = Reach-caps (new_world n k) w r in
    (omega (arith, i.total, cap_n a), λ c. omega (arith, i.share c, cap_k b))
  where
    cap_n :
        w.manager.max_sessions ≡ (new_world n k).manager.max_sessions → w.manager.max_sessions ≡ n
    cap_n a = unfold new_manager in a

    cap_k :
        w.manager.per_consumer_max ≡ (new_world n k).manager.per_consumer_max
        → w.manager.per_consumer_max ≡ k
    cap_k b = unfold new_manager in b

-- In every state that a new manager reaches, `acquire` holds one reservation for each launch that
-- has not returned and no other, in all and for each consumer.
pub reservations_exact :
    (n k : ℕ) (w : World)
    → Reach (new_world n k) w
    → (w.manager.reserved ≡ length w.manager.running + length w.manager.returning)
      × ((c : ℕ)
          → get_count w.manager.reserved_by_consumer c
            ≡ count_owned c w.manager.running + count_owned c w.manager.returning)
reservations_exact n k w r =
    let i = Reach-IsCapped (new_world n k) w (new-IsCapped n k) r in (i.reserved, i.held)
