-- ===== src/Gateway/Manager/Kept.antt =====
-- The states that a new manager reaches (gateway/session-manager.ts).
use browse_gateway.Base.{ℕ, ◌≡◌, refl, ◌⊎◌, inl, inr, true, false, []}
use browse_gateway.Base.Ids.{mem}
use browse_gateway.Gateway.Ledger.{late_reject, sweep_orphan, sweep_settled, sweep_rejected}
use browse_gateway.Gateway.Ledger.Heap.{
  Holds, Held, sweep_orphan-Holds, sweep_settled-Holds, sweep_rejected-Holds, late_reject-Holds,
}
use browse_gateway.Gateway.Ledger.Calm.{
  sweep_orphan-IsCalm, sweep_settled-IsCalm, sweep_rejected-IsCalm, late_reject-IsCalm,
}
use browse_gateway.Gateway.Manager.{
  acquire_finally, launch_settles, has_session, release, begin_shutdown, new_manager,
}
use browse_gateway.Gateway.Manager.Sound.{
  sweep_orphan-IsSound, sweep_settled-IsSound, sweep_rejected-IsSound, late_reject-IsSound,
}
use browse_gateway.Gateway.Manager.Steps.{
  World, Step, Reach, here, next, acquires, registers, comes_up_in_shutdown, settles, fails,
  times_out, returns, resolves_late, rejects_late, tears_orphan, releases, tears, reconfirms,
  sweeps, sweep_ends, sweep_fails, caps, acts, shuts, dies,
}
use browse_gateway.Gateway.Manager.Invariant.{Waits, Inv, alike-Inv, swept-Inv, dies-Inv}
use browse_gateway.Gateway.Manager.Births.{registers-Inv, resolves_late-Inv, comes_up-Inv}
use browse_gateway.Gateway.Manager.Deaths.{tears_orphan-Inv, tears-Inv, reconfirms-Inv}
use browse_gateway.Gateway.Manager.Runs.{
  acquire-IsAlike, release-IsAlike, ends-Inv, fails-Inv, times_out-Inv, caps-Inv, acts-Inv,
}

Step-Inv : (w v : World) → Inv w → Step w v → Inv v
Step-Inv w _ i (acquires c m e) = alike-Inv w i m (acquire-IsAlike w.manager m c e)
Step-Inv w _ i (registers s dir opened launched fresh) = registers-Inv w i s dir fresh
Step-Inv w _ i (comes_up_in_shutdown r sid dir closed off fresh) =
    comes_up-Inv w i r sid dir off fresh
Step-Inv w _ i (settles c launched) = alike-Inv w i (launch_settles w.manager c) (
    unfold launch_settles in
    (record {
      same_sessions = refl;
      same_ledger = refl;
      same_reaping = refl;
      same_unconfirmed = refl;
    }))
Step-Inv w _ i (fails r dir c launched off) = fails-Inv w i r dir c off
Step-Inv w _ i (times_out r dir c launched off) = times_out-Inv w i r dir c off
Step-Inv w _ i (returns c launched) = alike-Inv w i (acquire_finally w.manager c) (
    unfold acquire_finally in
    (record {
      same_sessions = refl;
      same_ledger = refl;
      same_reaping = refl;
      same_unconfirmed = refl;
    }))
Step-Inv w _ i (resolves_late r sid free fresh) = resolves_late-Inv w i r sid free fresh
Step-Inv w _ i (rejects_late r free) =
    swept-Inv w i (late_reject w.manager.ledger r)
      (λ sid live old. (old.0, late_reject-Holds w.manager.ledger r old.0 sid old.1))
      (late_reject-IsSound w.manager.ledger r w.alive (Waits w.manager) i.sound free)
      (late_reject-IsCalm w.manager.ledger r i.calm)
Step-Inv w _ i (tears_orphan r sid ok owned pending died) = tears_orphan-Inv w i r sid ok owned died
Step-Inv w _ i (releases sid) =
    alike-Inv w i (release w.manager sid) (release-IsAlike w.manager sid)
Step-Inv w _ i (tears sid ok pending died) = tears-Inv w i sid ok died
Step-Inv w _ i (reconfirms sid dead) = reconfirms-Inv w i sid dead
Step-Inv w _ i (sweeps r) =
    swept-Inv w i (sweep_orphan w.manager.ledger r)
      (λ sid live old. (old.0, sweep_orphan-Holds w.manager.ledger r old.0 sid old.1))
      (sweep_orphan-IsSound w.manager.ledger r w.alive (Waits w.manager) i.sound)
      (sweep_orphan-IsCalm w.manager.ledger r i.calm)
Step-Inv w _ i (sweep_ends r result stamps busy) =
    ends-Inv w i r (sweep_settled w.manager.ledger r result stamps)
      (λ q sid far h. sweep_settled-Holds w.manager.ledger r q sid result stamps far h)
      (sweep_settled-IsSound w.manager.ledger r w.alive (Waits w.manager) i.sound result stamps)
      (sweep_settled-IsCalm w.manager.ledger r result stamps i.calm)
Step-Inv w _ i (sweep_fails r busy) =
    ends-Inv w i r (sweep_rejected w.manager.ledger r)
      (λ q sid far h. sweep_rejected-Holds w.manager.ledger r q sid far h)
      (sweep_rejected-IsSound w.manager.ledger r w.alive (Waits w.manager) i.sound)
      (sweep_rejected-IsCalm w.manager.ledger r i.calm)
Step-Inv w _ i caps = caps-Inv w i
Step-Inv w _ i (acts sid v) = acts-Inv w i sid v
Step-Inv w _ i shuts = alike-Inv w i (begin_shutdown w.manager) (
    unfold begin_shutdown in
    (record {
      same_sessions = refl;
      same_ledger = refl;
      same_reaping = refl;
      same_unconfirmed = refl;
    }))
Step-Inv w _ i (dies sid) = dies-Inv w i sid

Reach-Inv : (u v : World) → Inv u → Reach u v → Inv v
Reach-Inv u _ i here = i
Reach-Inv u _ i (next {u = w} {v} r s) = Step-Inv w v (Reach-Inv u w i r) s

-- A new manager with no live browser.
abbrev pub new_world : ℕ → ℕ → World
new_world max_sessions per_consumer_max = record {
  manager = new_manager max_sessions per_consumer_max;
  alive = [];
}

new_world-Inv : (n k : ℕ) → Inv (new_world n k)
unfolding new_manager mem
new_world-Inv n k = record {
  counted = λ sid h. cc;
  sound = record {
    unique = λ q p sid a b. cc;
    deferred = λ q sid h up. cc;
    tended = λ q sid h. cc;
    parked = λ q h. cc;
  };
  calm = λ q up. cc;
}

-- In every state that a new manager reaches, each session whose browser is alive is registered or is
-- held by a record of the counted orphans.
pub live_counted :
    (n k : ℕ) (w : World)
    → Reach (new_world n k) w
    → (sid : ℕ) → mem sid w.alive ≡ true
    → (has_session w.manager.sessions sid ≡ true) ⊎ Held w.manager.ledger sid
live_counted n k w r = (Reach-Inv (new_world n k) w (new_world-Inv n k) r).counted

-- In every state that a new manager reaches, a counted orphan that holds a session is owed an end:
-- its teardown is in flight, or its kill waits for a reconfirm, or its settlement is deferred to a
-- sweep of it that is in flight and its browser is dead.
pub held_tended :
    (n k : ℕ) (w : World)
    → Reach (new_world n k) w
    → (q sid : ℕ) → Holds w.manager.ledger q sid
    → (mem sid w.manager.reaping ≡ true)
      ⊎ ((mem sid w.manager.unconfirmed ≡ true)
          ⊎ (((w.manager.ledger.heap q).sweeping ≡ true) × (mem sid w.alive ≡ false)))
held_tended n k w r q sid h =
    let i = Reach-Inv (new_world n k) w (new_world-Inv n k) r in
    elim (i.sound.tended q sid h) [
      | inl waiting ↦ elim waiting [ inl a ↦ inl a | inr b ↦ inr (inl b) ]
      | inr up ↦ inr (inr (i.sound.deferred q sid h up))
    ]
