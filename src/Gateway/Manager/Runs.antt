-- ===== src/Gateway/Manager/Runs.antt =====
-- The invariant at the other steps of the manager (gateway/session-manager.ts).
use browse_gateway.Base.{
  ℕ, ◌≡◌, refl, ◌≢◌, inl, inr, true, false, Option, none, some, arith, ◌∙◌, ap, subst,
}
use browse_gateway.Base.Ids.{mem}
use browse_gateway.Gateway.Session.Activity.{Verb}
use browse_gateway.Gateway.Ledger.{Ledger, enqueue_orphan, enforce_watch_cap}
use browse_gateway.Gateway.Ledger.Heap.{Holds, enqueue_orphan-Holds}
use browse_gateway.Gateway.Ledger.Parked.{enforce_watch_cap-IsParked}
use browse_gateway.Gateway.Ledger.Calm.{IsCalm, enqueue_orphan-IsCalm}
use browse_gateway.Gateway.Manager.{
  Manager, admitted, acquire, launch_settles, launch_failed, launch_timed_out, release,
  begin_teardown, orphan_of,
}
use browse_gateway.Gateway.Manager.Sound.{IsSound, enqueue_orphan-IsSound}
use browse_gateway.Gateway.Manager.Lookup.{has_session-act_on}
use browse_gateway.Gateway.Manager.Steps.{World, IsNewRecord, act_on, with_ledger}
use browse_gateway.Gateway.Manager.Invariant.{Waits, Inv, IsAlike, ledger-Inv, alike-Inv, swept-Inv}
use browse_gateway.Gateway.Manager.Births.{dead_other}

pub acquire-IsAlike : (m m' : Manager) (c : Option ℕ) → acquire m c ≡ admitted m' → IsAlike m m'
unfolding acquire
acquire-IsAlike m m' c e = record {
  same_sessions = ground arith;
  same_ledger = ground arith;
  same_reaping = ground arith;
  same_unconfirmed = ground arith;
}

pub release-IsAlike : (m : Manager) (sid : ℕ) → IsAlike m (release m sid)
unfolding release begin_teardown
release-IsAlike m sid = record {
  same_sessions = ground arith;
  same_ledger = ground arith;
  same_reaping = ground arith;
  same_unconfirmed = ground arith;
}

module _ (w : World) (i : Inv w) where
  -- A ledger step that keeps every record with a session.
  pub ends-Inv :
      (r : ℕ) (l' : Ledger)
      → ((q sid : ℕ)
          → ((w.manager.ledger.heap r).settle_after_sweep ≡ true → q ≢ r)
          → Holds w.manager.ledger q sid
          → Holds l' q sid)
      → IsSound l' w.alive (Waits w.manager)
      → IsCalm l'
      → Inv (record w { manager = with_ledger w.manager l' })
  ends-Inv r l' kept sound calm =
      swept-Inv w i l'
        (λ sid live old. (old.0, kept old.0 sid (λ up e. dead sid live old.0 old.1 up e) old.1))
        sound calm
    where
      dead :
          (sid : ℕ)
          → mem sid w.alive ≡ true
          → (q : ℕ) → Holds w.manager.ledger q sid
          → (w.manager.ledger.heap r).settle_after_sweep ≡ true
          → q ≢ r
      dead sid live q h up e =
          let (sw, gone) =
            i.sound.deferred r sid (subst (λ a. Holds w.manager.ledger a sid) e h) up in
          dead_other w.alive sid sid live gone refl

  pub fails-Inv :
      (r : ℕ) (dir c : Option ℕ)
      → IsNewRecord w.manager.ledger r
      → Inv (record w { manager = launch_failed w.manager r dir c })
  unfolding launch_failed launch_settles
  fails-Inv r none c off = alike-Inv w i (launch_failed w.manager r none c) (record {
    same_sessions = refl;
    same_ledger = refl;
    same_reaping = refl;
    same_unconfirmed = refl;
  })
  fails-Inv r (some d) c off =
      ledger-Inv w i (launch_failed w.manager r (some d) c)
        (enqueue_orphan w.manager.ledger r (orphan_of (some d) none c true)) refl refl refl refl
        (λ sid live old. (
          old.0,
          enqueue_orphan-Holds w.manager.ledger r old.0 sid (orphan_of (some d) none c true)
              (λ e. ground (arith, old.1.0, off.0, ap (λ a. mem a w.manager.ledger.orphans) e))
              old.1,
        ))
        (enqueue_orphan-IsSound w.manager.ledger r w.alive (Waits w.manager) i.sound
          (orphan_of (some d) none c true) refl)
        (enqueue_orphan-IsCalm w.manager.ledger r (orphan_of (some d) none c true) i.calm refl)

  pub times_out-Inv :
      (r : ℕ) (dir c : Option ℕ)
      → IsNewRecord w.manager.ledger r
      → Inv (record w { manager = launch_timed_out w.manager r dir c })
  unfolding launch_timed_out launch_settles
  times_out-Inv r dir c off =
      ledger-Inv w i (launch_timed_out w.manager r dir c)
        (enqueue_orphan w.manager.ledger r (orphan_of dir none c false)) refl refl refl refl
        (λ sid live old. (
          old.0,
          enqueue_orphan-Holds w.manager.ledger r old.0 sid (orphan_of dir none c false)
              (λ e. ground (arith, old.1.0, off.0, ap (λ a. mem a w.manager.ledger.orphans) e))
              old.1,
        ))
        (enqueue_orphan-IsSound w.manager.ledger r w.alive (Waits w.manager) i.sound
          (orphan_of dir none c false) refl)
        (enqueue_orphan-IsCalm w.manager.ledger r (orphan_of dir none c false) i.calm refl)

  pub caps-Inv :
      Inv (record w { manager = with_ledger w.manager (enforce_watch_cap w.manager.ledger 0) })
  unfolding enforce_watch_cap
  caps-Inv =
      swept-Inv w i (enforce_watch_cap w.manager.ledger 0) (λ sid live old. old)
        (record {
          unique = i.sound.unique;
          deferred = i.sound.deferred;
          tended = i.sound.tended;
          parked = enforce_watch_cap-IsParked w.manager.ledger 0 i.sound.parked 0;
        })
        i.calm

  pub acts-Inv :
      (sid : ℕ) (v : Verb)
      → Inv (record w { manager = record w.manager { sessions = act_on w.manager.sessions sid v } })
  acts-Inv sid v = record {
    counted = λ k h. elim (i.counted k h) [
      | inl reg ↦ inl (has_session-act_on w.manager.sessions sid k v ∙ reg)
      | inr held ↦ inr held
    ];
    sound = record {
      unique = i.sound.unique;
      deferred = i.sound.deferred;
      tended = i.sound.tended;
      parked = i.sound.parked;
    };
    calm = i.calm;
  }
