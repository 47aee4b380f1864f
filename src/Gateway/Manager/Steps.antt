-- ===== src/Gateway/Manager/Steps.antt =====
-- The manager in its environment: which runs of the source may come next. The environment launches
-- cores and lets them die; `alive` lists the sessions whose core's processes live.
use browse_gateway.Base.{
  ℕ, ◌≡◌, ◌≢◌, Bool, true, false, Option, none, some, List, [], ◌∷◌, if◌then◌else◌, ◌==◌, any,
}
use browse_gateway.Base.Ids.{mem, put, remove}
use browse_gateway.Gateway.Session.{Session}
use browse_gateway.Gateway.Session.Activity.{Verb, perform}
use browse_gateway.Gateway.Ledger.{
  Ledger, SweepResult, sweep_orphan, sweep_settled, sweep_rejected, late_reject, enforce_watch_cap,
}
use browse_gateway.Gateway.Manager.{
  Manager, admitted, acquire, acquire_finally, launch_settles, register, launched_in_shutdown,
  launch_failed, launch_timed_out, reap_late_launch, orphan_torn_down, has_session, release,
  torn_down, reconfirmed, begin_shutdown, same_owner,
}

pub record World : Type 0 where
  pub manager : Manager
  pub alive : List ℕ

-- The object is new: no list of the ledger has it.
abbrev pub IsNewRecord : Ledger → ℕ → Type 0
IsNewRecord l r = (mem r l.orphans ≡ false) × (mem r l.watch ≡ false)

-- `randomUUID` gives no identifier twice.
pub record IsNewId (w : World) (sid : ℕ) : Type 0 where
  pub not_alive : mem sid w.alive ≡ false
  pub not_registered : has_session w.manager.sessions sid ≡ false
  pub not_held : (q : ℕ) → (w.manager.ledger.heap q).session ≢ some sid

-- A launch for the consumer is in the list.
abbrev pub has_launch : List (Option ℕ) → Option ℕ → Bool
has_launch os o = any os (λ p. same_owner p o)

-- One verb on the session with the identifier.
unfoldable pub act_on : List Session → ℕ → Verb → List Session
act_on [] sid v = []
act_on (s ∷ ss) sid v = (if s.id == sid then perform s v else s) ∷ act_on ss sid v

abbrev pub with_ledger : Manager → Ledger → Manager
with_ledger m l = record m { ledger = l }

pub data Step (w : World) : World → Type 0 where
  acquires :
      (c : Option ℕ) (m : Manager)
      → acquire w.manager c ≡ admitted m
      → Step w (record w { manager = m })
  registers :
      (s : Session) (dir : Option ℕ)
      → w.manager.shutting_down ≡ false
      → has_launch w.manager.running s.consumer_id ≡ true
      → IsNewId w s.id
      → Step w (record { manager = register w.manager s dir; alive = put w.alive s.id })
  comes_up_in_shutdown :
      (r sid : ℕ) (dir : Option ℕ)
      → w.manager.shutting_down ≡ true
      → IsNewRecord w.manager.ledger r
      → IsNewId w sid
      → Step w
          (record { manager = launched_in_shutdown w.manager r sid dir; alive = put w.alive sid })
  settles :
      (c : Option ℕ)
      → has_launch w.manager.running c ≡ true
      → Step w (record w { manager = launch_settles w.manager c })
  fails :
      (r : ℕ) (dir c : Option ℕ)
      → has_launch w.manager.running c ≡ true
      → IsNewRecord w.manager.ledger r
      → Step w (record w { manager = launch_failed w.manager r dir c })
  times_out :
      (r : ℕ) (dir c : Option ℕ)
      → has_launch w.manager.running c ≡ true
      → IsNewRecord w.manager.ledger r
      → Step w (record w { manager = launch_timed_out w.manager r dir c })
  returns :
      (c : Option ℕ)
      → has_launch w.manager.returning c ≡ true
      → Step w (record w { manager = acquire_finally w.manager c })
  -- A promise settles once, so the record of one that is pending has no session.
  resolves_late :
      (r sid : ℕ)
      → (w.manager.ledger.heap r).session ≡ none
      → IsNewId w sid
      → Step w (record { manager = reap_late_launch w.manager r sid; alive = put w.alive sid })
  rejects_late :
      (r : ℕ)
      → (w.manager.ledger.heap r).session ≡ none
      → Step w (record w { manager = with_ledger w.manager (late_reject w.manager.ledger r) })
  -- The core's `close` and `kill` resolve only when its processes are dead.
  tears_orphan :
      (r sid : ℕ) (ok : Bool)
      → (w.manager.ledger.heap r).session ≡ some sid
      → mem sid w.manager.reaping ≡ true
      → (ok ≡ true → mem sid w.alive ≡ false)
      → Step w (record w { manager = orphan_torn_down w.manager r sid ok })
  releases : (sid : ℕ) → Step w (record w { manager = release w.manager sid })
  tears :
      (sid : ℕ) (ok : Bool)
      → mem sid w.manager.closing ≡ true
      → (ok ≡ true → mem sid w.alive ≡ false)
      → Step w (record w { manager = torn_down w.manager sid ok })
  -- Two drains may retry one kill, so the session need not wait any more when the second is heard.
  reconfirms :
      (sid : ℕ)
      → mem sid w.alive ≡ false
      → Step w (record w { manager = reconfirmed w.manager sid })
  sweeps :
      (r : ℕ)
      → Step w (record w { manager = with_ledger w.manager (sweep_orphan w.manager.ledger r) })
  sweep_ends :
      (r : ℕ) (result : SweepResult) (stamps : List ℕ)
      → (w.manager.ledger.heap r).sweeping ≡ true
      → Step w (record w {
        manager = with_ledger w.manager (sweep_settled w.manager.ledger r result stamps);
      })
  sweep_fails :
      (r : ℕ)
      → (w.manager.ledger.heap r).sweeping ≡ true
      → Step w (record w { manager = with_ledger w.manager (sweep_rejected w.manager.ledger r) })
  caps :
      Step w (record w { manager = with_ledger w.manager (enforce_watch_cap w.manager.ledger 0) })
  acts :
      (sid : ℕ) (v : Verb)
      → Step w
          (record w { manager = record w.manager { sessions = act_on w.manager.sessions sid v } })
  shuts : Step w (record w { manager = begin_shutdown w.manager })
  dies : (sid : ℕ) → Step w (record w { alive = remove w.alive sid })

pub data Reach (w : World) : World → Type 0 where
  here : Reach w w
  next : {u v : World} → Reach w u → Step u v → Reach w v
