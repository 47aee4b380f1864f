-- ===== src/Gateway/Manager/Deaths.antt =====
-- The invariant at the steps in which a teardown or a kill ends (gateway/session-manager.ts).
use browse_gateway.Base.{
  ℕ, ◌≡◌, refl, ◌⊎◌, ◌≢◌, inl, inr, Bool, true, false, some, arith, ◌==◌, Bool-cases, Option-cases,
  ◌∙◌, ap, sym, subst,
}
use browse_gateway.Base.Ids.{mem, put, remove, mem-put, mem-remove}
use browse_gateway.Gateway.Ledger.{Ledger, settle_reaped_orphan}
use browse_gateway.Gateway.Ledger.Heap.{Holds, Held, settle_reaped_orphan-Holds}
use browse_gateway.Gateway.Ledger.Calm.{IsCalm, settle_reaped_orphan-IsCalm}
use browse_gateway.Gateway.Manager.{
  Manager, orphan_torn_down, remove_owned_dir, torn_down, find_orphan, reconfirmed,
}
use browse_gateway.Gateway.Manager.Sound.{IsSound, settle_reaped_orphan-IsSound}
use browse_gateway.Gateway.Manager.Lookup.{has_session-delete, find_orphan-some, find_orphan-none}
use browse_gateway.Gateway.Manager.Steps.{World}
use browse_gateway.Gateway.Manager.Invariant.{Waits, Inv, weaken-IsSound}
use browse_gateway.Gateway.Manager.Births.{put_keeps, remove_keeps, dead_other}

-- What waits after a session leaves one list and joins the other.
moved :
    (m : Manager) (sid k : ℕ)
    → Waits m k
    → (mem k (remove m.reaping sid) ≡ true) ⊎ (mem k (put m.unconfirmed sid) ≡ true)
moved m sid k waiting = elim (Bool-cases (k == sid)) [
  | inl same ↦ inr (ground (arith, mem-put k sid m.unconfirmed))
  | inr far ↦ elim waiting [
    | inl r ↦ inl (ground (arith, mem-remove k sid m.reaping))
    | inr u ↦ inr (put_keeps k sid m.unconfirmed u)
  ]
]

module _ (w : World) (i : Inv w) where
  -- A dead session's record is another one than a live session's.
  apart :
      (r sid k q : ℕ)
      → mem sid w.alive ≡ false
      → mem k w.alive ≡ true
      → (w.manager.ledger.heap r).session ≡ some sid
      → Holds w.manager.ledger q k
      → q ≢ r
  apart r sid k q dead live owned h e =
      let same : (w.manager.ledger.heap q).session ≡ (w.manager.ledger.heap r).session =
        ap (λ a. (w.manager.ledger.heap a).session) e in
      dead_other w.alive k sid live dead (ground (arith, h.1))

  pub tears_orphan-Inv :
      (r sid : ℕ) (ok : Bool)
      → (w.manager.ledger.heap r).session ≡ some sid
      → (ok ≡ true → mem sid w.alive ≡ false)
      → Inv (record w { manager = orphan_torn_down w.manager r sid ok })
  unfolding orphan_torn_down
  tears_orphan-Inv r sid true owned died = record {
    counted = λ k h. elim (i.counted k h) [
      | inl reg ↦ inl reg
      | inr (q, held) ↦ inr (
        q,
        settle_reaped_orphan-Holds w.manager.ledger r q k (apart r sid k q (died refl) h owned held)
            held,
      )
    ];
    sound =
        settle_reaped_orphan-IsSound w.manager.ledger r w.alive (Waits w.manager) i.sound sid
          (Waits (orphan_torn_down w.manager r sid true)) owned (died refl)
          (λ k far waiting. elim waiting [
            | inl x ↦ inl (remove_keeps k sid w.manager.reaping far x)
            | inr u ↦ inr u
          ]);
    calm = settle_reaped_orphan-IsCalm w.manager.ledger r i.calm (inr (ground (arith, owned)));
  }
  tears_orphan-Inv r sid false owned died = record {
    counted = i.counted;
    sound =
        weaken-IsSound w.manager.ledger w.alive (Waits w.manager)
          (Waits (orphan_torn_down w.manager r sid false))
          (λ k waiting. moved w.manager sid k waiting) i.sound;
    calm = i.calm;
  }

  pub tears-Inv :
      (sid : ℕ) (ok : Bool)
      → (ok ≡ true → mem sid w.alive ≡ false)
      → Inv (record w { manager = torn_down w.manager sid ok })
  unfolding torn_down remove_owned_dir
  tears-Inv sid true died = record {
    counted = λ k h. elim (i.counted k h) [
      | inl reg ↦ inl (
          has_session-delete w.manager.sessions sid k (dead_other w.alive k sid h (died refl))
          ∙ reg)
      | inr held ↦ inr held
    ];
    sound = record {
      unique = i.sound.unique;
      deferred = i.sound.deferred;
      tended = i.sound.tended;
      parked = i.sound.parked;
    };
    calm = i.calm;
  }
  tears-Inv sid false died = record {
    counted = i.counted;
    sound =
        weaken-IsSound w.manager.ledger w.alive (Waits w.manager)
          (Waits (torn_down w.manager sid false))
          (λ k waiting. elim waiting [
            | inl r ↦ inl r
            | inr u ↦ inr (put_keeps k sid w.manager.unconfirmed u)
          ])
          i.sound;
    calm = i.calm;
  }

  kept-Waits : (sid k : ℕ) → k ≢ sid → Waits w.manager k → Waits (reconfirmed w.manager sid) k
  unfolding reconfirmed remove_owned_dir
  kept-Waits sid k far waiting = elim waiting [
    | inl r ↦ inl r
    | inr u ↦ inr (remove_keeps k sid w.manager.unconfirmed far u)
  ]

  -- No record holds the session.
  unheld-IsSound :
      (sid : ℕ)
      → ((q : ℕ) → Holds w.manager.ledger q sid → ⊥)
      → IsSound w.manager.ledger w.alive (Waits (reconfirmed w.manager sid))
  unheld-IsSound sid nobody = record {
    unique = i.sound.unique;
    deferred = i.sound.deferred;
    tended = λ q k h. elim (i.sound.tended q k h) [
      | inl waiting ↦
          inl (kept-Waits sid k (λ e. nobody q (subst (Holds w.manager.ledger q) e h)) waiting)
      | inr up ↦ inr up
    ];
    parked = i.sound.parked;
  }

  pub reconfirms-Inv :
      (sid : ℕ) → mem sid w.alive ≡ false → Inv (record w { manager = reconfirmed w.manager sid })
  reconfirms-Inv sid dead =
      elim (Option-cases (find_orphan w.manager.ledger.heap w.manager.ledger.orphans sid)) [
        | inl nobody ↦
            finish w.manager.ledger (unfold reconfirmed remove_owned_dir in (rw nobody))
              (λ k h old. old)
              (unheld-IsSound sid (λ q h.
                find_orphan-none w.manager.ledger.heap w.manager.ledger.orphans sid q nobody h.0
                  h.1))
              i.calm
        | inr (r, found) ↦
            let owned =
              find_orphan-some w.manager.ledger.heap w.manager.ledger.orphans sid r found in
            finish (settle_reaped_orphan w.manager.ledger r)
              (unfold reconfirmed remove_owned_dir in (rw found))
              (λ k h old. (
                old.0,
                settle_reaped_orphan-Holds w.manager.ledger r old.0 k
                    (apart r sid k old.0 dead h owned old.1) old.1,
              ))
              (settle_reaped_orphan-IsSound w.manager.ledger r w.alive (Waits w.manager) i.sound sid
                (Waits (reconfirmed w.manager sid)) owned dead (kept-Waits sid))
              (settle_reaped_orphan-IsCalm w.manager.ledger r i.calm (inr (ground (arith, owned))))
      ]
    where
      finish :
          (l' : Ledger)
          → (reconfirmed w.manager sid).ledger ≡ l'
          → ((k : ℕ) → mem k w.alive ≡ true → Held w.manager.ledger k → Held l' k)
          → IsSound l' w.alive (Waits (reconfirmed w.manager sid))
          → IsCalm l'
          → Inv (record w { manager = reconfirmed w.manager sid })
      finish l' e held sound calm = record {
        counted = λ k h. elim (i.counted k h) [
          | inl reg ↦ inl (
              unfold reconfirmed remove_owned_dir in
              (has_session-delete w.manager.sessions sid k (dead_other w.alive k sid h dead) ∙ reg))
          | inr old ↦ inr (subst (λ l. Held l k) (sym e) (held k h old))
        ];
        sound = subst (λ l. IsSound l w.alive (Waits (reconfirmed w.manager sid))) (sym e) sound;
        calm = subst IsCalm (sym e) calm;
      }
