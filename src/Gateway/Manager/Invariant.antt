-- ===== src/Gateway/Manager/Invariant.antt =====
-- The invariant of the manager (gateway/session-manager.ts) in its environment.
use browse_gateway.Base.{ℕ, ◌≡◌, refl, ◌⊎◌, inl, inr, true, List, arith, ◌∙◌, ap, sym, subst}
use browse_gateway.Base.Ids.{mem, remove, mem-remove}
use browse_gateway.Gateway.Ledger.{Ledger}
use browse_gateway.Gateway.Ledger.Heap.{Held}
use browse_gateway.Gateway.Ledger.Calm.{IsCalm}
use browse_gateway.Gateway.Manager.{Manager, has_session}
use browse_gateway.Gateway.Manager.Sound.{IsSound}
use browse_gateway.Gateway.Manager.Steps.{World, with_ledger}

-- A teardown or a reconfirm still owes the session an end.
abbrev pub Waits : Manager → ℕ → Type 0
Waits m sid = (mem sid m.reaping ≡ true) ⊎ (mem sid m.unconfirmed ≡ true)

-- A live session is registered or an orphan holds it.
abbrev pub IsCounted : Manager → List ℕ → Type 0
IsCounted m alive =
    (sid : ℕ) → mem sid alive ≡ true → (has_session m.sessions sid ≡ true) ⊎ Held m.ledger sid

pub record Inv (w : World) : Type 0 where
  pub counted : IsCounted w.manager w.alive
  pub sound : IsSound w.manager.ledger w.alive (Waits w.manager)
  pub calm : IsCalm w.manager.ledger

pub weaken-IsSound :
    (l : Ledger) (alive : List ℕ) (waits waits' : ℕ → Type 0)
    → ((k : ℕ) → waits k → waits' k)
    → IsSound l alive waits
    → IsSound l alive waits'
weaken-IsSound l alive waits waits' keep s = record {
  unique = s.unique;
  deferred = s.deferred;
  tended =
      λ q sid h. elim (s.tended q sid h) [ inl waiting ↦ inl (keep sid waiting) | inr up ↦ inr up ];
  parked = s.parked;
}

-- The sessions of one state are those of another, and so are the pending ends.
pub record IsAlike (m m' : Manager) : Type 0 where
  pub same_sessions : m'.sessions ≡ m.sessions
  pub same_ledger : m'.ledger ≡ m.ledger
  pub same_reaping : m'.reaping ≡ m.reaping
  pub same_unconfirmed : m'.unconfirmed ≡ m.unconfirmed

module _ (w : World) (i : Inv w) where
  -- A step of the ledger alone.
  pub ledger-Inv :
      (m' : Manager) (l' : Ledger)
      → m'.sessions ≡ w.manager.sessions
      → m'.ledger ≡ l'
      → m'.reaping ≡ w.manager.reaping
      → m'.unconfirmed ≡ w.manager.unconfirmed
      → ((sid : ℕ) → mem sid w.alive ≡ true → Held w.manager.ledger sid → Held l' sid)
      → IsSound l' w.alive (Waits w.manager)
      → IsCalm l'
      → Inv (record { manager = m'; alive = w.alive })
  ledger-Inv m' l' ss ls rs us held sound calm = record {
    counted = λ sid h. elim (i.counted sid h) [
      | inl reg ↦ inl (ap (λ x. has_session x sid) ss ∙ reg)
      | inr old ↦ inr (subst (λ l. Held l sid) (sym ls) (held sid h old))
    ];
    sound =
        subst (λ l. IsSound l w.alive (Waits m')) (sym ls)
          (weaken-IsSound l' w.alive (Waits w.manager) (Waits m')
            (λ k waiting. elim waiting [
              | inl r ↦ inl (ap (mem k) rs ∙ r)
              | inr u ↦ inr (ap (mem k) us ∙ u)
            ])
            sound);
    calm = subst IsCalm (sym ls) calm;
  }

  pub alike-Inv :
      (m' : Manager) → IsAlike w.manager m' → Inv (record { manager = m'; alive = w.alive })
  alike-Inv m' a =
      ledger-Inv m' w.manager.ledger a.same_sessions a.same_ledger a.same_reaping a.same_unconfirmed
        (λ sid h old. old) i.sound i.calm

  pub swept-Inv :
      (l' : Ledger)
      → ((sid : ℕ) → mem sid w.alive ≡ true → Held w.manager.ledger sid → Held l' sid)
      → IsSound l' w.alive (Waits w.manager)
      → IsCalm l'
      → Inv (record w { manager = with_ledger w.manager l' })
  swept-Inv l' held sound calm =
      ledger-Inv (with_ledger w.manager l') l' refl refl refl refl held sound calm

  pub dies-Inv : (sid : ℕ) → Inv (record w { alive = remove w.alive sid })
  dies-Inv sid = record {
    counted = λ k h. i.counted k (ground (arith, mem-remove k sid w.alive));
    sound = record {
      unique = i.sound.unique;
      deferred = λ q k h up.
          let (sw, dead) = i.sound.deferred q k h up in
          (sw, ground (arith, mem-remove k sid w.alive));
      tended = i.sound.tended;
      parked = i.sound.parked;
    };
    calm = i.calm;
  }
