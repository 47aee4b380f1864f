-- ===== src/Gateway/Manager/Births.antt =====
-- The invariant at the steps in which a browser comes up (gateway/session-manager.ts).
use browse_gateway.Base.{
  ℕ, ◌≡◌, ◌⊎◌, ◌≢◌, inl, inr, true, false, Option, none, some, List, arith, ◌==◌, Bool-cases,
  ==_iff, ◌∙◌, ap, sym, subst, or-eq-true, or_left,
}
use browse_gateway.Base.Ids.{mem, put, remove, mem-put, mem-remove}
use browse_gateway.Gateway.Session.{Session}
use browse_gateway.Gateway.Ledger.{Ledger, write, set_record, add_orphan, late_resolve}
use browse_gateway.Gateway.Ledger.Heap.{Holds, Held, late_resolve-Holds, late_resolve-Holds_self}
use browse_gateway.Gateway.Ledger.Owned.{Same, late_resolve-Same}
use browse_gateway.Gateway.Ledger.Parked.{IsParked, late_resolve-IsParked}
use browse_gateway.Gateway.Ledger.Calm.{IsCalm, set_record-IsCalm, late_resolve-IsCalm}
use browse_gateway.Gateway.Manager.{
  launch_settles, register, launched_in_shutdown, reap_late_launch, orphan_of,
}
use browse_gateway.Gateway.Manager.Lookup.{has_session-snoc}
use browse_gateway.Gateway.Manager.Taken.{IsDeferred-put, take-IsSound}
use browse_gateway.Gateway.Manager.Steps.{World, IsNewRecord, IsNewId}
use browse_gateway.Gateway.Manager.Invariant.{Waits, Inv}

pub split_put :
    (k sid : ℕ) (alive : List ℕ) → mem k (put alive sid) ≡ true → (mem k alive ≡ true) ⊎ (k ≡ sid)
split_put k sid alive h =
    elim (or-eq-true (mem k alive) (k == sid) (sym (mem-put k sid alive) ∙ h)) [
      | inl old ↦ inl old
      | inr new ↦ inr ((==_iff k sid).0 new)
    ]

pub put_self : (k : ℕ) (xs : List ℕ) → mem k (put xs k) ≡ true
put_self k xs = ground (arith, mem-put k k xs)

pub put_keeps : (k j : ℕ) (xs : List ℕ) → mem k xs ≡ true → mem k (put xs j) ≡ true
put_keeps k j xs h = ground (arith, mem-put k j xs)

pub remove_keeps : (k j : ℕ) (xs : List ℕ) → k ≢ j → mem k xs ≡ true → mem k (remove xs j) ≡ true
remove_keeps k j xs far h = ground (arith, mem-remove k j xs)

pub dead_other : (alive : List ℕ) (k sid : ℕ) → mem k alive ≡ true → mem sid alive ≡ false → k ≢ sid
dead_other alive k sid live dead e = ground (arith, ap (λ a. mem a alive) e)

module _ (w : World) (i : Inv w) where
  pub registers-Inv :
      (s : Session) (dir : Option ℕ)
      → IsNewId w s.id
      → Inv (record { manager = register w.manager s dir; alive = put w.alive s.id })
  unfolding register launch_settles
  registers-Inv s dir fresh = record {
    counted = λ k h. elim (split_put k s.id w.alive h) [
      | inl old ↦ elim (i.counted k old) [
        | inl reg ↦ inl (has_session-snoc w.manager.sessions s k ∙ or_left (s.id == k) reg)
        | inr held ↦ inr held
      ]
      | inr new ↦ inl (has_session-snoc w.manager.sessions s k ∙ ground (arith, new))
    ];
    sound = record {
      unique = i.sound.unique;
      deferred = IsDeferred-put w.manager.ledger s.id w.alive fresh.not_held i.sound.deferred;
      tended = i.sound.tended;
      parked = i.sound.parked;
    };
    calm = i.calm;
  }

  -- A record takes a session that came up, and its teardown begins.
  taken-Inv :
      (l' : Ledger) (r sid : ℕ)
      → IsNewId w sid
      → ((q : ℕ) → q ≢ r → Same w.manager.ledger l' q)
      → Holds l' r sid
      → ((l'.heap r).settle_after_sweep ≡ false)
      → ((k q : ℕ) → Holds w.manager.ledger q k → Holds l' q k)
      → IsParked l'
      → IsCalm l'
      → Inv (record {
        manager = record w.manager { ledger = l'; reaping = put w.manager.reaping sid };
        alive = put w.alive sid;
      })
  taken-Inv l' r sid fresh same own plain kept parked calm = record {
    counted = λ k h. elim (split_put k sid w.alive h) [
      | inl old ↦ elim (i.counted k old) [
        | inl reg ↦ inl reg
        | inr (q, held) ↦ inr (q, kept k q held)
      ]
      | inr new ↦ inr (subst (Held l') (sym new) (r, own))
    ];
    sound =
        take-IsSound w.manager.ledger l' r sid same own.1 fresh.not_held plain w.alive
          (Waits w.manager)
          (Waits (record w.manager { ledger = l'; reaping = put w.manager.reaping sid }))
          (λ k waiting. elim waiting [
            | inl r ↦ inl (put_keeps k sid w.manager.reaping r)
            | inr u ↦ inr u
          ])
          (inl (put_self sid w.manager.reaping)) parked i.sound;
    calm = calm;
  }

  pub resolves_late-Inv :
      (r sid : ℕ)
      → (w.manager.ledger.heap r).session ≡ none
      → IsNewId w sid
      → Inv (record { manager = reap_late_launch w.manager r sid; alive = put w.alive sid })
  unfolding reap_late_launch
  resolves_late-Inv r sid free fresh =
      taken-Inv (late_resolve w.manager.ledger r sid) r sid fresh
        (λ q far. late_resolve-Same w.manager.ledger r q far sid)
        (late_resolve-Holds_self w.manager.ledger r sid) flag
        (λ k q h. late_resolve-Holds w.manager.ledger r q k sid (other k q h) h)
        (late_resolve-IsParked w.manager.ledger r i.sound.parked sid)
        (late_resolve-IsCalm w.manager.ledger r i.calm sid)
    where
      other : (k q : ℕ) → Holds w.manager.ledger q k → q ≢ r
      other k q h e =
          let f : (w.manager.ledger.heap q).session ≡ (w.manager.ledger.heap r).session =
            ap (λ a. (w.manager.ledger.heap a).session) e in
          ground (arith, h.1)

      flag : ((late_resolve w.manager.ledger r sid).heap r).settle_after_sweep ≡ false
      flag = elim (Bool-cases (w.manager.ledger.heap r).settle_after_sweep) [
        | inl up ↦ absurd (ground (arith, i.calm r up))
        | inr down ↦ unfold late_resolve write in (ground (arith, down))
      ]

  pub comes_up-Inv :
      (r sid : ℕ) (dir : Option ℕ)
      → IsNewRecord w.manager.ledger r
      → IsNewId w sid
      → Inv (record { manager = launched_in_shutdown w.manager r sid dir; alive = put w.alive sid })
  unfolding launched_in_shutdown add_orphan set_record
  comes_up-Inv r sid dir off fresh =
      taken-Inv l' r sid fresh
        (λ q far.
          unfold add_orphan set_record write in
          (ground (arith, mem-put q r w.manager.ledger.orphans)))
        (unfold add_orphan set_record write in
          (ground (arith, mem-put r r w.manager.ledger.orphans)))
        (unfold add_orphan set_record write in (ground arith)) (λ k q h. kept k q h) parked
        (set_record-IsCalm w.manager.ledger r i.calm (orphan_of dir (some sid) none false)
          (λ up. absurd (clash up)))
    where
      l' : Ledger
      l' = add_orphan (set_record w.manager.ledger r (orphan_of dir (some sid) none false)) r

      clash : false ≡ true → ⊥
      clash e = cc

      kept : (k q : ℕ) → Holds w.manager.ledger q k → Holds l' q k
      kept k q h =
          let far : q ≢ r =
            λ e. ground (arith, h.0, off.0, ap (λ a. mem a w.manager.ledger.orphans) e) in
          unfold add_orphan set_record write in
          (ground (arith, mem-put q r w.manager.ledger.orphans))

      parked : IsParked l'
      parked q h =
          let watched : mem q w.manager.ledger.watch ≡ true = unfold add_orphan set_record in h in
          let far : q ≢ r =
            λ e. ground (arith, watched, off.1, ap (λ a. mem a w.manager.ledger.watch) e) in
          unfold add_orphan set_record write in (ground (arith, i.sound.parked q watched))
