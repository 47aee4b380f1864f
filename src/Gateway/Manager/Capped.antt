-- ===== src/Gateway/Manager/Capped.antt =====
-- The caps of `acquire` at each run of the manager (gateway/session-manager.ts).
use browse_gateway.Base.{
  ℕ, suc, ◌+◌, ◌-◌, ◌≤◌, ◌≡◌, Bool, true, false, Option, none, some, List, [], ◌∷◌, arith, length,
  length-append, if_cases, ap, sym, subst,
}
use browse_gateway.Base.Ids.{mem, put}
use browse_gateway.Gateway.Session.{Session}
use browse_gateway.Gateway.Session.Activity.{Verb}
use browse_gateway.Gateway.Manager.{
  Manager, has_session, admitted, acquire, acquire_finally, launch_settles, register,
  orphan_torn_down, release, begin_teardown, remove_owned_dir, torn_down, reconfirmed, get_count,
  owned_by, count_owned, owners, count_for_consumer, active_count, reserve_for, over_consumer_cap,
}
use browse_gateway.Gateway.Ledger.{Ledger}
use browse_gateway.Gateway.Manager.Steps.{with_ledger, act_on, has_launch}
use browse_gateway.Gateway.Manager.Counts.{
  get_count-set_count, get_count-delete_count, count_owned-drop_one, length-drop_one,
  count_owned-snoc, count_owned-delete, length-delete_session, owners-act_on, length-owners,
}

pub record IsCapped (m : Manager) : Type 0 where
  pub total : length m.sessions + length m.running ≤ m.max_sessions
  pub reserved : m.reserved ≡ length m.running + length m.returning
  pub share :
      (c : ℕ) → count_owned c (owners m.sessions) + count_owned c m.running ≤ m.per_consumer_max
  pub held :
      (c : ℕ)
      → get_count m.reserved_by_consumer c ≡ count_owned c m.running + count_owned c m.returning

pub get_cong : (m : List (ℕ × ℕ)) (c d : ℕ) → c ≡ d → get_count m c ≡ get_count m d
get_cong m c d e = rw e

pub owned_cong : (os : List (Option ℕ)) (c d : ℕ) → c ≡ d → count_owned c os ≡ count_owned d os
owned_cong os c d e = rw e

-- The state after an admission.
abbrev pub with_reservation : Manager → Option ℕ → Manager
with_reservation m c = record m {
  reserved = m.reserved + 1;
  reserved_by_consumer = reserve_for c m.reserved_by_consumer;
  running = c ∷ m.running;
}

pub admitted_inj : (m m' : Manager) → admitted m ≡ admitted m' → m' ≡ m
admitted_inj m m' e = cc

-- `acquire` admits within both caps only.
pub acquire-admitted :
    (m m' : Manager) (c : Option ℕ)
    → acquire m c ≡ admitted m'
    → (m' ≡ with_reservation m c)
      × (suc (active_count m + m.reserved) ≤ m.max_sessions)
      × (over_consumer_cap m c ≡ false)
unfolding acquire
acquire-admitted m m' c e =
    (admitted_inj (with_reservation m c) m' (ground arith), ground arith, ground arith)

pub acquire-IsCapped :
    (m m' : Manager) (c : Option ℕ) → acquire m c ≡ admitted m' → IsCapped m → IsCapped m'
acquire-IsCapped m m' c e i =
    let (same, room, share) = acquire-admitted m m' c e in
    subst IsCapped (sym same) (admitted-IsCapped c room share)
  where
    admitted-IsCapped :
        (c : Option ℕ)
        → suc (active_count m + m.reserved) ≤ m.max_sessions
        → over_consumer_cap m c ≡ false
        → IsCapped (with_reservation m c)
    admitted-IsCapped none room share = record {
      total = unfold active_count in (omega (arith, i.total, i.reserved, room));
      reserved = omega (arith, i.reserved);
      share = λ d. unfold count_owned owned_by in (i.share d);
      held = λ d. unfold count_owned owned_by in (i.held d);
    }
    admitted-IsCapped (some c) room share = record {
      total = unfold active_count in (omega (arith, i.total, i.reserved, room));
      reserved = omega (arith, i.reserved);
      share = λ d.
          unfold count_owned owned_by count_for_consumer in
          (ground (
            arith,
            i.share d,
            i.share c,
            i.held c,
            share,
            owned_cong (owners m.sessions) c d,
            owned_cong m.running c d,
          ));
      held = λ d.
          unfold count_owned owned_by in
          (ground (
            arith,
            i.held d,
            get_count-set_count m.reserved_by_consumer c (get_count m.reserved_by_consumer c + 1) d,
            get_cong m.reserved_by_consumer c d,
          ));
    }

pub launch_settles-IsCapped :
    (m : Manager) (c : Option ℕ)
    → has_launch m.running c ≡ true
    → IsCapped m
    → IsCapped (launch_settles m c)
unfolding launch_settles count_owned
launch_settles-IsCapped m c launched i = record {
  total = omega (arith, i.total, length-drop_one c m.running launched);
  reserved = omega (arith, i.reserved, length-drop_one c m.running launched);
  share = λ d. omega (arith, i.share d, count_owned-drop_one d c m.running launched);
  held = λ d. ground (arith, i.held d, count_owned-drop_one d c m.running launched);
}

pub acquire_finally-IsCapped :
    (m : Manager) (c : Option ℕ)
    → has_launch m.returning c ≡ true
    → IsCapped m
    → IsCapped (acquire_finally m c)
unfolding acquire_finally
acquire_finally-IsCapped m none launched i = record {
  total = i.total;
  reserved = omega (arith, i.reserved, length-drop_one none m.returning launched);
  share = i.share;
  held = λ d.
      unfold owned_by in
      (ground (arith, i.held d, count_owned-drop_one d none m.returning launched));
}
acquire_finally-IsCapped m (some c) launched i = record {
  total = i.total;
  reserved = omega (arith, i.reserved, length-drop_one (some c) m.returning launched);
  share = i.share;
  held = λ d.
      unfold owned_by in
      (ground (
        arith,
        i.held d,
        count_owned-drop_one d (some c) m.returning launched,
        get_count-set_count m.reserved_by_consumer c (get_count m.reserved_by_consumer c - 1) d,
        get_count-delete_count m.reserved_by_consumer c d,
        get_cong m.reserved_by_consumer c d,
      ));
}

pub register-IsCapped :
    (m : Manager) (s : Session) (dir : Option ℕ)
    → has_launch m.running s.consumer_id ≡ true
    → IsCapped m
    → IsCapped (register m s dir)
unfolding register launch_settles
register-IsCapped m s dir launched i =
    let j = launch_settles-IsCapped m s.consumer_id launched i in
    record {
      total = omega (
        arith,
        i.total,
        length-drop_one s.consumer_id m.running launched,
        length-append m.sessions (s ∷ []),
      );
      reserved = unfold launch_settles in j.reserved;
      share = λ d. omega (
        arith,
        i.share d,
        count_owned-drop_one d s.consumer_id m.running launched,
        count_owned-snoc d m.sessions s,
      );
      held = λ d. unfold launch_settles in (j.held d);
    }

pub release-IsCapped : (m : Manager) (sid : ℕ) → IsCapped m → IsCapped (release m sid)
unfolding release begin_teardown
release-IsCapped m sid i =
    if_cases IsCapped (has_session m.sessions sid) _ _
      (λ there.
        if_cases IsCapped (mem sid m.closing) _ _ (λ closing. i)
          (λ idle. if_cases IsCapped (mem sid m.unconfirmed) _ _ (λ waiting. i) (λ fresh. renewed)))
      (λ gone. i)
  where
    renewed : IsCapped (record m { closing = put m.closing sid })
    renewed = record { total = i.total; reserved = i.reserved; share = i.share; held = i.held }

pub torn_down-IsCapped :
    (m : Manager) (sid : ℕ) (ok : Bool) → IsCapped m → IsCapped (torn_down m sid ok)
unfolding torn_down remove_owned_dir
torn_down-IsCapped m sid true i = record {
  total = omega (arith, i.total, length-delete_session m.sessions sid);
  reserved = i.reserved;
  share = λ d. omega (arith, i.share d, count_owned-delete d m.sessions sid);
  held = i.held;
}
torn_down-IsCapped m sid false i = record {
  total = i.total;
  reserved = i.reserved;
  share = i.share;
  held = i.held;
}

pub reconfirmed-IsCapped : (m : Manager) (sid : ℕ) → IsCapped m → IsCapped (reconfirmed m sid)
unfolding reconfirmed remove_owned_dir
reconfirmed-IsCapped m sid i = record {
  total = omega (arith, i.total, length-delete_session m.sessions sid);
  reserved = i.reserved;
  share = λ d. omega (arith, i.share d, count_owned-delete d m.sessions sid);
  held = i.held;
}

pub orphan_torn_down-IsCapped :
    (m : Manager) (r sid : ℕ) (ok : Bool) → IsCapped m → IsCapped (orphan_torn_down m r sid ok)
unfolding orphan_torn_down
orphan_torn_down-IsCapped m r sid true i = record {
  total = i.total;
  reserved = i.reserved;
  share = i.share;
  held = i.held;
}
orphan_torn_down-IsCapped m r sid false i = record {
  total = i.total;
  reserved = i.reserved;
  share = i.share;
  held = i.held;
}

pub ledger-IsCapped : (m : Manager) (l : Ledger) → IsCapped m → IsCapped (with_ledger m l)
ledger-IsCapped m l i = record {
  total = i.total;
  reserved = i.reserved;
  share = i.share;
  held = i.held;
}

pub act_on-IsCapped :
    (m : Manager) (sid : ℕ) (v : Verb)
    → IsCapped m
    → IsCapped (record m { sessions = act_on m.sessions sid v })
act_on-IsCapped m sid v i = record {
  total = omega (
    arith,
    i.total,
    length-owners m.sessions,
    length-owners (act_on m.sessions sid v),
    ap length (owners-act_on m.sessions sid v),
  );
  reserved = i.reserved;
  share = λ d. omega (arith, i.share d, ap (count_owned d) (owners-act_on m.sessions sid v));
  held = i.held;
}
