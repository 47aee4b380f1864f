-- ===== src/Gateway/Manager/Shutdown.antt =====
-- The manager once `shutdown` has begun (gateway/session-manager.ts).
use browse_gateway.Base.{
  ℕ, ◌≤◌, ◌≡◌, refl, true, false, Option, List, [], ◌∷◌, arith, length, ◌∙◌, sym, ap,
}
use browse_gateway.Gateway.Session.{Session}
use browse_gateway.Gateway.Manager.{
  Manager, admitted, acquire, acquire_finally, launch_settles, launched_in_shutdown, launch_failed,
  launch_timed_out, reap_late_launch, orphan_torn_down, has_session, delete_session, release,
  begin_teardown, remove_owned_dir, torn_down, reconfirmed, begin_shutdown, drop_one,
}
use browse_gateway.Gateway.Manager.Lookup.{has_session-act_on}
use browse_gateway.Gateway.Manager.Steps.{
  World, Step, Reach, here, next, acquires, registers, comes_up_in_shutdown, settles, fails,
  times_out, returns, resolves_late, rejects_late, tears_orphan, releases, tears, reconfirms,
  sweeps, sweep_ends, sweep_fails, caps, acts, shuts, dies,
}

-- The second state admits nothing that the first did not: it stays shut, its sessions are among the
-- first's and it has no more launches.
abbrev pub Closes : Manager → Manager → Type 0
Closes m m' =
    (m'.shutting_down ≡ true)
    × ((k : ℕ) → has_session m'.sessions k ≡ true → has_session m.sessions k ≡ true)
    × (length m'.running ≤ length m.running)

deleted-has_session :
    (ss : List Session) (sid k : ℕ)
    → has_session (delete_session ss sid) k ≡ true
    → has_session ss k ≡ true
unfolding has_session delete_session
deleted-has_session [] sid k h = h
deleted-has_session (s ∷ ss) sid k h = ground (arith, deleted-has_session ss sid k)

length-dropped : (o : Option ℕ) (os : List (Option ℕ)) → length (drop_one o os) ≤ length os
unfolding drop_one
length-dropped o [] = omega arith
length-dropped o (p ∷ os) = ground (arith, length-dropped o os)

settles-Closes :
    (m : Manager) (c : Option ℕ) → m.shutting_down ≡ true → Closes m (launch_settles m c)
unfolding launch_settles
settles-Closes m c shut = (shut, λ k h. h, length-dropped c m.running)

no_admission :
    (m m' : Manager) (c : Option ℕ) → m.shutting_down ≡ true → acquire m c ≡ admitted m' → ⊥
unfolding acquire
no_admission m m' c shut e = ground arith

release-Closes : (m : Manager) (sid : ℕ) → m.shutting_down ≡ true → Closes m (release m sid)
unfolding release begin_teardown
release-Closes m sid shut = (ground arith, λ k h. ground (arith, sessions_kept k, h), ground arith)
  where
    sessions_kept : (k : ℕ) → has_session (release m sid).sessions k ≡ has_session m.sessions k
    sessions_kept k = ap (λ ss. has_session ss k) (ground arith)

Step-Closes : (w v : World) → w.manager.shutting_down ≡ true → Step w v → Closes w.manager v.manager
Step-Closes w _ shut (acquires c m e) = absurd (no_admission w.manager m c shut e)
Step-Closes w _ shut (registers s dir opened launched fresh) = absurd (cc (sym shut ∙ opened))
Step-Closes w _ shut (comes_up_in_shutdown r sid dir closed off fresh) =
    unfold launched_in_shutdown in (shut, λ k h. h, omega arith)
Step-Closes w _ shut (settles c launched) = settles-Closes w.manager c shut
Step-Closes w _ shut (fails r dir c launched off) =
    let (a, b, d) = settles-Closes w.manager c shut in unfold launch_failed in (a, b, d)
Step-Closes w _ shut (times_out r dir c launched off) =
    let (a, b, d) = settles-Closes w.manager c shut in unfold launch_timed_out in (a, b, d)
Step-Closes w _ shut (returns c launched) = unfold acquire_finally in (shut, λ k h. h, omega arith)
Step-Closes w _ shut (resolves_late r sid free fresh) =
    unfold reap_late_launch in (shut, λ k h. h, omega arith)
Step-Closes w _ shut (rejects_late r free) = (shut, λ k h. h, omega arith)
Step-Closes w _ shut (tears_orphan r sid true owned pending died) =
    unfold orphan_torn_down in (shut, λ k h. h, omega arith)
Step-Closes w _ shut (tears_orphan r sid false owned pending died) =
    unfold orphan_torn_down in (shut, λ k h. h, omega arith)
Step-Closes w _ shut (releases sid) = release-Closes w.manager sid shut
Step-Closes w _ shut (tears sid true pending died) =
    unfold torn_down remove_owned_dir in
    (shut, λ k h. deleted-has_session w.manager.sessions sid k h, omega arith)
Step-Closes w _ shut (tears sid false pending died) =
    unfold torn_down in (shut, λ k h. h, omega arith)
Step-Closes w _ shut (reconfirms sid dead) =
    unfold reconfirmed remove_owned_dir in
    (shut, λ k h. deleted-has_session w.manager.sessions sid k h, omega arith)
Step-Closes w _ shut (sweeps r) = (shut, λ k h. h, omega arith)
Step-Closes w _ shut (sweep_ends r result stamps busy) = (shut, λ k h. h, omega arith)
Step-Closes w _ shut (sweep_fails r busy) = (shut, λ k h. h, omega arith)
Step-Closes w _ shut caps = (shut, λ k h. h, omega arith)
Step-Closes w _ shut (acts sid v) =
    (shut, λ k h. sym (has_session-act_on w.manager.sessions sid k v) ∙ h, omega arith)
Step-Closes w _ shut shuts = unfold begin_shutdown in (refl, λ k h. h, omega arith)
Step-Closes w _ shut (dies sid) = (shut, λ k h. h, omega arith)

-- Whatever happens after shutdown has begun, it stays begun, every registered session was registered
-- when it began, and there are no more launches in flight than there were then.
pub shutdown_admits_nothing :
    (w v : World) → w.manager.shutting_down ≡ true → Reach w v → Closes w.manager v.manager
shutdown_admits_nothing w _ shut here = (shut, λ k h. h, omega arith)
shutdown_admits_nothing w _ shut (next {u} {v} r s) =
    let (a, b, c) = shutdown_admits_nothing w u shut r in
    let (d, e, f) = Step-Closes u v a s in (d, λ k h. b k (e k h), omega (arith, c, f))
