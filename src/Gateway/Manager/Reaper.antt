-- ===== src/Gateway/Manager/Reaper.antt =====
-- What a pass of the reaper, `reapIdle`, closes.
use browse_gateway.Base.{
  ℕ, ◌+◌, ◌<◌, ◌≡◌, ◌⊎◌, ◌↔◌, inl, inr, Bool, true, false, ◌&&◌, ◌||◌, not, List, [], ◌∷◌, map,
  keep, arith, ◌==◌, ==_iff, is_some, AnyOf, Bool-cases, or-eq-true, or_left, or_right, and-eq-true,
  and_intro, ◌∙◌, sym, ap,
}
use browse_gateway.Base.Ids.{mem, mem-put}
use browse_gateway.Gateway.Session.{Session, in_flight_ms}
use browse_gateway.Gateway.Manager.{
  Manager, has_session, begin_teardown, release, release_all, is_stale, stale,
}

-- The session is neither closing nor waiting for a reconfirm, and it is a consumer's and idle for
-- longer than the limit, or in flight for longer than the bound.
abbrev pub IsReapable : Manager → ℕ → ℕ → ℕ → Session → Type 0
IsReapable m ttl now max_in_flight s =
    (mem s.id m.closing ≡ false)
    × (mem s.id m.unconfirmed ≡ false)
    × (((is_some s.consumer_id ≡ true) × (s.in_flight ≡ 0) × (s.last_activity_at + ttl < now))
        ⊎ ((0 < s.in_flight) × (max_in_flight < in_flight_ms s now)))

is_stale_iff :
    (m : Manager) (ttl now max_in_flight : ℕ) (s : Session)
    → (is_stale m ttl now max_in_flight s ≡ true) ↔ IsReapable m ttl now max_in_flight s
unfolding is_stale
is_stale_iff m ttl now max_in_flight s = (λ h. ground arith, λ h. ground arith)

mem-at : (a b : ℕ) (xs : List ℕ) → a ≡ b → mem a xs ≡ mem b xs
mem-at a b xs e = rw e

has_session-at : (ss : List Session) (a b : ℕ) → a ≡ b → has_session ss a ≡ has_session ss b
has_session-at ss a b e = rw e

-- What one release does to the sessions that are closing.
closing-release :
    (m : Manager) (sid k : ℕ)
    → mem k (release m sid).closing ≡ (
        mem k m.closing
        || (k == sid && (has_session m.sessions sid && not (mem sid m.unconfirmed))))
unfolding release begin_teardown
closing-release m sid k = ground (arith, mem-put k sid m.closing, mem-at k sid m.closing)

fields-release :
    (m : Manager) (sid : ℕ)
    → ((release m sid).sessions ≡ m.sessions) × ((release m sid).unconfirmed ≡ m.unconfirmed)
unfolding release begin_teardown
fields-release m sid = (ground arith, ground arith)

-- The sessions that may be closed.
abbrev closable : Manager → ℕ → Bool
closable m k = has_session m.sessions k && not (mem k m.unconfirmed)

closing-release_all :
    (m : Manager) (sids : List ℕ) (k : ℕ)
    → mem k (release_all m sids).closing ≡ (mem k m.closing || (mem k sids && closable m k))
unfolding release_all mem
closing-release_all m [] k = ground arith
closing-release_all m (sid ∷ sids) k = ground (
  arith,
  closing-release_all (release m sid) sids k,
  closing-release m sid k,
  ap (λ ss. has_session ss k) (fields-release m sid).0,
  ap (mem k) (fields-release m sid).1,
  mem-at k sid m.unconfirmed,
  has_session-at m.sessions k sid,
)

-- The ids of the sessions that pass a test.
kept_ids :
    (p : Session → Bool) (P : Session → Type 0) (ss : List Session) (k : ℕ)
    → ((s : Session) → (p s ≡ true) ↔ P s)
    → (mem k (map (λ s. s.id) (keep p ss)) ≡ true) ↔ AnyOf (λ s. (s.id ≡ k) × P s) ss
unfolding mem
kept_ids p P [] k f = (λ h. cc, λ a. elim a [ ])
kept_ids p P (s ∷ ss) k f = elim (Bool-cases (p s)) [
  | inl passes ↦ rw passes (
    λ h. elim (or-eq-true (k == s.id) _ h) [
      | inl here ↦ inl (sym ((==_iff k s.id).0 here), (f s).0 passes)
      | inr there ↦ inr ((kept_ids p P ss k f).0 there)
    ],
    λ a. elim a [
      | inl (e, q) ↦ or_left _ ((==_iff k s.id).1 (sym e))
      | inr there ↦ or_right (k == s.id) ((kept_ids p P ss k f).1 there)
    ],
  )
  | inr fails ↦ rw fails (
    λ h. inr ((kept_ids p P ss k f).0 h),
    λ a. elim a [
      | inl (e, q) ↦ absurd (cc (sym fails ∙ (f s).1 q))
      | inr there ↦ (kept_ids p P ss k f).1 there
    ],
  )
]

-- A session that may be reaped may be closed.
reapable-closable :
    (m : Manager) (ttl now max_in_flight : ℕ) (ss : List Session) (k : ℕ)
    → AnyOf (λ s. (s.id ≡ k) × IsReapable m ttl now max_in_flight s) ss
    → (has_session ss k ≡ true) × (mem k m.unconfirmed ≡ false)
unfolding has_session
reapable-closable m ttl now max_in_flight [] k a = elim a [ ]
reapable-closable m ttl now max_in_flight (s ∷ ss) k a = elim a [
  | inl (e, r) ↦ (or_left _ ((==_iff s.id k).1 e), ap (λ i. mem i m.unconfirmed) (sym e) ∙ r.1)
  | inr there ↦
      let (h, u) = reapable-closable m ttl now max_in_flight ss k there in
      (or_right (s.id == k) h, u)
]

-- After a pass of the reaper over the sessions, exactly these are closing: those that were before,
-- and every registered session that may be reaped.
pub reap_closes :
    (m : Manager) (ttl now max_in_flight k : ℕ)
    → (mem k (release_all m (stale m ttl now max_in_flight)).closing ≡ true) ↔ (
        (mem k m.closing ≡ true)
        ⊎ AnyOf (λ s. (s.id ≡ k) × IsReapable m ttl now max_in_flight s) m.sessions)
unfolding stale
reap_closes m ttl now max_in_flight k = (
  λ h. elim (or-eq-true (mem k m.closing) _ (sym after ∙ h)) [
    | inl old ↦ inl old
    | inr new ↦ inr (ids.0 (and-eq-true (mem k found) (closable m k) new).0)
  ],
  λ d. after ∙ elim d [
    | inl old ↦ or_left _ old
    | inr a ↦
        let (h, u) = reapable-closable m ttl now max_in_flight m.sessions k a in
        or_right (mem k m.closing) (and_intro (ids.1 a) (and_intro h (ap not u)))
  ],
)
  where
    found : List ℕ
    found = map (λ s. s.id) (keep (is_stale m ttl now max_in_flight) m.sessions)

    after : mem k (release_all m found).closing ≡ (mem k m.closing || (mem k found && closable m k))
    after = closing-release_all m found k

    ids :
        (mem k found ≡ true)
        ↔ AnyOf (λ s. (s.id ≡ k) × IsReapable m ttl now max_in_flight s) m.sessions
    ids =
        kept_ids (is_stale m ttl now max_in_flight) (IsReapable m ttl now max_in_flight) m.sessions
          k (is_stale_iff m ttl now max_in_flight)
