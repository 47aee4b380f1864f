-- ===== src/Gateway/Manager/Lookup.antt =====
-- What the look-ups of the manager find.
use browse_gateway.Base.{
  ℕ, ◌≡◌, refl, ◌≢◌, inl, inr, true, false, ◌||◌, Option, none, some, List, [], ◌∷◌, ◌++◌, arith,
  ◌==◌, Bool-cases, ==_iff, ◌∙◌, ap, sym, or-eq-true,
}
use browse_gateway.Base.Ids.{mem}
use browse_gateway.Gateway.Session.{Session, begin_activity, end_activity, touch}
use browse_gateway.Gateway.Session.Activity.{Verb, begins, ends, touches, perform}
use browse_gateway.Gateway.Ledger.{OrphanRecord}
use browse_gateway.Gateway.Manager.{has_session, delete_session, owned_by, find_orphan}
use browse_gateway.Gateway.Manager.Steps.{act_on}

pub has_session-snoc :
    (ss : List Session) (s : Session) (sid : ℕ)
    → has_session (ss ++ s ∷ []) sid ≡ (has_session ss sid || s.id == sid)
unfolding has_session
has_session-snoc [] s sid = ground arith
has_session-snoc (t ∷ ss) s sid = ground (arith, has_session-snoc ss s sid)

pub has_session-delete :
    (ss : List Session) (gone sid : ℕ)
    → sid ≢ gone
    → has_session (delete_session ss gone) sid ≡ has_session ss sid
unfolding has_session delete_session
has_session-delete [] gone sid h = refl
has_session-delete (s ∷ ss) gone sid h = ground (arith, has_session-delete ss gone sid)

id-perform : (s : Session) (v : Verb) → (perform s v).id ≡ s.id
unfolding begin_activity end_activity touch
id-perform s (begins now) = refl
id-perform s (ends now) = refl
id-perform s (touches now) = refl

pub has_session-act_on :
    (ss : List Session) (sid k : ℕ) (v : Verb) → has_session (act_on ss sid v) k ≡ has_session ss k
unfolding has_session act_on
has_session-act_on [] sid k v = refl
has_session-act_on (s ∷ ss) sid k v = ground (arith, has_session-act_on ss sid k v, id-perform s v)

owned_by-true : (sid : ℕ) (o : Option ℕ) → owned_by sid o ≡ true → o ≡ some sid
unfolding owned_by
owned_by-true sid none h = cc
owned_by-true sid (some d) h = ap some ((==_iff d sid).0 h)

owned_by-false : (sid : ℕ) (o : Option ℕ) → owned_by sid o ≡ false → o ≢ some sid
unfolding owned_by
owned_by-false sid none h e = cc
owned_by-false sid (some d) h e = ground arith

-- The search for the record of a session finds one that has it, or there is none.
pub find_orphan-some :
    (heap : ℕ → OrphanRecord) (rs : List ℕ) (sid r : ℕ)
    → find_orphan heap rs sid ≡ some r
    → (heap r).session ≡ some sid
unfolding find_orphan
find_orphan-some heap [] sid r h = cc
find_orphan-some heap (q ∷ rs) sid r h = elim (Bool-cases (owned_by sid (heap q).session)) [
  | inl mine ↦
      let e : q ≡ r = ground arith in
      ap (λ a. (heap a).session) (sym e) ∙ owned_by-true sid (heap q).session mine
  | inr other ↦ find_orphan-some heap rs sid r (ground (arith, other))
]

pub find_orphan-none :
    (heap : ℕ → OrphanRecord) (rs : List ℕ) (sid q : ℕ)
    → find_orphan heap rs sid ≡ none
    → mem q rs ≡ true
    → (heap q).session ≢ some sid
unfolding find_orphan mem
find_orphan-none heap [] sid q h m e = cc
find_orphan-none heap (p ∷ rs) sid q h m e = elim (Bool-cases (owned_by sid (heap p).session)) [
  | inl mine ↦ ground arith
  | inr other ↦ elim (or-eq-true (q == p) (mem q rs) m) [
    | inl here ↦
        let same : (heap p).session ≡ some sid =
          ap (λ a. (heap a).session) (sym ((==_iff q p).0 here)) ∙ e in
        owned_by-false sid (heap p).session other same
    | inr later ↦ find_orphan-none heap rs sid q (ground (arith, other)) later e
  ]
]
