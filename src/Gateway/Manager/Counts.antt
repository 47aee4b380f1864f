-- ===== src/Gateway/Manager/Counts.antt =====
-- Counting sessions and launches by consumer.
use browse_gateway.Base.{
  ℕ, suc, ◌+◌, ◌≤◌, ◌≡◌, refl, true, Option, none, some, List, [], ◌∷◌, ◌++◌, arith, ◌==◌, length,
  if◌then◌else◌, ap,
}
use browse_gateway.Gateway.Session.{Session, begin_activity, end_activity, touch}
use browse_gateway.Gateway.Session.Activity.{Verb, begins, ends, touches, perform}
use browse_gateway.Gateway.Manager.{
  delete_session, get_count, set_count, delete_count, owned_by, count_owned, owners, same_owner,
  drop_one,
}
use browse_gateway.Gateway.Manager.Steps.{act_on, has_launch}

pub get_count-set_count :
    (m : List (ℕ × ℕ)) (k n j : ℕ)
    → get_count (set_count m k n) j ≡ (if k == j then n else get_count m j)
unfolding get_count set_count
get_count-set_count [] k n j = refl
get_count-set_count ((i, v) ∷ m) k n j = ground (arith, get_count-set_count m k n j)

pub get_count-delete_count :
    (m : List (ℕ × ℕ)) (k j : ℕ)
    → get_count (delete_count m k) j ≡ (if k == j then 0 else get_count m j)
unfolding get_count delete_count
get_count-delete_count [] k j = ground arith
get_count-delete_count ((i, v) ∷ m) k j = ground (arith, get_count-delete_count m k j)

-- One more of the consumer's.
abbrev pub one : ℕ → Option ℕ → ℕ
one c o = if owned_by c o then 1 else 0

same_owner-owned : (o p : Option ℕ) (c : ℕ) → same_owner p o ≡ true → owned_by c p ≡ owned_by c o
unfolding same_owner owned_by
same_owner-owned none none c h = refl
same_owner-owned none (some b) c h = cc
same_owner-owned (some a) none c h = cc
same_owner-owned (some a) (some b) c h = ground arith

pub count_owned-drop_one :
    (c : ℕ) (o : Option ℕ) (os : List (Option ℕ))
    → has_launch os o ≡ true
    → count_owned c os ≡ count_owned c (drop_one o os) + one c o
unfolding drop_one count_owned
count_owned-drop_one c o [] h = cc
count_owned-drop_one c o (p ∷ os) h =
    ground (arith, count_owned-drop_one c o os, same_owner-owned o p c)

pub length-drop_one :
    (o : Option ℕ) (os : List (Option ℕ))
    → has_launch os o ≡ true
    → length os ≡ suc (length (drop_one o os))
unfolding drop_one
length-drop_one o [] h = cc
length-drop_one o (p ∷ os) h = ground (arith, length-drop_one o os)

pub count_owned-snoc :
    (c : ℕ) (ss : List Session) (s : Session)
    → count_owned c (owners (ss ++ s ∷ [])) ≡ count_owned c (owners ss) + one c s.consumer_id
unfolding count_owned
count_owned-snoc c [] s = ground arith
count_owned-snoc c (t ∷ ss) s = ground (arith, count_owned-snoc c ss s)

pub count_owned-delete :
    (c : ℕ) (ss : List Session) (sid : ℕ)
    → count_owned c (owners (delete_session ss sid)) ≤ count_owned c (owners ss)
unfolding count_owned delete_session
count_owned-delete c [] sid = omega arith
count_owned-delete c (t ∷ ss) sid = ground (arith, count_owned-delete c ss sid)

pub length-delete_session :
    (ss : List Session) (sid : ℕ) → length (delete_session ss sid) ≤ length ss
unfolding delete_session
length-delete_session [] sid = omega arith
length-delete_session (t ∷ ss) sid = ground (arith, length-delete_session ss sid)

owner-perform : (s : Session) (v : Verb) → (perform s v).consumer_id ≡ s.consumer_id
unfolding begin_activity end_activity touch
owner-perform s (begins now) = refl
owner-perform s (ends now) = refl
owner-perform s (touches now) = refl

pub owners-act_on : (ss : List Session) (sid : ℕ) (v : Verb) → owners (act_on ss sid v) ≡ owners ss
unfolding act_on
owners-act_on [] sid v = refl
owners-act_on (s ∷ ss) sid v = ground (arith, owners-act_on ss sid v, owner-perform s v)

pub length-owners : (ss : List Session) → length (owners ss) ≡ length ss
length-owners [] = refl
length-owners (s ∷ ss) = ap suc (length-owners ss)
