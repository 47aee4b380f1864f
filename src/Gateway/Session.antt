-- ===== src/Gateway/Session.antt =====
-- One browser session: gateway/session.ts. Times are arguments. What the browser core answers to
-- `close` and `kill` is an argument too.
pub mod Activity
use browse_gateway.Base.{
  ℕ, ◌+◌, ◌-◌, Bool, true, false, ◌||◌, not, Option, none, some, ◌==◌, if◌then◌else◌,
}

pub data SessionState : Type 0 where
  is_open is_closed : SessionState

pub record Session : Type 0 where
  pub id : ℕ
  pub created_at : ℕ
  pub consumer_id : Option ℕ
  pub force_kill_available : Bool
  pub state : SessionState
  pub last_activity_at : ℕ
  pub in_flight : ℕ
  pub in_flight_since : Option ℕ
  pub reconfirming : Bool

unfoldable pub new_session : ℕ → Option ℕ → Bool → ℕ → Session
new_session id consumer_id force_kill_available now = record {
  id = id;
  created_at = now;
  consumer_id = consumer_id;
  force_kill_available = force_kill_available;
  state = is_open;
  last_activity_at = now;
  in_flight = 0;
  in_flight_since = none;
  reconfirming = false;
}

unfoldable pub in_flight_ms : Session → ℕ → ℕ
in_flight_ms s now = elim s.in_flight_since [ none ↦ 0 | some since ↦ now - since ]

unfoldable pub touch : Session → ℕ → Session
touch s now = record s { last_activity_at = now }

unfoldable pub begin_activity : Session → ℕ → Session
begin_activity s now = record s {
  in_flight_since = if s.in_flight == 0 then some now else s.in_flight_since;
  in_flight = s.in_flight + 1;
  last_activity_at = now;
}

-- The count stops at 0.
unfoldable pub end_activity : Session → ℕ → Session
end_activity s now = record s {
  in_flight = s.in_flight - 1;
  in_flight_since = if s.in_flight - 1 == 0 then none else s.in_flight_since;
  last_activity_at = now;
}

-- How the race of `core.close()` against the grace timer ended.
pub data CloseOutcome : Type 0 where
  clean close_failed timed_out : CloseOutcome

abbrev pub is_clean : CloseOutcome → Bool
is_clean clean = true
is_clean close_failed = false
is_clean timed_out = false

-- The session after the call, whether the promise resolves, and whether `core.kill` was called.
pub record Teardown : Type 0 where
  pub session : Session
  pub resolves : Bool
  pub kills : Bool

unfoldable pub kill_and_close : Session → Bool → Teardown
kill_and_close s kill_confirms =
    if kill_confirms
    then record { session = record s { state = is_closed }; resolves = true; kills = true }
    else record { session = s; resolves = false; kills = true }

unfoldable pub teardown_open : Session → CloseOutcome → Bool → Teardown
unfolding kill_and_close
teardown_open s outcome kill_confirms =
    if s.force_kill_available || not (is_clean outcome)
    then kill_and_close s kill_confirms
    else record { session = record s { state = is_closed }; resolves = true; kills = false }

unfoldable pub teardown : Session → CloseOutcome → Bool → Teardown
unfolding teardown_open
teardown s outcome kill_confirms = elim s.state [
  | is_closed ↦ record { session = s; resolves = true; kills = false }
  | is_open ↦ teardown_open s outcome kill_confirms
]

-- A call of `reconfirm` on an open session: it shares the kill that is under way, or latches and
-- calls one. The answer says whether it called one.
unfoldable pub start_reconfirm : Session → Session × Bool
start_reconfirm s = if s.reconfirming then (s, false) else (record s { reconfirming = true }, true)

-- The kill settles: the latch clears whether it confirmed or not.
unfoldable pub settle_reconfirm : Session → Bool → Session
settle_reconfirm s kill_confirms = record s {
  state = if kill_confirms then is_closed else s.state;
  reconfirming = false;
}

-- A call of `reconfirm` from its start until the kill that it calls or shares has settled.
unfoldable pub reconfirm : Session → Bool → Teardown
unfolding start_reconfirm settle_reconfirm
reconfirm s kill_confirms = elim s.state [
  | is_closed ↦ record { session = s; resolves = true; kills = false }
  | is_open ↦
      let (s', kills) = start_reconfirm s in
      record {
        session = settle_reconfirm s' kill_confirms;
        resolves = kill_confirms;
        kills = kills;
      }
]
