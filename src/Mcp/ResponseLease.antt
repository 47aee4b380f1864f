-- ===== src/Mcp/ResponseLease.antt =====
-- The tracker that ties one artifact lease to the end of its HTTP response:
-- mcp/http-response-lease.ts. Leases are numbers. Each event of the response, the request, the timer
-- and the callers is one function; what the tracker does to them is put on a list of effects.
pub mod Once
pub mod Outcome
use browse_gateway.Base.{
  ℕ, suc, ◌+◌, ◌-◌, ◌≡◌, Bool, true, false, ◌&&◌, ◌||◌, not, Option, none, some, List, [], ◌∷◌,
  ◌++◌, ltb, ◌==◌, if◌then◌else◌, is_some,
}

pub data ResponseOutcome : Type 0 where
  sent transport_failed timed_out : ResponseOutcome

abbrev pub is_sent : ResponseOutcome → Bool
is_sent sent = true
is_sent transport_failed = false
is_sent timed_out = false

pub data TrackerState : Type 0 where
  idle active terminal : TrackerState

-- `destroys` is `res.destroy()`, `lost` that the response was destroyed by another, `releases` the drop of the references, `completes` the call of
-- `complete` on the lease that was held and `refuses` the one on a lease that was not taken.
pub data Effect : Type 0 where
  destroys lost releases : Effect
  completes : ℕ → ResponseOutcome → Effect
  refuses : ℕ → Effect

-- `armed` says that the tracker holds a set of listeners; `leaked` counts sets that are attached and
-- that it lost track of. `outcome` is the outcome that latched the terminalization, and `timer` the
-- delay of the deadline timer while it is set.
pub record Tracker : Type 0 where
  pub state : TrackerState
  pub lease : Option ℕ
  pub timer : Option ℕ
  pub armed : Bool
  pub leaked : ℕ
  pub destroyed : Bool
  pub outcome : Option ResponseOutcome
  pub settled : Bool
  pub effects : List Effect

unfoldable pub new_tracker : Tracker
new_tracker = record {
  state = idle;
  lease = none;
  timer = none;
  armed = false;
  leaked = 0;
  destroyed = false;
  outcome = none;
  settled = false;
  effects = [];
}

abbrev fence : Bool → List Effect
fence true = destroys ∷ []
fence false = []

abbrev completion : Option ℕ → ResponseOutcome → List Effect
completion none o = []
completion (some k) o = completes k o ∷ []

-- The first outcome wins.
unfoldable pub terminalize : Tracker → ResponseOutcome → Tracker
terminalize t o = if is_some t.outcome then t else record t {
  state = terminal;
  lease = none;
  timer = none;
  armed = false;
  destroyed = t.destroyed || not (is_sent o);
  outcome = some o;
  effects =
      t.effects ++ (fence (not (is_sent o) && not t.destroyed) ++ releases ∷ completion t.lease o);
}

-- The listeners are attached anew; a set that was attached before is lost track of.
unfoldable pub arm_listeners : Tracker → Tracker
arm_listeners t = record t { armed = true; leaked = if t.armed then suc t.leaked else t.leaked }

abbrev pub by_state : TrackerState → Tracker → Tracker → Tracker → Tracker
by_state idle a b c = a
by_state active a b c = b
by_state terminal a b c = c

unfoldable pub activate : Tracker → Tracker
unfolding arm_listeners
activate t = by_state t.state (arm_listeners t) t t

-- A lease that is refused is completed at once; `register` throws then.
unfoldable pub refuse : Tracker → ℕ → Tracker
refuse t k = record t { effects = t.effects ++ refuses k ∷ [] }

unfoldable pub accept : Tracker → ℕ → ℕ → ℕ → Tracker
unfolding arm_listeners
accept t k deadline_ms now =
    let t' = if t.armed then t else arm_listeners t in
    record t' { state = active; lease = some k; timer = some (deadline_ms - now) }

unfoldable pub register : Tracker → ℕ → ℕ → ℕ → Tracker
unfolding accept refuse
register t k deadline_ms now =
    by_state t.state (accept t k deadline_ms now) (refuse t k) (refuse t k)

-- An event of the request or the response reaches the tracker while listeners are attached.
unfoldable pub on_event : Tracker → ResponseOutcome → Tracker
unfolding terminalize
on_event t o = if t.armed || ltb 0 t.leaked then terminalize t o else t

abbrev close_outcome : Bool → ResponseOutcome
close_outcome true = sent
close_outcome false = transport_failed

unfoldable pub on_close : Tracker → Bool → Tracker
unfolding on_event
on_close t writable_finished = on_event t (close_outcome writable_finished)

-- The timer fires while it is set.
unfoldable pub on_timer : Tracker → Tracker
unfolding terminalize
on_timer t = if is_some t.timer then terminalize t timed_out else t

-- The completion that was awaited has ended.
unfoldable pub on_completed : Tracker → Tracker
on_completed t = if is_some t.outcome then record t { settled = true } else t

pub data Event : Type 0 where
  finishes errors activates timer_fires completion_ends destroyed_elsewhere : Event
  closes : Bool → Event
  requests : ResponseOutcome → Event
  registers : ℕ → ℕ → ℕ → Event

-- The tracker after one event.
unfoldable pub react : Tracker → Event → Tracker
unfolding on_event on_close on_timer on_completed activate register terminalize
react t finishes = on_event t sent
react t errors = on_event t transport_failed
react t activates = activate t
react t timer_fires = on_timer t
react t completion_ends = on_completed t
react t destroyed_elsewhere = record t { destroyed = true; effects = t.effects ++ lost ∷ [] }
react t (closes writable_finished) = on_close t writable_finished
react t (requests o) = terminalize t o
react t (registers k deadline_ms now) = register t k deadline_ms now

unfoldable pub react_all : Tracker → List Event → Tracker
unfolding react
react_all t [] = t
react_all t (e ∷ es) = react_all (react t e) es
