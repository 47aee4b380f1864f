-- ===== src/Mcp/Tests.antt =====
-- Response leases at concrete events.
use browse_gateway.Base.{◌+◌, ◌≡◌, refl, true, false, some, List, [], ◌∷◌, ◌++◌, All}
use browse_gateway.Mcp.ResponseLease.{
  timed_out, terminal, Effect, Tracker, new_tracker, terminalize, Event, finishes, errors,
  activates, registers, react_all,
}
use browse_gateway.Mcp.ResponseLease.Once.{ended, held, registered, leases_ended}
use browse_gateway.Mcp.ResponseLease.Outcome.{
  fenced, IsLate, completions_fenced, first_outcome_wins,
}

-- Lease 7 is registered, lease 8 is refused, the client resets, and Node still finishes.
abbrev reset : List Event
reset = activates ∷ registers 7 15000 0 ∷ registers 8 15000 1 ∷ errors ∷ finishes ∷ []

leases_ended_example :
    ended 7 (react_all new_tracker reset).effects + held 7 (react_all new_tracker reset).lease
    ≡ registered 7 reset
leases_ended_example = (leases_ended reset).0 7

completions_fenced_example : fenced false false (react_all new_tracker reset).effects ≡ true
completions_fenced_example = completions_fenced reset

abbrev timed_out_tracker : Tracker
timed_out_tracker = terminalize new_tracker timed_out

latched : (timed_out_tracker.outcome ≡ some timed_out) × (timed_out_tracker.state ≡ terminal)
unfolding terminalize new_tracker
latched = (refl, refl)

first_outcome_wins_example :
    ((react_all timed_out_tracker reset).outcome ≡ some timed_out)
    × ((react_all timed_out_tracker reset).state ≡ terminal)
    × ((new : List Effect) × ((react_all timed_out_tracker reset).effects
          ≡ timed_out_tracker.effects ++ new)
        × All IsLate new)
first_outcome_wins_example =
    first_outcome_wins timed_out_tracker timed_out reset latched.0 latched.1
