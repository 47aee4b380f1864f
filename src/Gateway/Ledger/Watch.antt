-- ===== src/Gateway/Ledger/Watch.antt =====
-- The cap on the watch list: `#enforceWatchCap` of gateway/session-manager.ts.
use browse_gateway.Base.{
  ℕ, zero, suc, ◌+◌, ◌≤◌, ◌≡◌, ◌⊎◌, inl, inr, true, none, some, List, arith, length, ltb,
  Option-cases, Bool-cases,
}
use browse_gateway.Base.Ids.{mem, remove, mem-remove}
use browse_gateway.Gateway.Ledger.{
  OrphanRecord, Ledger, max_watched_launches, evictable, evict, enforce_watch_cap,
}

-- One round of the loop stops or takes one entry off.
evict-cases :
    (fuel : ℕ) (heap : ℕ → OrphanRecord) (reserve : ℕ) (watch : List ℕ)
    → ((evict (suc fuel) heap reserve watch ≡ watch)
        × ((length watch + reserve ≤ max_watched_launches) ⊎ (evictable heap watch ≡ none)))
      ⊎ ((r : ℕ) × (evictable heap watch ≡ some r)
          × (evict (suc fuel) heap reserve watch ≡ evict fuel heap reserve (remove watch r)))
unfolding evict
evict-cases fuel heap reserve watch =
    elim (Bool-cases (ltb max_watched_launches (length watch + reserve))) [
      | inr fits ↦ inl (rw fits, inl (ground arith))
      | inl over ↦ elim (Option-cases (evictable heap watch)) [
        | inl busy ↦ inl (ground arith, inr busy)
        | inr (r, found) ↦ inr (r, found, ground arith)
      ]
    ]

evict_sub :
    (fuel : ℕ) (heap : ℕ → OrphanRecord) (reserve : ℕ) (watch : List ℕ) (q : ℕ)
    → mem q (evict fuel heap reserve watch) ≡ true
    → mem q watch ≡ true
evict_sub zero heap reserve watch q h = unfold evict in h
evict_sub (suc fuel) heap reserve watch q h = elim (evict-cases fuel heap reserve watch) [
  | inl (stops, why) ↦ rw stops at h
  | inr (r, found, goes) ↦
      ground
        (arith, mem-remove q r watch, evict_sub fuel heap reserve (remove watch r) q (rw goes at h))
]

pub enforce_watch_cap_sub :
    (l : Ledger) (reserve q : ℕ)
    → mem q (enforce_watch_cap l reserve).watch ≡ true
    → mem q l.watch ≡ true
unfolding enforce_watch_cap
enforce_watch_cap_sub l reserve q h = evict_sub (length l.watch) l.heap reserve l.watch q h
