-- ===== src/Artifacts/Store/Outcomes.antt =====
-- What a discard of artifacts/store.ts answers, and what it leaves.
use browse_gateway.Base.{ℕ, ◌≡◌, ◌⊎◌, refl, Bool, true, false, ◌||◌, not, none, some, if_cases}
use browse_gateway.Artifacts.Store.{Store, has_record, identity_proven}
use browse_gateway.Artifacts.Store.Discard.{
  Deletion, deleted_facts, DiscardResult, discard_clean, discard_refused, discard_failed,
  is_being_consumed,
}

-- A deletion either has the facts of the state that it leaves, or poisons the store.
abbrev IsSettled : ℕ → Deletion → Type 0
IsSettled id x =
    ((x.facts ≡ none) × (x.store.unhealthy ≡ true)) ⊎ (x.facts ≡ some (deleted_facts x.store id))

pub identity_proven-same :
    (s : Store) (holds : Bool)
    → (identity_proven s holds).1 ≡ true
    → (identity_proven s holds).0 ≡ s
unfolding identity_proven
identity_proven-same s holds =
    if_cases {A = Store × Bool} P s.identity_lost _ _ (λ lost e. refl)
      λ own.
        if_cases {A = Store × Bool} P (not s.enabled || holds) _ _ (λ fine e. refl)
          (λ foreign e. absurd (cc e))
  where
    P : Store × Bool → Type 0
    P a = a.1 ≡ true → a.0 ≡ s

-- A discard ends with the record gone, or with the store poisoned.
abbrev Ends : ℕ → Store × Bool → Type 0
Ends id a = (a.1 ≡ true → has_record id a.0.records ≡ false) × (a.1 ≡ false → a.0.unhealthy ≡ true)

-- A discard is refused by a store that closes, and for an artifact whose response is under way.
abbrev pub IsRefused : Store → ℕ → Type 0
IsRefused s id =
    (s.enabled ≡ true)
    × (((s.close_requested || s.disposed) ≡ true)
        ⊎ ((s.unhealthy ≡ false) × (is_being_consumed id s.records ≡ true)))

-- What a discard comes to: clean in a store that is disabled, where it does nothing, or with the record
-- gone; refused, with nothing changed; or failed, with the store poisoned.
pub data DiscardOutcome (s : Store) (id : ℕ) (s' : Store) : DiscardResult → Type 0 where
  nothing_to_do : s.enabled ≡ false → s' ≡ s → DiscardOutcome s id s' discard_clean
  deleted :
      s.enabled ≡ true → has_record id s'.records ≡ false → DiscardOutcome s id s' discard_clean
  left_alone : IsRefused s id → s' ≡ s → DiscardOutcome s id s' discard_refused
  poisoned : ¬ (IsRefused s id) → s'.unhealthy ≡ true → DiscardOutcome s id s' discard_failed
