-- ===== src/Policy/Audit/Ring.antt =====
-- What a bounded trail keeps.
use mathlib.Core.List.{append_assoc, append-nil}
use browse_gateway.Base.{
  ℕ, zero, suc, ◌-◌, ◌≤◌, ◌<◌, ◌≡◌, refl, ◌∙◌, List, [], ◌∷◌, ◌++◌, arith, length, drop,
  length-append, length-drop, ◌⊎◌, inl, inr, ltb, if◌then◌else◌,
}
use browse_gateway.Policy.Audit.{AuditRecord, MemorySink, new_sink, record_entry}

-- One call after another.
abbrev pub record_all : MemorySink → List AuditRecord → MemorySink
record_all s [] = s
record_all s (entry ∷ entries) = record_all (record_entry s entry) entries

drop-append {ℓ} :
    {A : Type ℓ} (n : ℕ) (xs ys : List A) → n ≤ length xs → drop n (xs ++ ys) ≡ drop n xs ++ ys
drop-append zero xs ys h = refl
drop-append (suc n) [] ys h = absurd (omega arith)
drop-append (suc n) (x ∷ xs) ys h = drop-append n xs ys (omega arith)

drop-one {ℓ} : {A : Type ℓ} (n : ℕ) (xs : List A) → drop 1 (drop n xs) ≡ drop (suc n) xs
drop-one zero [] = refl
drop-one zero (x ∷ xs) = refl
drop-one (suc n) [] = refl
drop-one (suc n) (x ∷ xs) = drop-one n xs

le_cases : (a b : ℕ) → (a ≤ b) ⊎ (b < a)
le_cases a b = grind arith

-- What is left of a history: all of it, or the last `bound` records.
abbrev pub recent : ℕ → List AuditRecord → List AuditRecord
recent bound history = if ltb 0 bound then drop (length history - bound) history else history

drop-cong {ℓ} : {A : Type ℓ} (m n : ℕ) (xs : List A) → m ≡ n → drop m xs ≡ drop n xs
drop-cong m n xs e = rw e

recent-step_bounded :
    (bound : ℕ) (history : List AuditRecord) (entry : AuditRecord)
    → 0 < bound
    → (if ltb bound (length (drop (length history - bound) history ++ entry ∷ []))
        then drop 1 (drop (length history - bound) history ++ entry ∷ [])
        else drop (length history - bound) history ++ entry ∷ [])
      ≡ drop (length (history ++ entry ∷ []) - bound) (history ++ entry ∷ [])
recent-step_bounded bound history entry pos =
    let n = length history - bound in
    let whole = history ++ entry ∷ [] in
    let size = length-append history (entry ∷ []) in
    let pushed = drop-append n history (entry ∷ []) (omega arith) in
    let measured = length-drop n whole in
    elim (le_cases bound (length history)) [
      | inl full ↦ rw (← pushed) (
          ground (
            arith,
            measured,
            drop-one n whole,
            drop-cong (length whole - bound) (suc n) whole (omega (arith, size)),
            size,
          ))
      | inr room ↦ rw (← pushed) (
          ground
            (arith, measured, drop-cong (length whole - bound) n whole (omega (arith, size)), size))
    ]

recent-step :
    (s : MemorySink) (history : List AuditRecord) (entry : AuditRecord)
    → s.records ≡ recent s.max_records history
    → (record_entry s entry).records ≡ recent s.max_records (history ++ entry ∷ [])
unfolding record_entry
recent-step s history entry h = ground (arith, recent-step_bounded s.max_records history entry)

max_records-record_entry :
    (s : MemorySink) (entry : AuditRecord) → (record_entry s entry).max_records ≡ s.max_records
unfolding record_entry
max_records-record_entry s entry = ground arith

recent-record_all :
    (s : MemorySink) (history entries : List AuditRecord) (bound : ℕ)
    → s.max_records ≡ bound
    → s.records ≡ recent bound history
    → (record_all s entries).records ≡ recent bound (history ++ entries)
recent-record_all s history [] bound b h = rw append-nil h
recent-record_all s history (entry ∷ entries) bound b h =
    rw (← append_assoc history (entry ∷ []) entries) (
      recent-record_all (record_entry s entry) (history ++ entry ∷ []) entries bound
        (max_records-record_entry s entry ∙ b)
        (rw (← b) (recent-step s history entry (rw (← b) at h))))

drop-nil {ℓ} : {A : Type ℓ} (n : ℕ) → drop {ℓ} {A = A} n [] ≡ []
drop-nil zero = refl
drop-nil (suc n) = refl

recent-nil : (bound : ℕ) → ◌≡◌ {A = List AuditRecord} [] (recent bound [])
recent-nil bound = ground (arith, drop-nil {A = AuditRecord} (0 - bound))

-- A new trail with bound `bound` holds, after any calls, exactly the last `bound` records in order,
-- and all of them where the bound is 0.
pub records-record_all :
    (bound : ℕ) (entries : List AuditRecord)
    → (record_all (new_sink bound) entries).records ≡ recent bound entries
unfolding new_sink
records-record_all bound entries =
    recent-record_all (new_sink bound) [] entries bound refl (recent-nil bound)
