-- ===== src/Policy/Audit.antt =====
-- The audit trail: policy/audit.ts.
pub mod Ring
use browse_gateway.Base.{
  ℕ, Bool, true, false, ◌&&◌, Option, none, some, List, [], ◌∷◌, ◌++◌, ltb, length, drop, keep,
  if◌then◌else◌,
}
use browse_gateway.Base.Text.{Text, text_eq}

pub data Decision : Type 0 where
  auth_ok auth_reject allowed blocked opened : Decision

pub data Action : Type 0 where
  authenticates navigates opens_session : Action

pub record AuditRecord : Type 0 where
  pub ts : ℕ
  pub consumer_id : Option Text
  pub action : Action
  pub decision : Decision
  pub host : Option Text
  pub url : Option Text
  pub reason : Option Text

-- `max_records` 0 is no bound.
pub record MemorySink : Type 0 where
  pub records : List AuditRecord
  pub max_records : ℕ

unfoldable pub new_sink : ℕ → MemorySink
new_sink max_records = record { records = []; max_records = max_records }

unfoldable pub record_entry : MemorySink → AuditRecord → MemorySink
record_entry s entry =
    let pushed = s.records ++ entry ∷ [] in
    if ltb 0 s.max_records && ltb s.max_records (length pushed)
    then record s { records = drop 1 pushed }
    else record s { records = pushed }

abbrev is_of : Text → Option Text → Bool
is_of id none = false
is_of id (some owner) = text_eq owner id

unfoldable pub for_consumer : MemorySink → Text → List AuditRecord
for_consumer s id = keep (λ r. is_of id r.consumer_id) s.records
