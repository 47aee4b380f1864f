-- ===== src/Secrets/Audit.antt =====
-- The audit trail behind the redaction of secrets: `RedactingAuditSink` of policy/audit.ts.
use browse_gateway.Base.{
  ℕ, ◌≡◌, true, false, Option, none, some, List, [], ◌∷◌, ◌++◌, ltb, length, drop, if_cases, All,
  All-append,
}
use browse_gateway.Base.Text.{Text}
use browse_gateway.Base.Sets.{has}
use browse_gateway.Policy.Audit.{AuditRecord, MemorySink, new_sink, record_entry}
use browse_gateway.Secrets.{SecretStore, SecretKey, get, empty_store}
use browse_gateway.Secrets.Redact.{Encoders, redact_secrets}
use browse_gateway.Secrets.Redact.Replace.{contains, IsUnmarked}
use browse_gateway.Secrets.Redact.Hides.{redact_secrets-hides}
use browse_gateway.Secrets.Kept.{
  AreCovered, SecretOp, perform, perform_all, perform-Retains, perform_all-Retains,
  empty_store-AreCovered, given,
}

unfoldable pub scrub : Encoders → List Text → Option Text → Option Text
scrub e values none = none
scrub e values (some t) = some (redact_secrets e values t)

-- The inner sink is the one in memory.
unfoldable pub record_redacted : Encoders → SecretStore → MemorySink → AuditRecord → MemorySink
record_redacted e s sink entry = record_entry sink (record entry {
  host = scrub e s.redactable entry.host;
  url = scrub e s.redactable entry.url;
  reason = scrub e s.redactable entry.reason;
})

-- A store and a trail behind it, and what happens to them.
pub record Trail : Type 0 where
  pub store : SecretStore
  pub sink : MemorySink

pub data TrailEvent : Type 0 where
  changes : SecretOp → TrailEvent
  records : AuditRecord → TrailEvent

unfoldable pub follow : Encoders → Trail → TrailEvent → Trail
follow e t (changes op) = record t { store = (perform t.store op).store }
follow e t (records entry) = record t { sink = record_redacted e t.store t.sink entry }

unfoldable pub follow_all : Encoders → Trail → List TrailEvent → Trail
follow_all e t [] = t
follow_all e t (x ∷ xs) = follow_all e (follow e t x) xs

-- A free-text field without the value.
abbrev pub Lacks : Text → Option Text → Type 0
Lacks v none = Unit
Lacks v (some t) = contains t v ≡ false

abbrev pub IsClean : Text → AuditRecord → Type 0
IsClean v r = Lacks v r.host × Lacks v r.url × Lacks v r.reason

scrub-Lacks :
    (e : Encoders) (values : List Text) (v : Text) (o : Option Text)
    → has values v ≡ true
    → ltb (length v) 3 ≡ false
    → IsUnmarked v
    → Lacks v (scrub e values o)
unfolding scrub
scrub-Lacks e values v none h l u = tt
scrub-Lacks e values v (some t) h l u = redact_secrets-hides e values t v h l u

drop-All : (v : Text) (rs : List AuditRecord) → All (IsClean v) rs → All (IsClean v) (drop 1 rs)
drop-All v [] a = a
drop-All v (r ∷ rs) a = a.1

record_redacted-All :
    (e : Encoders) (s : SecretStore) (sink : MemorySink) (entry : AuditRecord) (v : Text)
    → has s.redactable v ≡ true
    → ltb (length v) 3 ≡ false
    → IsUnmarked v
    → All (IsClean v) sink.records
    → All (IsClean v) (record_redacted e s sink entry).records
unfolding record_redacted record_entry
record_redacted-All e s sink entry v h l u a =
    if_cases {A = MemorySink} (λ k. All (IsClean v) k.records) _ _ _ (λ full. drop-All v _ pushed)
      (λ room. pushed)
  where
    clean : IsClean v (record entry {
      host = scrub e s.redactable entry.host;
      url = scrub e s.redactable entry.url;
      reason = scrub e s.redactable entry.reason;
    })
    clean = (
      scrub-Lacks e s.redactable v entry.host h l u,
      scrub-Lacks e s.redactable v entry.url h l u,
      scrub-Lacks e s.redactable v entry.reason h l u,
    )

    pushed : All (IsClean v) (
        sink.records
        ++ record entry {
          host = scrub e s.redactable entry.host;
          url = scrub e s.redactable entry.url;
          reason = scrub e s.redactable entry.reason;
        }
          ∷ [])
    pushed = All-append (IsClean v) sink.records _ a (clean, tt)

follow_all-All :
    (e : Encoders) (t : Trail) (xs : List TrailEvent) (v : Text)
    → AreCovered t.store
    → has t.store.redactable v ≡ true
    → ltb (length v) 3 ≡ false
    → IsUnmarked v
    → All (IsClean v) t.sink.records
    → All (IsClean v) (follow_all e t xs).sink.records
unfolding follow_all follow
follow_all-All e t [] v c h l u a = a
follow_all-All e t (changes op ∷ xs) v c h l u a =
    let (c', k) = perform-Retains t.store op c in
    follow_all-All e (record t { store = (perform t.store op).store }) xs v c' (k v h) l u a
follow_all-All e t (records entry ∷ xs) v c h l u a =
    follow_all-All e (record t { sink = record_redacted e t.store t.sink entry }) xs v c h l u
      (record_redacted-All e t.store t.sink entry v h l u a)

-- A secret that the store gives out after any calls, and that has no bracket of the marker and is not a
-- part of the marker's word, is in no host, URL or reason of a trail that is begun then, whatever is
-- recorded and whatever secrets are loaded or registered afterwards.
pub trail_hides :
    (e : Encoders) (ops : List SecretOp) (max : ℕ) (k : SecretKey) (v : Text) (xs : List TrailEvent)
    → get k (perform_all empty_store ops).values ≡ some v
    → IsUnmarked v
    → All
        (IsClean v)
        (follow_all e
          (record { store = perform_all empty_store ops; sink = new_sink max })
          xs).sink.records
unfolding new_sink
trail_hides e ops max k v xs h u =
    let (c, kept) = perform_all-Retains empty_store ops empty_store-AreCovered in
    let (there, long) =
      given (perform_all empty_store ops).redactable k (perform_all empty_store ops).values v c h in
    follow_all-All e (record { store = perform_all empty_store ops; sink = new_sink max }) xs v c
      there long u tt
