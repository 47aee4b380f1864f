-- ===== src/Artifacts/Store/Documents/Runs.antt =====
-- The records of the artifact store in the runs of artifacts/store.ts.
use browse_gateway.Base.{
  ℕ, ◌≡◌, inl, inr, refl, sym, subst, ◌∙◌, true, false, Option, none, some, List, [], ◌∷◌, ◌++◌,
  arith, ◌==◌, if_cases, Bool-cases, append_assoc,
}
use browse_gateway.Base.Ids.{mem}
use browse_gateway.Artifacts.Capacity.{Limits}
use browse_gateway.Artifacts.Store.{Store, new_store}
use browse_gateway.Artifacts.Store.Discard.{Disk}
use browse_gateway.Artifacts.Store.Close.{CloseDisk}
use browse_gateway.Artifacts.Store.Capture.{
  Source, Pending, Captured, capture_failed, published, waits, CaptureStep, capture,
  after_part_fsync, after_link,
}
use browse_gateway.Artifacts.Store.Runs.{
  World, new_world, waiting_of, set_at, either, captured, called, resumed, Event, captures,
  part_fsynced, part_linked, acquires, resumes, completes, times_out, claims, discards, cleans,
  closes, step, run,
}
use browse_gateway.Artifacts.Store.Documents.{IsOf, AllAre, HasOnly}
use browse_gateway.Artifacts.Store.Documents.Discards.{
  discard_artifact_detailed-Only, reap_expired-Only, close-Only,
}
use browse_gateway.Artifacts.Store.Documents.Leases.{
  acquire-Only, resume-Only, complete-Only, time_out-Only, claim_timeout-Only,
}
use browse_gateway.Artifacts.Store.Documents.Captures.{
  IsDocument, Waits, KeptStep, capture-Kept, after_part_fsync-Kept, after_link-Kept,
}

-- Among the events is the call of the capture, whose source is a document, and the capture has the
-- length and the digest of that source.
pub record IsCaptured (es : List Event) (p : Pending) : Type 0 where
  pub before : List Event
  pub after : List Event
  pub disk : Disk
  pub now : ℕ
  pub source : Source
  pub close_disk : CloseDisk
  pub occurs :
      es ≡ before ++ captures disk now p.id p.consumer_id p.ttl_ms source close_disk ∷ after
  pub is_document : IsDocument source
  pub bytes : p.bytes ≡ source.size
  pub digest : p.sha256 ≡ source.sha256

module _ (P : Pending → Type 0) (ttl_ms : ℕ) where
  -- The records of the world are of captures that satisfy the claim, and those that wait satisfy it.
  record Fine (w : World) : Type 0 where
    records : HasOnly P ttl_ms w.store
    waiting : (id : ℕ) (p : Pending) → w.pending id ≡ some p → P p

  waits-P : (a : Captured) (p : Pending) → Waits P ttl_ms a → waiting_of a ≡ some p → P p
  waits-P (waits q) p its e = subst P (cc e) its
  waits-P (published r) p its e = absurd (cc e)
  waits-P (capture_failed f) p its e = absurd (cc e)

  set_at-P :
      (id : ℕ) (o : Option Pending) (g : ℕ → Option Pending)
      → ((p : Pending) → o ≡ some p → P p)
      → ((j : ℕ) (p : Pending) → g j ≡ some p → P p)
      → (j : ℕ) (p : Pending) → set_at id o g j ≡ some p
      → P p
  set_at-P id o g here there j p e = elim (Bool-cases (id == j)) [
    | inl same ↦ here p (sym (at same) ∙ e)
    | inr other ↦ there j p (sym (off other) ∙ e)
  ]
    where
      at : (id == j) ≡ true → set_at id o g j ≡ o
      at same = ground (arith, same)

      off : (id == j) ≡ false → set_at id o g j ≡ g j
      off other = ground (arith, other)

  captured-Fine :
      (w : World) (id : ℕ) (x : CaptureStep) → Fine w → KeptStep P ttl_ms x → Fine (captured id w x)
  captured-Fine w id x f k = record {
    records = k.0;
    waiting =
        set_at-P id (waiting_of x.answer) w.pending (λ p e. waits-P x.answer p k.1 e) f.waiting;
  }

  called-Fine :
      (w : World) (id : ℕ) (x : CaptureStep) → Fine w → KeptStep P ttl_ms x → Fine (called id w x)
  called-Fine w id x f k = record {
    records = k.0;
    waiting =
        set_at-P id (either (waiting_of x.answer) (w.pending id)) w.pending
          (one_of (waiting_of x.answer) (w.pending id) (λ p e. waits-P x.answer p k.1 e)
            (f.waiting id))
          f.waiting;
  }
    where
      one_of :
          (a b : Option Pending)
          → ((p : Pending) → a ≡ some p → P p)
          → ((p : Pending) → b ≡ some p → P p)
          → (p : Pending) → either a b ≡ some p
          → P p
      one_of none b l r p e = r p e
      one_of (some q) b l r p e = l p e

  resumed-Fine :
      (o : Option Pending) (w : World) (g : Pending → World)
      → Fine w
      → ((p : Pending) → o ≡ some p → Fine (g p))
      → Fine (resumed o w g)
  resumed-Fine none w g f h = f
  resumed-Fine (some p) w g f h = h p refl

  stored : (w : World) (s : Store) → Fine w → HasOnly P ttl_ms s → Fine (record w { store = s })
  stored w s f k = record { records = k; waiting = f.waiting }

  -- What an event must bring for its capture to satisfy the claim.
  abbrev Brings : Event → Type 0
  Brings (captures d now id c asked f dc) =
      (p : Pending)
      → IsDocument f
      → p.id ≡ id
      → p.consumer_id ≡ c
      → p.ttl_ms ≡ asked
      → p.bytes ≡ f.size
      → p.sha256 ≡ f.sha256
      → P p
  Brings _ = Unit

  step-Fine : (w : World) (e : Event) → Brings e → Fine w → Fine (step w e)
  unfolding step
  step-Fine w (captures d now id c asked f dc) good k =
      called-Fine w id (capture w.store d now id c asked f dc) k (
        capture-Kept P ttl_ms w.store d now id c asked f dc
          (λ h is_doc. good _ is_doc refl refl refl refl refl) k.records)
  step-Fine w (part_fsynced id holds links cleans_up d) good k =
      resumed-Fine (w.pending id) w _ k λ p e.
        captured-Fine w p.id (after_part_fsync w.store p holds links cleans_up d) k (
          after_part_fsync-Kept P ttl_ms w.store p k.records (k.waiting id p e) holds links
            cleans_up d)
  step-Fine w (part_linked id holds proves cleans_up now d) good k =
      resumed-Fine (w.pending id) w _ k λ p e.
        captured-Fine w p.id (after_link w.store p holds proves cleans_up now d) k (
          after_link-Kept P ttl_ms w.store p k.records (k.waiting id p e) holds proves cleans_up now
            d)
  step-Fine w (acquires d now v id c holds reading) good k =
      stored w _ k (acquire-Only P ttl_ms w.store d now v id c holds reading k.records)
  step-Fine w (resumes d now v id c holds reading) good k =
      if_cases Fine (mem v w.store.permit.granted) _ _
        (λ given. stored w _ k (resume-Only P ttl_ms w.store d now v id c holds reading k.records))
        (λ other. k)
  step-Fine w (completes d t) good k = stored w _ k (complete-Only P ttl_ms w.store d t k.records)
  step-Fine w (times_out d t) good k = stored w _ k (time_out-Only P ttl_ms w.store d t k.records)
  step-Fine w (claims t) good k = stored w _ k (claim_timeout-Only P ttl_ms w.store t k.records)
  step-Fine w (discards d id) good k =
      stored w _ k (discard_artifact_detailed-Only P ttl_ms w.store d id k.records)
  step-Fine w (cleans d now) good k =
      stored w _ k (reap_expired-Only P ttl_ms w.store d now k.records)
  step-Fine w (closes d) good k =
      if_cases Fine w.store.enabled _ _
        (λ on. stored w _ k (close-Only P ttl_ms w.store d k.records)) (λ off. k)

module _ (es : List Event) (ttl_ms : ℕ) where
  brings :
      (before after : List Event) (e : Event)
      → es ≡ before ++ e ∷ after
      → Brings (IsCaptured es) ttl_ms e
  brings before after (captures d now id c asked f dc) occurs =
      λ p is_doc its_id its_c its_asked b s. record {
        before = before;
        after = after;
        disk = d;
        now = now;
        source = f;
        close_disk = dc;
        occurs = cc (occurs, its_id, its_c, its_asked);
        is_document = is_doc;
        bytes = b;
        digest = s;
      }
  brings before after (part_fsynced id holds links cleans_up d) occurs = tt
  brings before after (part_linked id holds proves cleans_up now d) occurs = tt
  brings before after (acquires d now v id c holds reading) occurs = tt
  brings before after (resumes d now v id c holds reading) occurs = tt
  brings before after (completes d t) occurs = tt
  brings before after (times_out d t) occurs = tt
  brings before after (claims t) occurs = tt
  brings before after (discards d id) occurs = tt
  brings before after (cleans d now) occurs = tt
  brings before after (closes d) occurs = tt

  run-Fine :
      (w : World) (before rest : List Event)
      → es ≡ before ++ rest
      → Fine (IsCaptured es) ttl_ms w
      → Fine (IsCaptured es) ttl_ms (run w rest)
  unfolding run
  run-Fine w before [] e f = f
  run-Fine w before (x ∷ rest) e f =
      run-Fine (step w x) (before ++ x ∷ []) rest (e ∙ sym (append_assoc before (x ∷ []) rest))
        (step-Fine (IsCaptured es) ttl_ms w x (brings before rest x e) f)

  new_world-Fine : (m : Limits) → Fine (IsCaptured es) ttl_ms (new_world m ttl_ms)
  unfolding new_world new_store
  new_world-Fine m = record { records = (refl, tt); waiting = λ id p e. absurd (cc e) }

-- Whatever happens to a new store, each of its records is of a capture that was called before: the
-- source of that call was a regular file of no less than five bytes and no more than the limit, which
-- was read to its end without changing its size and starts as a PDF does; the record has the
-- identifier and the consumer of the call, the length and the digest of the source, and lives for the
-- time that the call asked for, or for the store's own if it asked for none.
pub run_documents :
    (m : Limits) (ttl_ms : ℕ) (es : List Event)
    → AllAre (IsOf (IsCaptured es) ttl_ms) (run (new_world m ttl_ms) es).store.records
run_documents m ttl_ms es =
    (run-Fine es ttl_ms (new_world m ttl_ms) [] es refl (new_world-Fine es ttl_ms m)).records.1
