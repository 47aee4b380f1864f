-- ===== src/Artifacts/Tests.antt =====
-- The artifact store at concrete inputs.
use browse_gateway.Base.{
  is_some, ℕ, zero, suc, Bool, ◌*◌, ◌≡◌, ◌⊎◌, refl, true, false, none, some, List, [], ◌∷◌,
}
use browse_gateway.Artifacts.Capacity.{Limits, no_reservations}
use browse_gateway.Artifacts.Capacity.Claims.{
  Request, reserves, shrinks, finishes, discards, allow_all,
}
use browse_gateway.Artifacts.Capacity.Exact.{IsExact}
use browse_gateway.Artifacts.Capacity.Refine.{perform_all, claims_of, perform_all_refines_claims}
use browse_gateway.Artifacts.Capacity.Within.{RespectsLimits, reservations_bounded}
use browse_gateway.Artifacts.Store.{Store, FileStat, new_store, proven_file_stat}
use browse_gateway.Artifacts.Store.Discard.{Disk}
use browse_gateway.Artifacts.Store.Close.{CloseDisk}
use browse_gateway.Artifacts.Store.Capture.{Source}
use browse_gateway.Artifacts.Store.Responses.{in_time}
use browse_gateway.Artifacts.Store.Documents.{IsOf, AllAre}
use browse_gateway.Artifacts.Store.Documents.Runs.{IsCaptured, run_documents}
use browse_gateway.Artifacts.Store.Runs.{
  Event, captures, part_fsynced, part_linked, acquires, resumes, completes, run, new_world,
}
use browse_gateway.Artifacts.Lineage.{
  of_drive, Entry, Ledger, create_operation, invalidate_controller, authorize, publish_owner,
  owner_mismatch,
}
use browse_gateway.Artifacts.Lineage.Fence.{
  LedgerEvent, creates, publishes, happen, happen_all, IsOfLineage, invalidate_controller-fences,
}
use browse_gateway.Artifacts.Window.{Attempt, is_clock, shift_past, spend_retrieval, refusals}
use browse_gateway.Artifacts.Window.Exact.{log_refusals, refusals-log}
use browse_gateway.Artifacts.Store.Books.{Books, is_broken}
use browse_gateway.Artifacts.Store.Books.Runs.{run-Books}

-- The defaults of the source.
abbrev default_limits : Limits
default_limits = record {
  max_bytes = 64 * 1024 * 1024;
  max_count = 16;
  per_consumer_bytes = 16 * 1024 * 1024;
  per_consumer_count = 4;
}

-- Two captures of one consumer, a third that finds no stage permit, and the end of the first two.
abbrev requests : List Request
requests =
    reserves 1 7
    ∷ reserves 2 7
    ∷ reserves 3 8
    ∷ shrinks (record { token = 0; id = 1 }) 1000
    ∷ finishes (record { token = 0; id = 1 }) true
    ∷ finishes (record { token = 1; id = 2 }) false
    ∷ discards 1
    ∷ reserves 3 8
    ∷ []

perform_all_refines_claims_example :
    (claims_of (perform_all default_limits no_reservations requests).0
      ≡ (allow_all default_limits (record { claims = []; next = 0 }) requests).0)
    × ((perform_all default_limits no_reservations requests).1
        ≡ (allow_all default_limits (record { claims = []; next = 0 }) requests).1)
    × IsExact (perform_all default_limits no_reservations requests).0
perform_all_refines_claims_example = perform_all_refines_claims default_limits requests

reservations_bounded_example :
    RespectsLimits default_limits (perform_all default_limits no_reservations requests).0
reservations_bounded_example = reservations_bounded default_limits requests

abbrev sound_disk : Disk
sound_disk = record { holds = λ id. true; deletes = λ id. true }

abbrev sound_close : CloseDisk
sound_close = record {
  holds = true;
  disk = sound_disk;
  lists = true;
  finds_names = false;
  deletes_rest = true;
  fsyncs_data = true;
  tears_down = true;
}

abbrev document : Source
document = record {
  opens = true;
  is_file = true;
  size = 1000;
  reads = true;
  end_size = 1000;
  has_magic = true;
  sha256 = 99;
  holds = true;
  stages = true;
  cleans_up = true;
}

abbrev fresh_store : Store
fresh_store = new_store default_limits 600000

-- Two documents are captured and the first is leased; the caller of the second waits, and goes on
-- when the first lease completes.
abbrev story : List Event
story =
    captures sound_disk 0 1 7 none document sound_close
    ∷ part_fsynced 1 true true true sound_close
    ∷ part_linked 1 true (some 5) true 10 sound_close
    ∷ captures sound_disk 11 2 7 none document sound_close
    ∷ part_fsynced 2 true true true sound_close
    ∷ part_linked 2 true (some 6) true 12 sound_close
    ∷ acquires sound_disk 20 0 1 7 true in_time
    ∷ acquires sound_disk 30 1 2 7 true in_time
    ∷ completes sound_disk 0
    ∷ resumes sound_disk 40 1 2 7 true in_time
    ∷ []

run-Books_example :
    (is_broken (run (new_world default_limits 600000) story).store ≡ true)
    ⊎ Books
        (run (new_world default_limits 600000) story).store
        (run (new_world default_limits 600000) story).pending
run-Books_example = run-Books default_limits 600000 story

run_documents_example :
    AllAre
      (IsOf (IsCaptured story) 600000)
      (run (new_world default_limits 600000) story).store.records
run_documents_example = run_documents default_limits 600000 story

abbrev private_file : FileStat
private_file = record { is_file = true; size = 1000; uid = 501; mode = 33152 }

proven_private : proven_file_stat (some 501) private_file 1000 ≡ true
unfolding proven_file_stat
proven_private = refl

-- A consumer tries as often as it may and once more, another one tries once, and both come back after
-- a minute.
burst : ℕ → List Attempt → List Attempt
burst zero xs = xs
burst (suc n) xs = record { now = 100; consumer_id = 7 } ∷ burst n xs

abbrev tries : List Attempt
tries = burst 31 (
    record { now = 200; consumer_id = 8 }
    ∷ record { now = 60099; consumer_id = 7 }
    ∷ record { now = 60100; consumer_id = 7 }
    ∷ [])

refusals-log_example : refusals (λ c. none) tries ≡ log_refusals [] tries
unfolding burst is_clock
refusals-log_example = refusals-log tries refl

admitted_first : ℕ → List Bool → List Bool
admitted_first zero bs = bs
admitted_first (suc n) bs = false ∷ admitted_first n bs

refusals_of_tries :
    refusals (λ c. none) tries ≡ admitted_first 30 (true ∷ false ∷ true ∷ false ∷ [])
unfolding burst refusals spend_retrieval shift_past admitted_first
refusals_of_tries = refl

abbrev no_owners : Ledger
no_owners = record {
  closed = false;
  cleanup_poisoned = false;
  owners = λ id. none;
  controllers = λ c k. none;
  retrievals = λ c. none;
}

abbrev entry : Entry
entry = record { token = 5; owner = of_drive 7 2 }

-- A document of the lineage is published late, and another controller of the consumer begins.
abbrev late : List LedgerEvent
late = publishes 1 entry ∷ creates (of_drive 7 3) ∷ []

abbrev fenced_ledger : Ledger
fenced_ledger = happen_all (invalidate_controller no_owners 7 2) late

invalidate_controller-fences_example :
    (is_some (create_operation fenced_ledger (of_drive 7 2)).1 ≡ true)
    × ((is_some (authorize fenced_ledger 10 7 (some 2) true 1).1 ≡ true)
        ⊎ ¬ (IsOfLineage 7 2 (fenced_ledger.owners 1)))
invalidate_controller-fences_example =
    invalidate_controller-fences no_owners 7 2 late 10 7 (some 2) true 1

-- Before the lineage is fenced its consumer may retrieve the document through its controller alone.
retrievals_of_a_live_lineage :
    ((authorize
        (happen_all no_owners (creates (of_drive 7 2) ∷ publishes 1 entry ∷ []))
        10
        7
        (some 2)
        true
        1).1
      ≡ none)
    × ((authorize
          (happen_all no_owners (creates (of_drive 7 2) ∷ publishes 1 entry ∷ []))
          10
          7
          (some 3)
          true
          1).1
        ≡ some owner_mismatch)
unfolding happen_all happen create_operation publish_owner authorize spend_retrieval
retrievals_of_a_live_lineage = (refl, refl)
