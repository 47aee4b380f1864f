-- ===== src/Gateway/Ledger.antt =====
-- The ledger of orphaned launches: the orphan half of gateway/session-manager.ts. A record is an
-- object that several sets and callbacks share, so records stand on a heap under identifiers.
pub mod Watch
pub mod Heap
pub mod Owned
pub mod Loses
pub mod Parked
pub mod Calm
use browse_gateway.Base.{
  ℕ, zero, suc, ◌+◌, Bool, true, false, ◌&&◌, ◌||◌, not, Option, none, some, List, [], ◌∷◌, ◌++◌,
  ltb, ◌==◌, if◌then◌else◌, length, is_some,
}
use browse_gateway.Base.Ids.{mem, put, remove}

pub record OrphanRecord : Type 0 where
  pub dir : Option ℕ
  pub session : Option ℕ
  pub sweeping : Bool
  pub consumer_id : Option ℕ
  pub settled : Bool
  pub stamps : List ℕ
  pub settle_after_sweep : Bool

-- `removed` lists the profile directories whose removal was started.
pub record Ledger : Type 0 where
  pub heap : ℕ → OrphanRecord
  pub orphans : List ℕ
  pub watch : List ℕ
  pub removed : List ℕ

abbrev pub max_watched_launches : ℕ
max_watched_launches = 32

-- The heap after a write to one record.
unfoldable pub write : (ℕ → OrphanRecord) → ℕ → OrphanRecord → ℕ → OrphanRecord
write heap r v q = if q == r then v else heap q

unfoldable pub set_record : Ledger → ℕ → OrphanRecord → Ledger
set_record l r v = record l { heap = write l.heap r v }

unfoldable pub add_orphan : Ledger → ℕ → Ledger
add_orphan l r = record l { orphans = put l.orphans r }

-- Takes a record off both lists.
unfoldable pub forget : Ledger → ℕ → Ledger
forget l r = record l { orphans = remove l.orphans r; watch = remove l.watch r }

unfoldable pub finalize_orphan : Ledger → ℕ → Ledger
unfolding forget set_record
finalize_orphan l r = elim (l.heap r).dir [
  | none ↦ forget l r
  | some d ↦
      let l' = set_record (forget l r) r (record (l.heap r) { dir = none }) in
      record l' { removed = l.removed ++ d ∷ [] }
]

-- The part of a sweep before its first wait.
unfoldable pub sweep_orphan : Ledger → ℕ → Ledger
unfolding forget set_record
sweep_orphan l r =
    let rec = l.heap r in
    if rec.sweeping || is_some rec.session
    then l
    else if not (mem r l.orphans) && not (mem r l.watch)
    then l
    else if is_some rec.dir
    then set_record l r (record rec { sweeping = true })
    else forget l r

unfoldable pub enqueue_orphan : Ledger → ℕ → OrphanRecord → Ledger
unfolding set_record add_orphan sweep_orphan
enqueue_orphan l r v = sweep_orphan (add_orphan (set_record l r v) r) r

abbrev pub has_stamps : List ℕ → Bool
has_stamps [] = false
has_stamps (_ ∷ _) = true

unfoldable pub settle_reaped_orphan : Ledger → ℕ → Ledger
unfolding set_record add_orphan sweep_orphan finalize_orphan
settle_reaped_orphan l r =
    let rec = l.heap r in
    if rec.sweeping
    then add_orphan (set_record l r (record rec { settle_after_sweep = true })) r
    else if is_some rec.dir && has_stamps rec.stamps
    then sweep_orphan (add_orphan (set_record l r (record rec { session = none })) r) r
    else finalize_orphan l r

-- The oldest entry of the list whose sweep is not in flight.
unfoldable pub evictable : (ℕ → OrphanRecord) → List ℕ → Option ℕ
evictable heap [] = none
evictable heap (r ∷ rs) = if (heap r).sweeping then evictable heap rs else some r

-- The eviction loop on fuel; each round takes an entry off, so the list's length is enough.
unfoldable pub evict : ℕ → (ℕ → OrphanRecord) → ℕ → List ℕ → List ℕ
evict zero heap reserve watch = watch
evict (suc fuel) heap reserve watch =
    if ltb max_watched_launches (length watch + reserve)
    then elim (evictable heap watch) [
      | none ↦ watch
      | some r ↦ evict fuel heap reserve (remove watch r)
    ]
    else watch

unfoldable pub enforce_watch_cap : Ledger → ℕ → Ledger
enforce_watch_cap l reserve = record l { watch = evict (length l.watch) l.heap reserve l.watch }

unfoldable pub watch_launch : Ledger → ℕ → Ledger
unfolding enforce_watch_cap
watch_launch l r = let l' = enforce_watch_cap l 1 in record l' { watch = put l'.watch r }

pub data SweepResult : Type 0 where
  confirmed unconfirmed unsupported : SweepResult

abbrev pub stamps_after : SweepResult → List ℕ → List ℕ
stamps_after confirmed stamps = []
stamps_after unconfirmed stamps = stamps
stamps_after unsupported stamps = []

-- The verdict on a record that no session owns.
unfoldable pub decide_sweep : Ledger → ℕ → SweepResult → Ledger
unfolding finalize_orphan watch_launch forget add_orphan
decide_sweep l r confirmed =
    if (l.heap r).settled
    then finalize_orphan l r
    else if mem r l.orphans
    then watch_launch (record l { orphans = remove l.orphans r }) r
    else l
decide_sweep l r unsupported = forget l r
decide_sweep l r unconfirmed = add_orphan (record l { watch = remove l.watch r }) r

-- A sweep that settled: its verdict is written, then acted on.
unfoldable pub sweep_settled : Ledger → ℕ → SweepResult → List ℕ → Ledger
unfolding set_record
sweep_settled l r result stamps =
    let rec = record (l.heap r) { sweeping = false; stamps = stamps_after result stamps } in
    if rec.settle_after_sweep
    then settle_reaped_orphan (set_record l r (record rec { settle_after_sweep = false })) r
    else if is_some rec.session
    then set_record l r rec
    else decide_sweep (set_record l r rec) r result

-- A sweep whose scan was rejected.
unfoldable pub sweep_rejected : Ledger → ℕ → Ledger
unfolding set_record add_orphan
sweep_rejected l r =
    let rec = record (l.heap r) { sweeping = false } in
    if rec.settle_after_sweep
    then settle_reaped_orphan (set_record l r (record rec { settle_after_sweep = false })) r
    else if mem r l.watch
    then add_orphan (record (set_record l r rec) { watch = remove l.watch r }) r
    else set_record l r rec

-- The launch of a record resolved after its deadline, with a core whose session is `sid`.
unfoldable pub late_resolve : Ledger → ℕ → ℕ → Ledger
unfolding set_record
late_resolve l r sid =
    let l' = set_record l r (record (l.heap r) { settled = true; session = some sid }) in
    record l' { watch = remove l.watch r; orphans = put l.orphans r }

-- The launch of a record was rejected after its deadline.
unfoldable pub late_reject : Ledger → ℕ → Ledger
unfolding set_record add_orphan sweep_orphan
late_reject l r =
    let l' = set_record l r (record (l.heap r) { settled = true }) in
    sweep_orphan (if mem r l.watch then l' else add_orphan l' r) r
