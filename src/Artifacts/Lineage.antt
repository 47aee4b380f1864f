-- ===== src/Artifacts/Lineage.antt =====
-- The owners of artifacts and the lineages of drive controllers: artifacts/index.ts. Consumers,
-- controllers, artifacts and tokens are numbers; the identifiers that a caller gives are strings that
-- are not empty.
pub mod Fence
use browse_gateway.Base.{
  ℕ, Bool, true, false, ◌&&◌, ◌||◌, not, Option, none, some, List, [], ◌∷◌, ◌==◌, if◌then◌else◌,
}
use browse_gateway.Artifacts.Window.{Retrievals, spend_retrieval}

pub data LineageState : Type 0 where
  active invalidated : LineageState

pub data Owner : Type 0 where
  of_consumer : ℕ → Owner
  of_drive : ℕ → ℕ → Owner

pub record Entry : Type 0 where
  pub token : ℕ
  pub owner : Owner

pub data Denial : Type 0 where
  not_found rate_limited owner_mismatch runtime_invalidated cleanup_failed : Denial

pub record Ledger : Type 0 where
  pub closed : Bool
  pub cleanup_poisoned : Bool
  pub owners : ℕ → Option Entry
  pub controllers : ℕ → ℕ → Option LineageState
  pub retrievals : Retrievals

abbrev pub is_invalidated : Option LineageState → Bool
is_invalidated none = false
is_invalidated (some active) = false
is_invalidated (some invalidated) = true

abbrev pub is_active : Option LineageState → Bool
is_active none = false
is_active (some active) = true
is_active (some invalidated) = false

abbrev pub invalid_lineage : Ledger → Owner → Bool
invalid_lineage l (of_consumer c) = false
invalid_lineage l (of_drive c k) = is_invalidated (l.controllers c k)

abbrev pub set_controller : Ledger → ℕ → ℕ → LineageState → Ledger
set_controller l c k st = record l {
  controllers = λ d j. if c == d && k == j then some st else l.controllers d j;
}

-- First use activates a lineage.
abbrev pub activate : Ledger → ℕ → ℕ → Option LineageState → Ledger
activate l c k none = set_controller l c k active
activate l c k (some st) = l

abbrev pub establish : Ledger → Owner → Ledger
establish l (of_consumer c) = l
establish l (of_drive c k) = activate l c k (l.controllers c k)

-- The end of `createOperation`, for an owner that is valid and an identifier that is free.
unfoldable pub create_operation : Ledger → Owner → Ledger × Option Denial
create_operation l o =
    if l.closed
    then (l, some runtime_invalidated)
    else if l.cleanup_poisoned
    then (l, some cleanup_failed)
    else if invalid_lineage l o
    then (l, some runtime_invalidated)
    else (establish l o, none)

abbrev pub set_owner : Ledger → ℕ → Option Entry → Ledger
set_owner l id e = record l { owners = λ j. if id == j then e else l.owners j }

-- The artifact is committed: its operation publishes the entry.
unfoldable pub publish_owner : Ledger → ℕ → Entry → Ledger
publish_owner l id e = set_owner l id (some e)

abbrev pub has_token : ℕ → Option Entry → Bool
has_token t none = false
has_token t (some e) = e.token == t

-- The artifact is gone: only the operation that published the entry removes it.
unfoldable pub release_owner : Ledger → ℕ → ℕ → Ledger
release_owner l id t = if has_token t (l.owners id) then set_owner l id none else l

unfoldable pub invalidate_controller : Ledger → ℕ → ℕ → Ledger
invalidate_controller l c k = set_controller l c k invalidated

abbrev pub is_consumer : ℕ → Owner → Bool
is_consumer c (of_consumer d) = d == c
is_consumer c (of_drive d k) = d == c

abbrev pub is_controller : ℕ → Option ℕ → Bool
is_controller k none = false
is_controller k (some j) = j == k

abbrev pub lineage_denial : Ledger → ℕ → Option ℕ → Owner → Option Denial
lineage_denial l c k (of_consumer d) = none
lineage_denial l c k (of_drive d j) =
    if not (is_controller j k)
    then some owner_mismatch
    else if not (is_active (l.controllers c j))
    then some owner_mismatch
    else none

abbrev pub owner_denial : Ledger → ℕ → Option ℕ → Option Entry → Option Denial
owner_denial l c k none = some not_found
owner_denial l c k (some e) =
    if not (is_consumer c e.owner) then some owner_mismatch else lineage_denial l c k e.owner

-- `acquireResponseLease` up to its call of the store: `valid` says that the identifier is of the
-- grammar, and the answer is why the call is denied, if it is.
unfoldable pub authorize : Ledger → ℕ → ℕ → Option ℕ → Bool → ℕ → Ledger × Option Denial
authorize l now c k valid id =
    let (r, spent) = spend_retrieval l.retrievals now c in
    let l' = record l { retrievals = r } in
    if spent
    then (l', some rate_limited)
    else if not valid
    then (l', some not_found)
    else (l', owner_denial l' c k (l'.owners id))
