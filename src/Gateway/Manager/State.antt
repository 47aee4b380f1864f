-- ===== src/Gateway/Manager/State.antt =====
-- The state of the session manager and its admission: the fields, the counts and `acquire` of
-- gateway/session-manager.ts.
use browse_gateway.Base.{
  ℕ, suc, ◌+◌, ◌-◌, Bool, true, false, Option, none, some, List, [], ◌∷◌, map, ltb, leb, ◌==◌,
  if◌then◌else◌, length,
}
use browse_gateway.Gateway.Session.{Session}
use browse_gateway.Gateway.Ledger.{OrphanRecord, Ledger}

-- A launch in flight is known by its consumer, if it has one. `running` and `returning` are the
-- launch promises of `#launching` that are pending and that have settled; `reaping` lists the
-- sessions of orphans whose teardown is in flight.
pub record Manager : Type 0 where
  pub max_sessions : ℕ
  pub per_consumer_max : ℕ
  pub sessions : List Session
  pub reserved : ℕ
  pub reserved_by_consumer : List (ℕ × ℕ)
  pub running : List (Option ℕ)
  pub returning : List (Option ℕ)
  pub closing : List ℕ
  pub unconfirmed : List ℕ
  pub reaping : List ℕ
  pub owned_dirs : List (ℕ × ℕ)
  pub removed_dirs : List ℕ
  pub shutting_down : Bool
  pub ledger : Ledger

pub data SessionFailureKind : Type 0 where
  launch_failed launch_timeout at_capacity_global at_capacity_consumer shutting_down_kind :
      SessionFailureKind

pub data Acquired : Type 0 where
  admitted : Manager → Acquired
  refused : SessionFailureKind → Acquired

-- `map.get(k) ?? 0`.
unfoldable pub get_count : List (ℕ × ℕ) → ℕ → ℕ
get_count [] k = 0
get_count ((j, n) ∷ m) k = if j == k then n else get_count m k

unfoldable pub set_count : List (ℕ × ℕ) → ℕ → ℕ → List (ℕ × ℕ)
set_count [] k n = (k, n) ∷ []
set_count ((j, i) ∷ m) k n = if j == k then (j, n) ∷ m else (j, i) ∷ set_count m k n

unfoldable pub delete_count : List (ℕ × ℕ) → ℕ → List (ℕ × ℕ)
delete_count [] k = []
delete_count ((j, i) ∷ m) k = if j == k then delete_count m k else (j, i) ∷ delete_count m k

-- The owner is the consumer.
unfoldable pub owned_by : ℕ → Option ℕ → Bool
owned_by c none = false
owned_by c (some d) = d == c

-- How many of the list are the consumer's.
unfoldable pub count_owned : ℕ → List (Option ℕ) → ℕ
unfolding owned_by
count_owned c [] = 0
count_owned c (o ∷ os) = if owned_by c o then suc (count_owned c os) else count_owned c os

abbrev pub owners : List Session → List (Option ℕ)
owners = map λ s. s.consumer_id

abbrev pub orphan_owners : Ledger → List (Option ℕ)
orphan_owners l = map (λ r. (l.heap r).consumer_id) l.orphans

unfoldable pub count_for_consumer : Manager → ℕ → ℕ
unfolding get_count
count_for_consumer m c =
    get_count m.reserved_by_consumer c
    + count_owned c (owners m.sessions)
    + count_owned c (orphan_owners m.ledger)

unfoldable pub active_count : Manager → ℕ
active_count m = length m.sessions + length m.ledger.orphans

abbrev pub over_consumer_cap : Manager → Option ℕ → Bool
over_consumer_cap m none = false
over_consumer_cap m (some c) = leb m.per_consumer_max (count_for_consumer m c)

abbrev pub reserve_for : Option ℕ → List (ℕ × ℕ) → List (ℕ × ℕ)
reserve_for none counts = counts
reserve_for (some c) counts = set_count counts c (get_count counts c + 1)

-- `acquire` up to its first wait.
unfoldable pub acquire : Manager → Option ℕ → Acquired
acquire m consumer =
    if m.shutting_down
    then refused shutting_down_kind
    else if leb m.max_sessions (active_count m + m.reserved)
    then refused at_capacity_global
    else if over_consumer_cap m consumer
    then refused at_capacity_consumer
    else admitted (record m {
      reserved = m.reserved + 1;
      reserved_by_consumer = reserve_for consumer m.reserved_by_consumer;
      running = consumer ∷ m.running;
    })

abbrev pub release_for : Option ℕ → List (ℕ × ℕ) → List (ℕ × ℕ)
release_for none counts = counts
release_for (some c) counts =
    if ltb 0 (get_count counts c - 1)
    then set_count counts c (get_count counts c - 1)
    else delete_count counts c

unfoldable pub same_owner : Option ℕ → Option ℕ → Bool
same_owner none none = true
same_owner none (some b) = false
same_owner (some a) none = false
same_owner (some a) (some b) = a == b

-- The list without one entry for the consumer.
unfoldable pub drop_one : Option ℕ → List (Option ℕ) → List (Option ℕ)
drop_one o [] = []
drop_one o (p ∷ ps) = if same_owner p o then ps else p ∷ drop_one o ps

-- The `finally` of `acquire`.
unfoldable pub acquire_finally : Manager → Option ℕ → Manager
acquire_finally m consumer = record m {
  reserved = m.reserved - 1;
  reserved_by_consumer = release_for consumer m.reserved_by_consumer;
  returning = drop_one consumer m.returning;
}

-- The launch promise settles.
unfoldable pub launch_settles : Manager → Option ℕ → Manager
launch_settles m consumer = record m {
  running = drop_one consumer m.running;
  returning = consumer ∷ m.returning;
}

abbrev pub orphan_of : Option ℕ → Option ℕ → Option ℕ → Bool → OrphanRecord
orphan_of dir session consumer settled = record {
  dir = dir;
  session = session;
  sweeping = false;
  consumer_id = consumer;
  settled = settled;
  stamps = [];
  settle_after_sweep = false;
}

unfoldable pub new_manager : ℕ → ℕ → Manager
new_manager max_sessions per_consumer_max = record {
  max_sessions = max_sessions;
  per_consumer_max = per_consumer_max;
  sessions = [];
  reserved = 0;
  reserved_by_consumer = [];
  running = [];
  returning = [];
  closing = [];
  unconfirmed = [];
  reaping = [];
  owned_dirs = [];
  removed_dirs = [];
  shutting_down = false;
  ledger = record {
    heap = λ r. orphan_of none none none false;
    orphans = [];
    watch = [];
    removed = [];
  };
}
