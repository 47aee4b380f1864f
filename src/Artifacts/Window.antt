-- ===== src/Artifacts/Window.antt =====
-- The budget of retrievals of artifacts/index.ts: a rolling minute for each consumer. Consumers are
-- numbers, and so are instants, in milliseconds.
pub mod Exact
use browse_gateway.Base.{
  ℕ, ◌+◌, Bool, true, false, Option, none, some, List, [], ◌∷◌, ◌++◌, leb, ◌==◌, if◌then◌else◌,
  length,
}

abbrev pub max_retrievals_per_window : ℕ
max_retrievals_per_window = 30

abbrev pub retrieval_window_ms : ℕ
retrieval_window_ms = 60000

-- The instants of the retrievals of each consumer that has any.
abbrev pub Retrievals : Type 0
Retrievals = ℕ → Option (List ℕ)

-- The instant left the window.
abbrev pub is_past : ℕ → ℕ → Bool
is_past now a = leb (a + retrieval_window_ms) now

unfoldable pub shift_past : ℕ → List ℕ → List ℕ
shift_past now [] = []
shift_past now (a ∷ xs) = if is_past now a then shift_past now xs else a ∷ xs

-- An empty window is deleted from the map.
abbrev pub unless_empty : List ℕ → Option (List ℕ)
unless_empty [] = none
unless_empty (a ∷ xs) = some (a ∷ xs)

abbrev pub in_window : ℕ → Option (List ℕ) → Option (List ℕ)
in_window now none = none
in_window now (some xs) = unless_empty (shift_past now xs)

abbrev pub is_spent : Option (List ℕ) → Bool
is_spent none = false
is_spent (some xs) = leb max_retrievals_per_window (length xs)

abbrev pub push : Option (List ℕ) → ℕ → Option (List ℕ)
push none now = some (now ∷ [])
push (some xs) now = some (xs ++ now ∷ [])

abbrev pub set_window : Retrievals → ℕ → Option (List ℕ) → Retrievals
set_window r c o d = if c == d then o else r d

-- The windows after an attempt, and whether it is refused.
unfoldable pub spend_retrieval : Retrievals → ℕ → ℕ → Retrievals × Bool
spend_retrieval r now c =
    let attempts = in_window now (r c) in
    if is_spent attempts
    then (set_window r c attempts, true)
    else (set_window r c (push attempts now), false)

pub record Attempt : Type 0 where
  pub now : ℕ
  pub consumer_id : ℕ

-- Which of the attempts are refused.
unfoldable pub refusals : Retrievals → List Attempt → List Bool
refusals r [] = []
refusals r (a ∷ xs) =
    let (r', refused) = spend_retrieval r a.now a.consumer_id in refused ∷ refusals r' xs

-- The clock does not go back.
unfoldable pub is_clock : ℕ → List Attempt → Bool
is_clock last [] = true
is_clock last (a ∷ xs) = if leb last a.now then is_clock a.now xs else false
