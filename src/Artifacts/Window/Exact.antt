-- ===== src/Artifacts/Window/Exact.antt =====
-- The budget of retrievals of artifacts/index.ts against a log of all that it admitted.
use browse_gateway.Base.{
  ℕ, ◌+◌, ◌≤◌, ◌≡◌, refl, sym, ap, ◌∙◌, Bool, true, false, not, ◌&&◌, Option, none, some, List, [],
  ◌∷◌, ◌++◌, leb, ◌==◌, ==_iff, if◌then◌else◌, length, arith, Bool-cases, inl, inr, subst,
}
use browse_gateway.Artifacts.Window.{
  max_retrievals_per_window, Retrievals, is_past, shift_past, unless_empty, in_window, is_spent,
  push, set_window, spend_retrieval, Attempt, refusals, is_clock,
}

-- How many of the admitted attempts of the consumer are in the window.
unfoldable pub recent : ℕ → ℕ → List Attempt → ℕ
recent now c [] = 0
recent now c (a ∷ log) =
    (if a.consumer_id == c && not (is_past now a.now) then 1 else 0) + recent now c log

-- The refusals when every attempt that is admitted is kept for good, and counted anew each time.
unfoldable pub log_refusals : List Attempt → List Attempt → List Bool
log_refusals log [] = []
log_refusals log (a ∷ xs) =
    if leb max_retrievals_per_window (recent a.now a.consumer_id log)
    then true ∷ log_refusals log xs
    else false ∷ log_refusals (log ++ a ∷ []) xs

recent-snoc :
    (now c : ℕ) (log : List Attempt) (a : Attempt)
    → recent now c (log ++ a ∷ [])
      ≡ recent now c log + (if a.consumer_id == c && not (is_past now a.now) then 1 else 0)
unfolding recent
recent-snoc now c [] a = omega arith
recent-snoc now c (x ∷ log) a = ground (arith, recent-snoc now c log a)

abbrev instants : Option (List ℕ) → List ℕ
instants none = []
instants (some xs) = xs

alive : ℕ → List ℕ → ℕ
alive now [] = 0
alive now (a ∷ xs) = (if is_past now a then 0 else 1) + alive now xs

alive-snoc :
    (now a : ℕ) (xs : List ℕ)
    → alive now (xs ++ a ∷ []) ≡ alive now xs + (if is_past now a then 0 else 1)
unfolding alive
alive-snoc now a [] = omega arith
alive-snoc now a (x ∷ xs) = ground (arith, alive-snoc now a xs)

-- The instants go up, from the first bound to the last.
goes_up : ℕ → ℕ → List ℕ → Bool
goes_up lo hi [] = leb lo hi
goes_up lo hi (a ∷ xs) = leb lo a && goes_up a hi xs

goes_up-wider :
    (lo lo' hi hi' : ℕ) (xs : List ℕ)
    → lo' ≤ lo
    → hi ≤ hi'
    → goes_up lo hi xs ≡ true
    → goes_up lo' hi' xs ≡ true
unfolding goes_up
goes_up-wider lo lo' hi hi' [] l h u = ground arith
goes_up-wider lo lo' hi hi' (a ∷ xs) l h u =
    ground (arith, goes_up-wider a a hi hi' xs (omega arith) h)

goes_up-snoc :
    (lo hi now : ℕ) (xs : List ℕ)
    → hi ≤ now
    → goes_up lo hi xs ≡ true
    → goes_up lo now (xs ++ now ∷ []) ≡ true
unfolding goes_up
goes_up-snoc lo hi now [] h u = ground arith
goes_up-snoc lo hi now (a ∷ xs) h u = ground (arith, goes_up-snoc a hi now xs h)

goes_up-shift :
    (now hi : ℕ) (xs : List ℕ) → goes_up 0 hi xs ≡ true → goes_up 0 hi (shift_past now xs) ≡ true
unfolding goes_up shift_past
goes_up-shift now hi [] u = u
goes_up-shift now hi (a ∷ xs) u =
    ground (arith, goes_up-shift now hi xs, goes_up-wider a 0 hi hi xs (omega arith) (omega arith))

-- After one instant that is in the window all are.
alive-length :
    (now lo hi : ℕ) (xs : List ℕ)
    → is_past now lo ≡ false
    → goes_up lo hi xs ≡ true
    → alive now xs ≡ length xs
unfolding alive goes_up
alive-length now lo hi [] p u = refl
alive-length now lo hi (a ∷ xs) p u = ground (arith, alive-length now a hi xs)

shift-length :
    (now hi : ℕ) (xs : List ℕ) → goes_up 0 hi xs ≡ true → length (shift_past now xs) ≡ alive now xs
unfolding alive goes_up shift_past
shift-length now hi [] u = refl
shift-length now hi (a ∷ xs) u = ground (
  arith,
  shift-length now hi xs,
  goes_up-wider a 0 hi hi xs (omega arith) (omega arith),
  alive-length now a hi xs,
)

-- What leaves the window stays out of it.
alive-shift :
    (now later : ℕ) (xs : List ℕ) → now ≤ later → alive later (shift_past now xs) ≡ alive later xs
unfolding alive shift_past
alive-shift now later [] h = refl
alive-shift now later (a ∷ xs) h = ground (arith, alive-shift now later xs h)

instants-in_window :
    (now : ℕ) (o : Option (List ℕ)) → instants (in_window now o) ≡ shift_past now (instants o)
unfolding shift_past
instants-in_window now none = refl
instants-in_window now (some xs) = kept_all (shift_past now xs)
  where
    kept_all : (ys : List ℕ) → instants (unless_empty ys) ≡ ys
    kept_all [] = refl
    kept_all (y ∷ ys) = refl

instants-push : (o : Option (List ℕ)) (now : ℕ) → instants (push o now) ≡ instants o ++ now ∷ []
instants-push none now = refl
instants-push (some xs) now = refl

is_spent-length :
    (o : Option (List ℕ)) → is_spent o ≡ leb max_retrievals_per_window (length (instants o))
is_spent-length none = ground arith
is_spent-length (some xs) = refl

-- The windows of the consumers are what the log has of the last minute, now and later.
record Tracks (last : ℕ) (r : Retrievals) (log : List Attempt) : Type 0 where
  up : (c : ℕ) → goes_up 0 last (instants (r c)) ≡ true
  same : (c now : ℕ) → last ≤ now → alive now (instants (r c)) ≡ recent now c log

set_window-other :
    (r : Retrievals) (c : ℕ) (o : Option (List ℕ)) (d : ℕ)
    → (c == d) ≡ false
    → set_window r c o d ≡ r d
set_window-other r c o d e = ground (arith, e)

set_window-same :
    (f : Option (List ℕ) → Option (List ℕ)) (r : Retrievals) (c d : ℕ)
    → (c == d) ≡ true
    → set_window r c (f (r c)) d ≡ f (r d)
set_window-same f r c d e =
    subst (λ k. set_window r c (f (r c)) k ≡ f (r k)) ((==_iff c d).0 e) (ground arith)

module _ (last now : ℕ) (r : Retrievals) (log : List Attempt) (t : Tracks last r log)
    (h : last ≤ now) where
  spent :
      (c : ℕ) → is_spent (in_window now (r c)) ≡ leb max_retrievals_per_window (recent now c log)
  spent c =
      is_spent-length (in_window now (r c))
      ∙ ap (λ xs. leb max_retrievals_per_window (length xs)) (instants-in_window now (r c))
      ∙ ap (leb max_retrievals_per_window)
          (shift-length now last (instants (r c)) (t.up c) ∙ t.same c now h)

  later_up : (c : ℕ) → goes_up 0 now (instants (r c)) ≡ true
  later_up c = goes_up-wider 0 0 last now (instants (r c)) (omega arith) h (t.up c)

  shifted_up : (c : ℕ) → goes_up 0 now (instants (in_window now (r c))) ≡ true
  shifted_up c =
      subst (λ xs. goes_up 0 now xs ≡ true) (sym (instants-in_window now (r c)))
        (goes_up-shift now now (instants (r c)) (later_up c))

  shifted_same :
      (c later : ℕ)
      → now ≤ later
      → alive later (instants (in_window now (r c))) ≡ recent later c log
  shifted_same c later l =
      ap (alive later) (instants-in_window now (r c))
      ∙ alive-shift now later (instants (r c)) l
      ∙ t.same c later (omega (arith, h, l))

  refused-Tracks : (c : ℕ) → Tracks now (set_window r c (in_window now (r c))) log
  refused-Tracks c = record {
    up = λ d. elim (Bool-cases (c == d)) [
      | inl same ↦
          subst (λ o. goes_up 0 now (instants o) ≡ true)
            (sym (set_window-same (in_window now) r c d same)) (shifted_up d)
      | inr other ↦
          subst (λ o. goes_up 0 now (instants o) ≡ true)
            (sym (set_window-other r c (in_window now (r c)) d other)) (later_up d)
    ];
    same = λ d later l. elim (Bool-cases (c == d)) [
      | inl same ↦
          subst (λ o. alive later (instants o) ≡ recent later d log)
            (sym (set_window-same (in_window now) r c d same)) (shifted_same d later l)
      | inr other ↦
          subst (λ o. alive later (instants o) ≡ recent later d log)
            (sym (set_window-other r c (in_window now (r c)) d other))
            (t.same d later (omega (arith, h, l)))
    ];
  }

  abbrev pushed : Option (List ℕ) → Option (List ℕ)
  pushed o = push (in_window now o) now

  admitted-Tracks :
      (a : Attempt)
      → a.now ≡ now
      → Tracks now (set_window r a.consumer_id (pushed (r a.consumer_id))) (log ++ a ∷ [])
  admitted-Tracks a e = record {
    up = λ d. elim (Bool-cases (a.consumer_id == d)) [
      | inl same ↦
          subst (λ o. goes_up 0 now (instants o) ≡ true)
            (sym (set_window-same pushed r a.consumer_id d same))
            (subst (λ xs. goes_up 0 now xs ≡ true) (sym (instants-push (in_window now (r d)) now))
              (goes_up-snoc 0 now now (instants (in_window now (r d))) (omega arith)
                (shifted_up d)))
      | inr other ↦
          subst (λ o. goes_up 0 now (instants o) ≡ true)
            (sym (set_window-other r a.consumer_id (pushed (r a.consumer_id)) d other)) (later_up d)
    ];
    same = λ d later l. elim (Bool-cases (a.consumer_id == d)) [
      | inl same ↦
          subst (λ o. alive later (instants o) ≡ recent later d (log ++ a ∷ []))
            (sym (set_window-same pushed r a.consumer_id d same))
            (ap (alive later) (instants-push (in_window now (r d)) now)
              ∙ alive-snoc later now (instants (in_window now (r d)))
              ∙ ap (λ n. n + (if is_past later now then 0 else 1)) (shifted_same d later l)
              ∙ one_more d later same
              ∙ sym (recent-snoc later d log a))
      | inr other ↦
          subst (λ o. alive later (instants o) ≡ recent later d (log ++ a ∷ []))
            (sym (set_window-other r a.consumer_id (pushed (r a.consumer_id)) d other))
            (t.same d later (omega (arith, h, l))
              ∙ none_more d later other
              ∙ sym (recent-snoc later d log a))
    ];
  }
    where
      one_more :
          (d later : ℕ)
          → (a.consumer_id == d) ≡ true
          → recent later d log + (if is_past later now then 0 else 1)
            ≡ recent later d log
              + (if a.consumer_id == d && not (is_past later a.now) then 1 else 0)
      one_more d later e' = ground (arith, e, e')

      none_more :
          (d later : ℕ)
          → (a.consumer_id == d) ≡ false
          → recent later d log
            ≡ recent later d log
              + (if a.consumer_id == d && not (is_past later a.now) then 1 else 0)
      none_more d later e' = ground (arith, e')

-- One attempt and the log: the two refuse it alike.
module _ (last : ℕ) (r : Retrievals) (log xs : List Attempt) (a : Attempt)
    (clock : is_clock last (a ∷ xs) ≡ true) (t : Tracks last r log) where
  on_time : last ≤ a.now
  unfolding is_clock
  on_time = ground (arith, clock)

  goes_on : is_clock a.now xs ≡ true
  unfolding is_clock
  goes_on = ground (arith, clock)

  log_spent :
      is_spent (in_window a.now (r a.consumer_id))
      ≡ leb max_retrievals_per_window (recent a.now a.consumer_id log)
  log_spent = spent last a.now r log t on_time a.consumer_id

  abbrev refused_to : Retrievals
  refused_to = set_window r a.consumer_id (in_window a.now (r a.consumer_id))

  abbrev admitted_to : Retrievals
  admitted_to = set_window r a.consumer_id (push (in_window a.now (r a.consumer_id)) a.now)

  refuses :
      is_spent (in_window a.now (r a.consumer_id)) ≡ true
      → refusals refused_to xs ≡ log_refusals log xs
      → refusals r (a ∷ xs) ≡ log_refusals log (a ∷ xs)
  unfolding refusals log_refusals spend_retrieval
  refuses full rest =
      subst
        (λ b.
          (let z : Retrievals × Bool = if b then (refused_to, true) else (admitted_to, false) in
            z.1 ∷ refusals z.0 xs)
          ≡ log_refusals log (a ∷ xs))
        (sym full)
        (subst
          (λ b.
            true ∷ refusals refused_to xs
            ≡ (if b then true ∷ log_refusals log xs else false ∷ log_refusals (log ++ a ∷ []) xs))
          (sym full ∙ log_spent) (ap (λ ys. true ∷ ys) rest))

  admits :
      is_spent (in_window a.now (r a.consumer_id)) ≡ false
      → refusals admitted_to xs ≡ log_refusals (log ++ a ∷ []) xs
      → refusals r (a ∷ xs) ≡ log_refusals log (a ∷ xs)
  unfolding refusals log_refusals spend_retrieval
  admits room rest =
      subst
        (λ b.
          (let z : Retrievals × Bool = if b then (refused_to, true) else (admitted_to, false) in
            z.1 ∷ refusals z.0 xs)
          ≡ log_refusals log (a ∷ xs))
        (sym room)
        (subst
          (λ b.
            false ∷ refusals admitted_to xs
            ≡ (if b then true ∷ log_refusals log xs else false ∷ log_refusals (log ++ a ∷ []) xs))
          (sym room ∙ log_spent) (ap (λ ys. false ∷ ys) rest))

simulates :
    (last : ℕ) (r : Retrievals) (log xs : List Attempt)
    → is_clock last xs ≡ true
    → Tracks last r log
    → refusals r xs ≡ log_refusals log xs
simulates last r log [] clock t = unfold refusals log_refusals in refl
simulates last r log (a ∷ xs) clock t =
    elim (Bool-cases (is_spent (in_window a.now (r a.consumer_id)))) [
      | inl full ↦ refuses last r log xs a clock t full (
          simulates a.now (set_window r a.consumer_id (in_window a.now (r a.consumer_id))) log xs
            (goes_on last r log xs a clock t)
            (refused-Tracks last a.now r log t (on_time last r log xs a clock t) a.consumer_id))
      | inr room ↦ admits last r log xs a clock t room (
          simulates a.now
            (set_window r a.consumer_id (push (in_window a.now (r a.consumer_id)) a.now))
            (log ++ a ∷ []) xs (goes_on last r log xs a clock t)
            (admitted-Tracks last a.now r log t (on_time last r log xs a clock t) a refl))
    ]

new_retrievals-Tracks : Tracks 0 (λ c. none) []
unfolding goes_up alive recent
new_retrievals-Tracks = record { up = λ c. refl; same = λ c now h. refl }

-- While the clock does not go back, the rolling windows of the consumers, which forget what is past
-- and never hold a refused attempt, refuse exactly the attempts that a full log refuses: those of a
-- consumer of which thirty attempts were admitted in the minute before.
pub refusals-log :
    (xs : List Attempt) → is_clock 0 xs ≡ true → refusals (λ c. none) xs ≡ log_refusals [] xs
refusals-log xs clock = simulates 0 (λ c. none) [] xs clock new_retrievals-Tracks
