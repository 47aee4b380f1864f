-- ===== src/Gateway/Session/Activity.antt =====
-- The in-flight count of a session and when its teardown may be believed.
use browse_gateway.Base.{
  ℕ, zero, suc, ◌+◌, ◌-◌, ◌<◌, ◌≤◌, ◌≡◌, refl, sym, ap, ◌∙◌, ◌⊎◌, inl, inr, Bool, true, Option,
  none, some, List, [], ◌∷◌, ◌++◌, arith, leb, ◌==◌, ==_iff, Bool-cases, if◌then◌else◌,
}
use browse_gateway.Gateway.Session.{Session, new_session, touch, begin_activity, end_activity}

pub data Verb : Type 0 where
  begins ends touches : ℕ → Verb

abbrev pub perform : Session → Verb → Session
perform s (begins now) = begin_activity s now
perform s (ends now) = end_activity s now
perform s (touches now) = touch s now

abbrev pub perform_all : Session → List Verb → Session
perform_all s [] = s
perform_all s (v ∷ vs) = perform_all (perform s v) vs

-- The begins and the ends among the events.
abbrev pub begun : List Verb → ℕ
begun [] = 0
begun (begins now ∷ vs) = suc (begun vs)
begun (ends now ∷ vs) = begun vs
begun (touches now ∷ vs) = begun vs

abbrev pub ended : List Verb → ℕ
ended [] = 0
ended (begins now ∷ vs) = ended vs
ended (ends now ∷ vs) = suc (ended vs)
ended (touches now ∷ vs) = ended vs

abbrev pub larger : ℕ → ℕ → ℕ
larger a b = if leb a b then b else a

-- The most by which the begins exceed the ends on a final stretch of the events.
abbrev pub surplus : List Verb → ℕ
surplus [] = 0
surplus (v ∷ vs) = larger (begun (v ∷ vs) - ended (v ∷ vs)) (surplus vs)

abbrev pub take : ℕ → List Verb → List Verb
take zero vs = []
take (suc i) [] = []
take (suc i) (v ∷ vs) = v ∷ take i vs

-- From `n` verbs in flight, on every initial stretch of the events some verb is in flight.
abbrev pub IsBusy : ℕ → List Verb → Type 0
IsBusy n vs = (i : ℕ) → ended (take i vs) < n + begun (take i vs)

-- The burst of a history that is under way began at the instant: the verb that began then found none
-- in flight, and since then there always was one.
pub record BurstFrom (vs : List Verb) (now : ℕ) : Type 0 where
  pub before : List Verb
  pub after : List Verb
  pub splits : vs ≡ before ++ begins now ∷ after
  pub found_none : surplus before ≡ 0
  pub is_busy : IsBusy 1 after

surplus-ge : (vs : List Verb) → begun vs ≤ ended vs + surplus vs
surplus-ge [] = omega arith
surplus-ge (v ∷ vs) = ground arith

-- The count after the events from one of `n`.
abbrev count_after : ℕ → List Verb → ℕ
count_after n vs = larger (n + begun vs - ended vs) (surplus vs)

count_begins :
    (n now : ℕ) (vs : List Verb) → count_after n (begins now ∷ vs) ≡ count_after (n + 1) vs
count_begins n now vs = ground (arith, surplus-ge vs)

count_ends : (n now : ℕ) (vs : List Verb) → count_after n (ends now ∷ vs) ≡ count_after (n - 1) vs
count_ends n now vs = ground (arith, surplus-ge vs)

count_touches : (n now : ℕ) (vs : List Verb) → count_after n (touches now ∷ vs) ≡ count_after n vs
count_touches n now vs = ground (arith, surplus-ge vs)

-- What is known after the events from `n` verbs in flight and a burst that began at `since`: none is
-- in flight, or the burst goes on, or another began and goes on.
abbrev Bursts : ℕ → Option ℕ → List Verb → Session → Type 0
Bursts n since vs s =
    ((s.in_flight ≡ 0) × (s.in_flight_since ≡ none))
    ⊎ (IsBusy n vs × (s.in_flight_since ≡ since))
    ⊎ ((now : ℕ) × (before after : List Verb) × (vs ≡ before ++ begins now ∷ after)
        × (count_after n before ≡ 0)
        × IsBusy 1 after
        × (s.in_flight_since ≡ some now))

counts : (s : Session) (vs : List Verb) → (perform_all s vs).in_flight ≡ count_after s.in_flight vs
counts s [] = ground arith
counts s (begins now ∷ vs) =
    counts (perform s (begins now)) vs
    ∙ unfold begin_activity in sym (count_begins s.in_flight now vs)
counts s (ends now ∷ vs) =
    counts (perform s (ends now)) vs ∙ unfold end_activity in sym (count_ends s.in_flight now vs)
counts s (touches now ∷ vs) =
    counts (perform s (touches now)) vs ∙ unfold touch in sym (count_touches s.in_flight now vs)

later_burst :
    (n n' : ℕ) (since : Option ℕ) (v : Verb) (vs : List Verb) (s : Session)
    → ((before : List Verb) → count_after n (v ∷ before) ≡ count_after n' before)
    → ((now : ℕ) × (before after : List Verb) × (vs ≡ before ++ begins now ∷ after)
        × (count_after n' before ≡ 0)
        × IsBusy 1 after
        × (s.in_flight_since ≡ some now))
    → Bursts n since (v ∷ vs) s
later_burst n n' since v vs s step (now, before, after, splits, found, busy, e) =
    inr (inr (now, v ∷ before, after, ap (λ ws. v ∷ ws) splits, step before ∙ found, busy, e))

IsBusy-begins :
    (n now : ℕ) (vs : List Verb) → 0 < n → IsBusy (n + 1) vs → IsBusy n (begins now ∷ vs)
IsBusy-begins n now vs some_busy b zero = omega (arith, some_busy)
IsBusy-begins n now vs some_busy b (suc i) = omega (arith, b i)

IsBusy-ends : (n now : ℕ) (vs : List Verb) → IsBusy (n - 1) vs → IsBusy n (ends now ∷ vs)
IsBusy-ends n now vs b zero = omega (arith, b zero)
IsBusy-ends n now vs b (suc i) = omega (arith, b zero, b i)

IsBusy-touches : (n now : ℕ) (vs : List Verb) → IsBusy n vs → IsBusy n (touches now ∷ vs)
IsBusy-touches n now vs b zero = omega (arith, b zero)
IsBusy-touches n now vs b (suc i) = b i

begins_burst :
    (n now : ℕ) (since : Option ℕ) (vs : List Verb) (t : Session)
    → IsBusy (n + 1) vs
    → t.in_flight_since ≡ (if n == 0 then some now else since)
    → Bursts n since (begins now ∷ vs) t
begins_burst n now since vs t b e = elim (Bool-cases (n == 0)) [
  | inl idle ↦
      inr (inr (now, [], vs, refl, ground (arith, idle), alone idle, ground (arith, e, idle)))
  | inr busy ↦ inr (inl (IsBusy-begins n now vs (ground (arith, busy)) b, ground (arith, e, busy)))
]
  where
    alone : (n == 0) ≡ true → IsBusy 1 vs
    alone idle i = omega (arith, b i, (==_iff n 0).0 idle)

ends_burst :
    (n now : ℕ) (since : Option ℕ) (vs : List Verb) (t : Session)
    → IsBusy (n - 1) vs
    → t.in_flight_since ≡ (if n - 1 == 0 then none else since)
    → Bursts n since (ends now ∷ vs) t
ends_burst n now since vs t b e = inr (inl (IsBusy-ends n now vs b, ground (arith, e, b zero)))

bursts :
    (s : Session) (vs : List Verb)
    → ((s.in_flight ≡ 0) → s.in_flight_since ≡ none)
    → Bursts s.in_flight s.in_flight_since vs (perform_all s vs)
bursts s [] h = elim (Bool-cases (s.in_flight == 0)) [
  | inl idle ↦ inl ((==_iff s.in_flight 0).0 idle, h ((==_iff s.in_flight 0).0 idle))
  | inr busy ↦ inr (inl (λ i. unfold_take i (ground (arith, busy)), refl))
]
  where
    unfold_take : (i : ℕ) → 0 < s.in_flight → ended (take i []) < s.in_flight + begun (take i [])
    unfold_take zero b = omega (arith, b)
    unfold_take (suc i) b = omega (arith, b)
bursts s (begins now ∷ vs) h =
    elim (bursts (perform s (begins now)) vs
      (unfold begin_activity in (λ e. absurd (ground (arith, e))))) [
        | inl idle ↦ inl idle
        | inr r ↦ elim r [
          | inl b ↦
              begins_burst s.in_flight now s.in_flight_since vs
                (perform_all (perform s (begins now)) vs) (unfold begin_activity in b.0)
                (unfold begin_activity in b.1)
          | inr b ↦
              later_burst s.in_flight (s.in_flight + 1) s.in_flight_since (begins now) vs
                (perform_all (perform s (begins now)) vs) (count_begins s.in_flight now)
                (unfold begin_activity in b)
        ]
      ]
bursts s (ends now ∷ vs) h =
    elim (bursts (perform s (ends now)) vs (unfold end_activity in (λ e. ground (arith, e)))) [
      | inl idle ↦ inl idle
      | inr r ↦ elim r [
        | inl b ↦
            ends_burst s.in_flight now s.in_flight_since vs (perform_all (perform s (ends now)) vs)
              (unfold end_activity in b.0) (unfold end_activity in b.1)
        | inr b ↦
            later_burst s.in_flight (s.in_flight - 1) s.in_flight_since (ends now) vs
              (perform_all (perform s (ends now)) vs) (count_ends s.in_flight now)
              (unfold end_activity in b)
      ]
    ]
bursts s (touches now ∷ vs) h = elim (bursts (perform s (touches now)) vs (unfold touch in h)) [
  | inl idle ↦ inl idle
  | inr r ↦ elim r [
    | inl b ↦
        inr (inl (IsBusy-touches s.in_flight now vs (unfold touch in b.0), unfold touch in b.1))
    | inr b ↦
        later_burst s.in_flight s.in_flight s.in_flight_since (touches now) vs
          (perform_all (perform s (touches now)) vs) (count_touches s.in_flight now)
          (unfold touch in b)
  ]
]

-- After any events on a new session the in-flight count is the most by which the begins exceed the ends
-- on a final stretch of them. Either it is 0 and no burst has a start; or a burst is under way, and its
-- start is the instant of the begin that found none in flight and since which there always was one.
pub in_flight-perform_all :
    (id : ℕ) (consumer_id : Option ℕ) (kill : Bool) (now : ℕ) (vs : List Verb)
    → ((perform_all (new_session id consumer_id kill now) vs).in_flight ≡ surplus vs)
      × (((surplus vs ≡ 0)
            × ((perform_all (new_session id consumer_id kill now) vs).in_flight_since ≡ none))
          ⊎ ((start : ℕ) × BurstFrom vs start
              × ((perform_all (new_session id consumer_id kill now) vs).in_flight_since
                  ≡ some start)))
in_flight-perform_all id consumer_id kill now vs =
    let s = new_session id consumer_id kill now in
    let count : (perform_all s vs).in_flight ≡ surplus vs =
      counts s vs ∙ unfold new_session in from_none vs in
    (
      count,
      elim (bursts s vs (unfold new_session in (λ e. refl))) [
        | inl idle ↦ inl (sym count ∙ idle.0, idle.1)
        | inr r ↦ elim r [
          | inl busy ↦ absurd (unfold new_session in (omega (arith, busy.0 zero)))
          | inr (start, before, after, splits, found, busy, e) ↦ inr (
            start,
            record {
              before = before;
              after = after;
              splits = splits;
              found_none = sym (from_none before) ∙ (unfold new_session in found);
              is_busy = busy;
            },
            e,
          )
        ]
      ],
    )
  where
    from_none : (ws : List Verb) → count_after 0 ws ≡ surplus ws
    from_none ws = ground (arith, surplus-ge ws)
