-- ===== src/Artifacts/Lineage/Fence.antt =====
-- A lineage of artifacts/index.ts that was fenced stays so.
use browse_gateway.Base.{
  ℕ, ==_iff, is_some, ◌≡◌, refl, sym, subst, ◌∙◌, Bool, true, false, ◌&&◌, not, Option, none, some,
  List, [], ◌∷◌, ◌==◌, if◌then◌else◌, if_cases, arith, ap, ◌⊎◌, inl, inr, Bool-cases,
}
use browse_gateway.Artifacts.Window.{spend_retrieval}
use browse_gateway.Artifacts.Lineage.{
  invalidated, LineageState, Owner, of_consumer, of_drive, Entry, Denial, Ledger, owner_mismatch,
  is_controller, is_invalidated, is_active, activate, establish, create_operation, publish_owner,
  has_token, release_owner, invalidate_controller, is_consumer, owner_denial, lineage_denial,
  authorize, invalid_lineage,
}

-- What happens to the ledger; a close and a poisoning set their flags.
pub data LedgerEvent : Type 0 where
  creates : Owner → LedgerEvent
  publishes : ℕ → Entry → LedgerEvent
  releases : ℕ → ℕ → LedgerEvent
  invalidates : ℕ → ℕ → LedgerEvent
  authorizes : ℕ → ℕ → Option ℕ → Bool → ℕ → LedgerEvent
  poisons : LedgerEvent
  closes : LedgerEvent

unfoldable pub happen : Ledger → LedgerEvent → Ledger
happen l (creates o) = (create_operation l o).0
happen l (publishes id e) = publish_owner l id e
happen l (releases id t) = release_owner l id t
happen l (invalidates c k) = invalidate_controller l c k
happen l (authorizes now c k valid id) = (authorize l now c k valid id).0
happen l poisons = record l { cleanup_poisoned = true }
happen l closes = record l { closed = true }

unfoldable pub happen_all : Ledger → List LedgerEvent → Ledger
happen_all l [] = l
happen_all l (e ∷ es) = happen_all (happen l e) es

module _ (c k : ℕ) where
  abbrev IsFenced : Ledger → Type 0
  IsFenced l = l.controllers c k ≡ some invalidated

  establish-IsFenced : (l : Ledger) (o : Owner) → IsFenced l → IsFenced (establish l o)
  establish-IsFenced l (of_consumer d) f = f
  establish-IsFenced l (of_drive d j) f = known (l.controllers d j) refl
    where
      same : (a b : ℕ) → (a == b) ≡ true → a ≡ b
      same a b = (==_iff a b).0

      both : (d j : ℕ) → (d == c && j == k) ≡ true → ((d == c) ≡ true) × ((j == k) ≡ true)
      both d j h = (ground (arith, h), ground (arith, h))

      known : (o : Option LineageState) → l.controllers d j ≡ o → IsFenced (activate l d j o)
      known (some st) e = f
      known none e =
          if_cases (λ v. v ≡ some invalidated) (d == c && j == k) _ _
            (λ here. absurd (cc (e, f, same d c (both d j here).0, same j k (both d j here).1)))
            (λ other. f)

  create_operation-IsFenced :
      (l : Ledger) (o : Owner) → IsFenced l → IsFenced (create_operation l o).0
  unfolding create_operation
  create_operation-IsFenced l o f =
      if_cases P l.closed _ _ (λ over. f)
        λ open_.
          if_cases P l.cleanup_poisoned _ _ (λ poisoned. f)
            λ clean.
              if_cases P (invalid_lineage l o) _ _ (λ fenced. f) (λ free. establish-IsFenced l o f)
    where
      P : Ledger × Option Denial → Type 0
      P a = IsFenced a.0

  authorize-IsFenced :
      (l : Ledger) (now d : ℕ) (j : Option ℕ) (valid : Bool) (id : ℕ)
      → IsFenced l
      → IsFenced (authorize l now d j valid id).0
  unfolding authorize
  authorize-IsFenced l now d j valid id f =
      if_cases P (spend_retrieval l.retrievals now d).1 _ _ (λ spent. f)
        (λ left. if_cases P (not valid) _ _ (λ malformed. f) (λ formed. f))
    where
      P : Ledger × Option Denial → Type 0
      P a = IsFenced a.0

  happen-IsFenced : (l : Ledger) (e : LedgerEvent) → IsFenced l → IsFenced (happen l e)
  unfolding happen publish_owner release_owner invalidate_controller
  happen-IsFenced l (creates o) f = create_operation-IsFenced l o f
  happen-IsFenced l (publishes id e) f = f
  happen-IsFenced l (releases id t) f =
      if_cases IsFenced (has_token t (l.owners id)) _ _ (λ its. f) (λ other. f)
  happen-IsFenced l (invalidates d j) f =
      if_cases (λ v. v ≡ some invalidated) (d == c && j == k) _ _ (λ here. refl) (λ other. f)
  happen-IsFenced l (authorizes now d j valid id) f = authorize-IsFenced l now d j valid id f
  happen-IsFenced l poisons f = f
  happen-IsFenced l closes f = f

  happen_all-IsFenced :
      (l : Ledger) (es : List LedgerEvent) → IsFenced l → IsFenced (happen_all l es)
  unfolding happen_all
  happen_all-IsFenced l [] f = f
  happen_all-IsFenced l (e ∷ es) f = happen_all-IsFenced (happen l e) es (happen-IsFenced l e f)

  fenced_denial :
      (l : Ledger) (d : ℕ) (j : Option ℕ) (o : Option Entry) (e : Entry)
      → IsFenced l
      → o ≡ some e
      → e.owner ≡ of_drive c k
      → is_some (owner_denial l d j o) ≡ true
  fenced_denial l d j o e f found theirs =
      subst (λ x. is_some (owner_denial l d j x) ≡ true) (sym found)
        (subst
          (λ w.
            is_some (if not (is_consumer d w) then some owner_mismatch else lineage_denial l d j w)
            ≡ true)
          (sym theirs)
          (if_cases P (not (is_consumer d (of_drive c k))) _ _ (λ foreign. refl)
            λ own.
              if_cases P (not (is_controller k j)) _ _ (λ other. refl)
                λ its.
                  if_cases P (not (is_active (l.controllers d k))) _ _ (λ gone. refl)
                    (λ live. absurd (not_live (owned own) live))))
    where
      P : Option Denial → Type 0
      P o = is_some o ≡ true

      owned : not (c == d) ≡ false → c ≡ d
      owned own = (==_iff c d).0 (ground (arith, own))

      not_live : c ≡ d → not (is_active (l.controllers d k)) ≡ false → ⊥
      not_live here live = cc (live, subst (λ i. l.controllers i k ≡ some invalidated) here f)

  refused_creation :
      (l : Ledger) → IsFenced l → is_some (create_operation l (of_drive c k)).1 ≡ true
  unfolding create_operation
  refused_creation l f =
      if_cases P l.closed _ _ (λ over. refl)
        λ open_.
          if_cases P l.cleanup_poisoned _ _ (λ poisoned. refl)
            λ clean.
              if_cases P (is_invalidated (l.controllers c k)) _ _ (λ fenced. refl)
                (λ free. absurd (not_free free))
    where
      P : Ledger × Option Denial → Type 0
      P a = is_some a.1 ≡ true

      not_free : is_invalidated (l.controllers c k) ≡ false → ⊥
      not_free free = cc (free, ap is_invalidated f)

  invalidate_controller-IsFenced : (l : Ledger) → IsFenced (invalidate_controller l c k)
  unfolding invalidate_controller
  invalidate_controller-IsFenced l = ground arith

  refused_retrieval :
      (l : Ledger) (now d : ℕ) (j : Option ℕ) (valid : Bool) (id : ℕ) (e : Entry)
      → IsFenced l
      → l.owners id ≡ some e
      → e.owner ≡ of_drive c k
      → is_some (authorize l now d j valid id).1 ≡ true
  unfolding authorize
  refused_retrieval l now d j valid id e f found theirs =
      let l' = record l { retrievals = (spend_retrieval l.retrievals now d).0 } in
      if_cases P (spend_retrieval l.retrievals now d).1 _ _ (λ spent. refl)
        λ left.
          if_cases P (not valid) _ _ (λ malformed. refl)
            (λ formed. fenced_denial l' d j (l.owners id) e f found theirs)
    where
      P : Ledger × Option Denial → Type 0
      P a = is_some a.1 ≡ true

-- The artifact of the entry is one of the lineage.
abbrev pub IsOfLineage : ℕ → ℕ → Option Entry → Type 0
IsOfLineage c k o = (e : Entry) × (o ≡ some e) × (e.owner ≡ of_drive c k)

of_lineage : (c k : ℕ) (o : Option Entry) → IsOfLineage c k o ⊎ ¬ (IsOfLineage c k o)
of_lineage c k none = inr (λ (e, found, theirs). cc found)
of_lineage c k (some e) = same_owner e.owner refl
  where
    other : {o : Owner} → e.owner ≡ o → ¬ (o ≡ of_drive c k) → ¬ (IsOfLineage c k (some e))
    other {o} is n (e', found, theirs) = n (cc (is, found, theirs))

    both : {d j : ℕ} → (d == c && j == k) ≡ true → of_drive d j ≡ of_drive c k
    both {d} {j} h =
        let h' : d ≡ c = ground (arith, h) in let h'' : j ≡ k = ground (arith, h) in cc (h', h'')

    same_owner : (o : Owner) → e.owner ≡ o → IsOfLineage c k (some e) ⊎ ¬ (IsOfLineage c k (some e))
    same_owner (of_consumer d) is = inr (other is (λ h. cc h))
    same_owner (of_drive d j) is = elim (Bool-cases (d == c && j == k)) [
      | inl same ↦ inl (e, refl, is ∙ both same)
      | inr differ ↦ inr (other is (λ h. ground (arith, h, differ)))
    ]

-- From the call of `invalidateController` for a lineage on, whatever happens to the ledger: no
-- operation of the lineage is created, whether or not it owns an artifact; and no retrieval of an
-- artifact that the lineage owns then is authorized, whoever asks for it and with whatever controller.
pub invalidate_controller-fences :
    (l : Ledger) (c k : ℕ) (es : List LedgerEvent) (now d : ℕ) (j : Option ℕ) (valid : Bool)
    (id : ℕ)
    → (is_some (create_operation (happen_all (invalidate_controller l c k) es) (of_drive c k)).1
        ≡ true)
      × ((is_some (authorize (happen_all (invalidate_controller l c k) es) now d j valid id).1
            ≡ true)
          ⊎ ¬ (IsOfLineage c k ((happen_all (invalidate_controller l c k) es).owners id)))
invalidate_controller-fences l c k es now d j valid id =
    let l' = happen_all (invalidate_controller l c k) es in
    let f =
      happen_all-IsFenced c k (invalidate_controller l c k) es
        (invalidate_controller-IsFenced c k l) in
    (
      refused_creation c k l' f,
      elim (of_lineage c k (l'.owners id)) [
        | inl (e, found, theirs) ↦ inl (refused_retrieval c k l' now d j valid id e f found theirs)
        | inr other ↦ inr other
      ],
    )
