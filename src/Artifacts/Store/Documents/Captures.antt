-- ===== src/Artifacts/Store/Documents/Captures.antt =====
-- The records of the artifact store through the captures of artifacts/store.ts.
use browse_gateway.Base.{
  ℕ, ◌+◌, ◌-◌, ◌≤◌, ◌≡◌, ◌⊎◌, inl, inr, refl, Bool, true, false, ◌&&◌, ◌||◌, not, Option, none,
  some, List, [], ◌∷◌, ◌++◌, ltb, ◌==◌, if_cases, arith, or_else,
}
use browse_gateway.Base.Ids.{mem}
use browse_gateway.Artifacts.Capacity
use browse_gateway.Artifacts.Capacity.{Handle, max_artifact_bytes}
use browse_gateway.Artifacts.Store.{
  Store, StoredRecord, shut, has_record, mark_unhealthy, identity_proven, strict_delete,
}
use browse_gateway.Artifacts.Store.Discard.{Disk, reap_expired}
use browse_gateway.Artifacts.Store.Close.{CloseDisk}
use browse_gateway.Artifacts.Store.Capture.{
  ArtifactFailure, runtime_invalidated, size_limit, not_pdf, integrity_failed, lifecycle_race,
  artifact_cleanup_failed, write_failed, Source, Pending, pending_of, Captured, capture_failed,
  published, waits, CaptureStep, leave, fail, caught, stage_copy, read_source, entered, capture,
  after_part_fsync, record_for, commit, after_link,
}
use browse_gateway.Artifacts.Store.Documents.{IsOf, AllAre, HasOnly}
use browse_gateway.Artifacts.Store.Documents.Discards.{
  mark_unhealthy-Only, identity_proven-Only, reap_expired-Only, finish_close-Only,
}

-- What the source must be for its copy to wait: a regular file of five bytes at least and of no more than
-- the limit, which was read to its end without changing its size, and which starts as a PDF does.
pub record IsDocument (f : Source) : Type 0 where
  pub opens : f.opens ≡ true
  pub is_file : f.is_file ≡ true
  pub not_large : f.size ≤ max_artifact_bytes
  pub not_small : 5 ≤ f.size
  pub reads : f.reads ≡ true
  pub same_size : f.end_size ≡ f.size
  pub has_magic : f.has_magic ≡ true

append-AllAre :
    (R : StoredRecord → Type 0) (rs : List StoredRecord) (r : StoredRecord)
    → AllAre R rs
    → R r
    → AllAre R (rs ++ r ∷ [])
append-AllAre R [] r a x = (x, tt)
append-AllAre R (s ∷ rs) r a x = (a.0, append-AllAre R rs r a.1 x)

module _ (P : Pending → Type 0) (ttl_ms : ℕ) where
  abbrev Kept : Store → Type 0
  Kept s = HasOnly P ttl_ms s

  abbrev pub Waits : Captured → Type 0
  Waits (waits p) = P p
  Waits (published r) = Unit
  Waits (capture_failed f) = Unit

  -- After a part of a capture, what waits satisfies the claim too.
  abbrev pub KeptStep : CaptureStep → Type 0
  KeptStep x = Kept x.store × Waits x.answer

  leave-Kept :
      (s : Store) (id : ℕ) (h : Handle) (keeps : Bool) (d : CloseDisk)
      → Kept s
      → Kept (leave s id h keeps d)
  unfolding leave
  leave-Kept s id h keeps d k =
      if_cases Kept (s.close_requested && s.active_captures - 1 == 0) _ _
        (λ last. finish_close-Only P ttl_ms _ d k) (λ others. k)

  fail-Kept :
      (s : Store) (id : ℕ) (h : Handle) (keeps : Bool) (d : CloseDisk) (f : ArtifactFailure)
      → Kept s
      → KeptStep (fail s id h keeps d f)
  unfolding fail
  fail-Kept s id h keeps d f k = (leave-Kept s id h keeps d k, tt)

  caught-Kept :
      (s : Store) (id : ℕ) (h : Handle) (touches cleans_up : Bool) (d : CloseDisk)
      → Kept s
      → KeptStep (caught s id h touches cleans_up d)
  unfolding caught
  caught-Kept s id h touches cleans_up d k =
      if_cases KeptStep (strict_delete s touches cleans_up) _ _
        (λ clean. fail-Kept s id h false d write_failed k)
        (λ dirty.
          fail-Kept (mark_unhealthy s) id h true d artifact_cleanup_failed
            (mark_unhealthy-Only P ttl_ms s k))

  module _ (id c : ℕ) (asked : Option ℕ) (h : Handle) (f : Source)
      (good : IsDocument f → P (pending_of id c asked h f)) where
    read_source-Kept :
        (s : Store) (d : CloseDisk) → Kept s → KeptStep (read_source s id c asked h f d)
    unfolding read_source stage_copy
    read_source-Kept s d k =
        let s1 = record s { capacity = Capacity.shrink_reservation s.capacity h f.size } in
        let s2 = (identity_proven s1 f.holds).0 in
        let k2 = identity_proven-Only P ttl_ms s1 f.holds k in
        if_cases KeptStep (not f.opens) _ _ (λ absent. caught-Kept s id h false f.cleans_up d k)
          λ open_.
            if_cases KeptStep (not f.is_file || ltb max_artifact_bytes f.size) _ _
              (λ large. fail-Kept s id h false d size_limit k)
              λ fits.
                if_cases KeptStep (ltb f.size 5) _ _ (λ small. fail-Kept s id h false d not_pdf k)
                  λ sized.
                    if_cases KeptStep (not f.reads) _ _
                      (λ short. caught-Kept s1 id h false f.cleans_up d k)
                      λ read.
                        if_cases KeptStep (not (f.end_size == f.size) || not f.has_magic) _ _
                          (λ changed. fail-Kept s1 id h false d integrity_failed k)
                          λ whole.
                            if_cases KeptStep (not (identity_proven s1 f.holds).1) _ _
                              (λ lost. fail-Kept s2 id h false d runtime_invalidated k2)
                              λ proven.
                                if_cases KeptStep (not f.stages) _ _
                                  (λ broken. caught-Kept s2 id h true f.cleans_up d k2)
                                  (λ staged. (k2, good (document open_ fits sized read whole)))
      where
        document :
            not f.opens ≡ false
            → (not f.is_file || ltb max_artifact_bytes f.size) ≡ false
            → ltb f.size 5 ≡ false
            → not f.reads ≡ false
            → (not (f.end_size == f.size) || not f.has_magic) ≡ false
            → IsDocument f
        document a b c' d' e = record {
          opens = ground (arith, a);
          is_file = ground (arith, b);
          not_large = ground (arith, b);
          not_small = ground (arith, c');
          reads = ground (arith, d');
          same_size = ground (arith, e);
          has_magic = ground (arith, e);
        }

  pub capture-Kept :
      (s : Store) (d : Disk) (now id c : ℕ) (asked : Option ℕ) (f : Source) (dc : CloseDisk)
      → ((h : Handle) → IsDocument f → P (pending_of id c asked h f))
      → Kept s
      → KeptStep (capture s d now id c asked f dc)
  unfolding capture
  capture-Kept s d now id c asked f dc good k =
      let s1 = reap_expired s d now in
      let k1 = reap_expired-Only P ttl_ms s d now k in
      let r = Capacity.reserve s1.limits s1.capacity id c in
      let h : Handle = record { token = s1.capacity.next; id = id } in
      if_cases KeptStep (shut s1 || not s1.enabled) _ _ (λ closing. (k1, tt))
        λ open_.
          if_cases KeptStep (has_record id s1.records || mem id s1.inflight) _ _ (λ taken. (k1, tt))
            λ free.
              if_cases KeptStep r.1 _ _
                (λ made. read_source-Kept id c asked h f (good h) (entered s1 id r.0) dc k1)
                (λ full. (k1, tt))

  module _ (s : Store) (p : Pending) (k : Kept s) (its : P p) where
    pub after_part_fsync-Kept :
        (holds links cleans_up : Bool) (d : CloseDisk)
        → KeptStep (after_part_fsync s p holds links cleans_up d)
    unfolding after_part_fsync
    after_part_fsync-Kept holds links cleans_up d =
        let s1 = (identity_proven s holds).0 in
        let k1 = identity_proven-Only P ttl_ms s holds k in
        if_cases KeptStep (mem p.id s.discarded_inflight) _ _
          (λ discarded. fail-Kept s p.id p.reservation false d lifecycle_race k)
          λ wanted.
            if_cases KeptStep (shut s) _ _
              (λ closing. fail-Kept s p.id p.reservation false d runtime_invalidated k)
              λ live.
                if_cases KeptStep (not (identity_proven s holds).1) _ _
                  (λ lost. fail-Kept s1 p.id p.reservation true d runtime_invalidated k1)
                  λ proven.
                    if_cases KeptStep (not links) _ _
                      (λ broken. caught-Kept s1 p.id p.reservation true cleans_up d k1)
                      (λ linked. (k1, its))

    record_for-IsOf :
        (t : Store) (inode now : ℕ) → t.ttl_ms ≡ ttl_ms → IsOf P ttl_ms (record_for t p inode now)
    unfolding record_for
    record_for-IsOf t inode now e = record {
      capture = p;
      satisfies = its;
      id = refl;
      consumer = refl;
      bytes = refl;
      digest = refl;
      lives = lives p.ttl_ms;
    }
      where
        lives :
            (asked : Option ℕ)
            → ((asked ≡ none) × (now + or_else asked t.ttl_ms ≡ now + ttl_ms))
              ⊎ ((u : ℕ) × (asked ≡ some u) × (now + or_else asked t.ttl_ms ≡ now + u))
        lives none = inl (refl, omega (arith, e))
        lives (some u) = inr (u, refl, refl)

    commit-Kept :
        (t : Store) (proves : Option ℕ) (cleans_up : Bool) (now : ℕ) (d : CloseDisk)
        → Kept t
        → KeptStep (commit t p proves cleans_up now d)
    unfolding commit
    commit-Kept t (some inode) cleans_up now d kt = (
      leave-Kept (record t { records = t.records ++ record_for t p inode now ∷ [] }) p.id
          p.reservation true d
          (
            kt.0,
            append-AllAre (IsOf P ttl_ms) t.records (record_for t p inode now) kt.1
                (record_for-IsOf t inode now kt.0),
          ),
      tt,
    )
    commit-Kept t none cleans_up now d kt = caught-Kept t p.id p.reservation true cleans_up d kt

    pub after_link-Kept :
        (holds : Bool) (proves : Option ℕ) (cleans_up : Bool) (now : ℕ) (d : CloseDisk)
        → KeptStep (after_link s p holds proves cleans_up now d)
    unfolding after_link
    after_link-Kept holds proves cleans_up now d =
        let s1 = (identity_proven s holds).0 in
        let k1 = identity_proven-Only P ttl_ms s holds k in
        if_cases KeptStep (mem p.id s.discarded_inflight) _ _
          (λ discarded. fail-Kept s p.id p.reservation false d lifecycle_race k)
          λ wanted.
            if_cases KeptStep (not (identity_proven s holds).1) _ _
              (λ lost. fail-Kept s1 p.id p.reservation true d runtime_invalidated k1)
              λ proven.
                if_cases KeptStep (shut s1) _ _
                  (λ closing.
                    if_cases KeptStep (strict_delete s1 true cleans_up) _ _
                      (λ clean. fail-Kept s1 p.id p.reservation false d runtime_invalidated k1)
                      (λ dirty.
                        fail-Kept (mark_unhealthy s1) p.id p.reservation true d
                          artifact_cleanup_failed (mark_unhealthy-Only P ttl_ms s1 k1)))
                  (λ live. commit-Kept s1 proves cleans_up now d k1)
