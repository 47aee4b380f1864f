-- ===== src/Artifacts/Store/Permits/Captures.antt =====
-- The response permit through the captures of artifacts/store.ts.
use browse_gateway.Base.{
  ℕ, ◌-◌, Bool, true, false, ◌&&◌, ◌||◌, not, Option, none, some, ltb, ◌==◌, if_cases,
}
use browse_gateway.Base.Ids.{mem}
use browse_gateway.Artifacts.Capacity
use browse_gateway.Artifacts.Capacity.{Handle, max_artifact_bytes}
use browse_gateway.Artifacts.Store.{
  Store, shut, has_record, mark_unhealthy, identity_proven, strict_delete,
}
use browse_gateway.Artifacts.Store.Discard.{Disk, reap_expired}
use browse_gateway.Artifacts.Store.Close.{CloseDisk}
use browse_gateway.Artifacts.Store.Capture.{
  ArtifactFailure, runtime_invalidated, size_limit, not_pdf, integrity_failed, lifecycle_race,
  artifact_cleanup_failed, write_failed, Source, Pending, CaptureStep, leave, fail, caught,
  stage_copy, read_source, entered, capture, after_part_fsync, commit, after_link,
}
use browse_gateway.Artifacts.Store.Permits.Discards.{reap_expired-IsKept}
use browse_gateway.Artifacts.Store.Permits.Leases.{IsLive-IsStable}
use browse_gateway.Artifacts.Store.Permits.Close.{
  Kept, poisoned-Kept, proven-Kept, finish_close-Kept,
}

leave-Kept :
    (s : Store) (id : ℕ) (h : Handle) (keeps : Bool) (d : CloseDisk)
    → Kept s
    → Kept (leave s id h keeps d)
unfolding leave
leave-Kept s id h keeps d k =
    if_cases Kept (s.close_requested && s.active_captures - 1 == 0) _ _
      (λ last. finish_close-Kept _ d k) (λ others. k)

abbrev KeptStep : CaptureStep → Type 0
KeptStep x = Kept x.store

fail-Kept :
    (s : Store) (id : ℕ) (h : Handle) (keeps : Bool) (d : CloseDisk) (f : ArtifactFailure)
    → Kept s
    → KeptStep (fail s id h keeps d f)
unfolding fail
fail-Kept s id h keeps d f k = leave-Kept s id h keeps d k

caught-Kept :
    (s : Store) (id : ℕ) (h : Handle) (touches cleans_up : Bool) (d : CloseDisk)
    → Kept s
    → KeptStep (caught s id h touches cleans_up d)
unfolding caught
caught-Kept s id h touches cleans_up d k =
    if_cases KeptStep (strict_delete s touches cleans_up) _ _
      (λ clean. fail-Kept s id h false d write_failed k)
      (λ dirty.
        fail-Kept (mark_unhealthy s) id h true d artifact_cleanup_failed (poisoned-Kept s k))

stage_copy-Kept :
    (s : Store) (id c : ℕ) (ttl_ms : Option ℕ) (h : Handle) (f : Source) (d : CloseDisk)
    → Kept s
    → KeptStep (stage_copy s id c ttl_ms h f d)
unfolding stage_copy
stage_copy-Kept s id c ttl_ms h f d k =
    let s1 = record s { capacity = Capacity.shrink_reservation s.capacity h f.size } in
    let s2 = (identity_proven s1 f.holds).0 in
    let k2 = proven-Kept s1 f.holds k in
    if_cases KeptStep (not f.reads) _ _ (λ short. caught-Kept s1 id h false f.cleans_up d k)
      λ read.
        if_cases KeptStep (not (f.end_size == f.size) || not f.has_magic) _ _
          (λ changed. fail-Kept s1 id h false d integrity_failed k)
          λ whole.
            if_cases KeptStep (not (identity_proven s1 f.holds).1) _ _
              (λ lost. fail-Kept s2 id h false d runtime_invalidated k2)
              λ proven.
                if_cases KeptStep (not f.stages) _ _
                  (λ broken. caught-Kept s2 id h true f.cleans_up d k2) (λ staged. k2)

read_source-Kept :
    (s : Store) (id c : ℕ) (ttl_ms : Option ℕ) (h : Handle) (f : Source) (d : CloseDisk)
    → Kept s
    → KeptStep (read_source s id c ttl_ms h f d)
unfolding read_source
read_source-Kept s id c ttl_ms h f d k =
    if_cases KeptStep (not f.opens) _ _ (λ absent. caught-Kept s id h false f.cleans_up d k)
      λ open_.
        if_cases KeptStep (not f.is_file || ltb max_artifact_bytes f.size) _ _
          (λ large. fail-Kept s id h false d size_limit k)
          λ fits.
            if_cases KeptStep (ltb f.size 5) _ _ (λ small. fail-Kept s id h false d not_pdf k)
              (λ sized. stage_copy-Kept s id c ttl_ms h f d k)

pub capture-Kept :
    (s : Store) (d : Disk) (now id c : ℕ) (ttl_ms : Option ℕ) (f : Source) (dc : CloseDisk)
    → Kept s
    → KeptStep (capture s d now id c ttl_ms f dc)
unfolding capture
capture-Kept s d now id c ttl_ms f dc k =
    let s1 = reap_expired s d now in
    let k1 = reap_expired-IsKept IsLive-IsStable s d now k in
    let r = Capacity.reserve s1.limits s1.capacity id c in
    if_cases KeptStep (shut s1 || not s1.enabled) _ _ (λ closing. k1)
      λ open_.
        if_cases KeptStep (has_record id s1.records || mem id s1.inflight) _ _ (λ taken. k1)
          λ free.
            if_cases KeptStep r.1 _ _
              (λ made.
                read_source-Kept (entered s1 id r.0) id c ttl_ms
                  (record { token = s1.capacity.next; id = id }) f dc k1)
              (λ full. k1)

pub after_part_fsync-Kept :
    (s : Store) (p : Pending) (holds links cleans_up : Bool) (d : CloseDisk)
    → Kept s
    → KeptStep (after_part_fsync s p holds links cleans_up d)
unfolding after_part_fsync
after_part_fsync-Kept s p holds links cleans_up d k =
    let s1 = (identity_proven s holds).0 in
    let k1 = proven-Kept s holds k in
    if_cases KeptStep (mem p.id s.discarded_inflight) _ _
      (λ discarded. fail-Kept s p.id p.reservation false d lifecycle_race k)
      λ wanted.
        if_cases KeptStep (shut s) _ _
          (λ closing. fail-Kept s p.id p.reservation false d runtime_invalidated k)
          λ live.
            if_cases KeptStep (not (identity_proven s holds).1) _ _
              (λ lost. fail-Kept s1 p.id p.reservation true d runtime_invalidated k1)
              λ proven.
                if_cases KeptStep (not links) _ _
                  (λ broken. caught-Kept s1 p.id p.reservation true cleans_up d k1) (λ linked. k1)

commit-Kept :
    (s : Store) (p : Pending) (proves : Option ℕ) (cleans_up : Bool) (now : ℕ) (d : CloseDisk)
    → Kept s
    → KeptStep (commit s p proves cleans_up now d)
unfolding commit
commit-Kept s p (some inode) cleans_up now d k = leave-Kept _ p.id p.reservation true d k
commit-Kept s p none cleans_up now d k = caught-Kept s p.id p.reservation true cleans_up d k

pub after_link-Kept :
    (s : Store) (p : Pending) (holds : Bool) (proves : Option ℕ) (cleans_up : Bool) (now : ℕ)
    (d : CloseDisk)
    → Kept s
    → KeptStep (after_link s p holds proves cleans_up now d)
unfolding after_link
after_link-Kept s p holds proves cleans_up now d k =
    let s1 = (identity_proven s holds).0 in
    let k1 = proven-Kept s holds k in
    if_cases KeptStep (mem p.id s.discarded_inflight) _ _
      (λ discarded. fail-Kept s p.id p.reservation false d lifecycle_race k)
      λ wanted.
        if_cases KeptStep (not (identity_proven s holds).1) _ _
          (λ lost. fail-Kept s1 p.id p.reservation true d runtime_invalidated k1)
          λ proven.
            if_cases KeptStep (shut s1) _ _
              (λ closing.
                if_cases KeptStep (strict_delete s1 true cleans_up) _ _
                  (λ clean. fail-Kept s1 p.id p.reservation false d runtime_invalidated k1)
                  (λ dirty.
                    fail-Kept (mark_unhealthy s1) p.id p.reservation true d artifact_cleanup_failed
                      (poisoned-Kept s1 k1)))
              (λ live. commit-Kept s1 p proves cleans_up now d k1)
