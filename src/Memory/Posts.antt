-- ===== src/Memory/Posts.antt =====
-- One rule for what a write of backend/service/memory.py leaves behind when no concurrent request
-- commits anything: a postcondition is proved from its three endings and the gate.
use engineering_memory_agent.Common.{
  ℕ, String, Bool, true, false, ◌≡◌, inl, inr, some, List, [], ◌∷◌, leb, if◌then◌else◌,
  Option-cases,
}
use engineering_memory_agent.Memory.Row.{
  Row, Db, Extracted, Meta, Error, Result, ok, err, structured, circuit_open,
}
use engineering_memory_agent.Memory.Table.{
  find_by_hash, find_similar, merge_threshold, conflict_check, supplement_threshold,
}
use engineering_memory_agent.Memory.Act.{Act, lift, ◌>>=◌}
use engineering_memory_agent.Memory.Write.{
  Services, Others, Request, Written, Deferred, merged_summary, duplicate, conflict, insert_memory,
  supplement_memory, mark_conflict, commit_merge, merge_memory, vetted, supplement_ids, write_meta,
  act_on_grade, ingest, write_memory,
}
use engineering_memory_agent.Memory.Unique.{IsUnique}
use engineering_memory_agent.Memory.Search.{IsStored, AllStored, AllStored-find_similar}

-- No concurrent request commits anything meanwhile.
abbrev pub quiet : {V : Type 0} → Others V
quiet = record { during_extraction = λ s. s; during_grading = λ s. s; before_refetch = λ s. s }

module _ {V : Type 0} (P : Result (Written V) → Db V → Type 0) where
  -- What the action makes of the state has the property.
  abbrev pub Posts : Act V (Written V) → Db V → Type 0
  Posts m s = P (m s).0 (m s).1

  pub Posts-if :
      (b : Bool) (m n : Act V (Written V)) (s : Db V)
      → Posts m s
      → Posts n s
      → Posts (if b then m else n) s
  Posts-if true m n s p q = p
  Posts-if false m n s p q = q

  module _ (raises : (e : Error) (s : Db V) → P (err e) s) where
    pub Posts-lift :
        {A : Type 0} (r : Result A) (f : A → Act V (Written V)) (s : Db V)
        → ((a : A) → Posts (f a) s)
        → Posts (lift r >>= f) s
    unfolding ◌>>=◌
    Posts-lift (ok a) f s k = k a
    Posts-lift (err e) f s k = raises e s

    Posts-vetted :
        (r : Result Bool) (mark supplement : Act V (Written V)) (s : Db V)
        → Posts mark s
        → Posts supplement s
        → Posts (vetted r mark supplement) s
    unfolding vetted
    Posts-vetted (ok true) mark supplement s m p = m
    Posts-vetted (ok false) mark supplement s m p = p
    Posts-vetted (err structured) mark supplement s m p = p
    Posts-vetted (err circuit_open) mark supplement s m p = p
    Posts-vetted (err e) mark supplement s m p = raises e s

    module _ (svc : Services V) (req : Request) (s : Db V) (unique : IsUnique s.rows)
        (conflicts : (i t : String) (d : Deferred V) → P (ok (conflict i t d)) s)
        (inserts : (x : Extracted) (vec : V) (source_type : String) (m : Meta) (tid new_id : String)
          → Posts
              (insert_memory quiet x vec source_type m (some (svc.sha256 req.content)) tid new_id)
              s)
        (merges : (existing : Row V) (x : Extracted) (summary : String) (m : Meta) (tid : String)
            (vec : V)
          → IsStored s.rows existing
          → Posts
              (commit_merge quiet existing x summary m (svc.sha256 req.content) tid vec)
              s) where
      Posts-act_on_grade :
          (x : Extracted) (vec : V) (similar : List (ℕ × Row V))
          → AllStored s.rows similar
          → Posts (act_on_grade svc quiet req (svc.sha256 req.content) x vec similar) s
      unfolding act_on_grade
      Posts-act_on_grade x vec [] stored =
          inserts x vec req.source_type req.metadata req.thread_id req.new_id
      Posts-act_on_grade x vec ((grade, existing) ∷ rest) stored =
          let h = svc.sha256 req.content in
          let m = write_meta (supplement_ids existing.id rest) req.metadata in
          let more : Posts
              (supplement_memory quiet existing x vec req.source_type m h req.thread_id req.new_id)
              s =
            unfold supplement_memory in inserts x vec req.source_type _ req.thread_id req.new_id in
          let merging : Posts (merge_memory svc quiet existing x m h req.thread_id) s =
            unfold merge_memory in
            Posts-lift (svc.embed (merged_summary svc existing.summary x.summary)) _ s (λ v.
              merges existing x (merged_summary svc existing.summary x.summary) m req.thread_id v
                stored.0) in
          Posts-if (leb merge_threshold grade) _ _ s merging (
            Posts-if (leb conflict_check grade) _ _ s
              (Posts-vetted (svc.detect existing.summary x.summary) _ _ s
                (unfold mark_conflict in conflicts _ _ _) more)
              (Posts-if (leb supplement_threshold grade) _ _ s more
                (inserts x vec req.source_type m req.thread_id req.new_id)))

      Posts-ingest : Posts (ingest svc quiet req (svc.sha256 req.content)) s
      unfolding ingest
      Posts-ingest = Posts-lift (svc.extract req.content) _ s λ x.
          Posts-lift (svc.embed x.summary) _ s λ vec.
            Posts-act_on_grade x vec (find_similar (λ v. svc.similarity v vec) s.rows)
              (AllStored-find_similar (λ v. svc.similarity v vec) s.rows unique)

      pub Posts-write_memory :
          ((r : Row V)
            → find_by_hash (svc.sha256 req.content) s.rows ≡ some r
            → P (ok (duplicate r.id r.summary)) s)
          → Posts (write_memory svc quiet req) s
      unfolding write_memory
      Posts-write_memory found =
          elim (Option-cases (find_by_hash (svc.sha256 req.content) s.rows)) [
            | inl e ↦ rw (e, write_memory) Posts-ingest
            | inr (r, e) ↦ rw (e, write_memory) (found r e)
          ]
