-- ===== src/Memory/Superseded.antt =====
-- Content hashes that merges in backend/service/memory.py replace.
use engineering_memory_agent.Common.{
  String, true, false, ◌&&◌, ◌≡◌, ap, subst, ◌∙◌, inl, inr, some, List, arith, str_eq, Bool-cases,
  Option-cases,
}
use engineering_memory_agent.Common.Eq.{string_eq}
use engineering_memory_agent.Common.Dict.{union}
use engineering_memory_agent.Memory.Row.{Row, Db, Extracted, Meta, Error, Result, ok}
use engineering_memory_agent.Memory.Table.{
  stands_for, find_by_hash, find_id, is_live, taken, insert_row,
}
use engineering_memory_agent.Memory.Write.{
  Services, Others, Request, Written, duplicate, merged, refetch, new_row, insert_memory,
  merged_row, commit_merge, write_memory, with_thread,
}
use engineering_memory_agent.Memory.Unique.{IsUnique}
use engineering_memory_agent.Memory.Live.{known, known-update, contains-record_prior_hash}
use engineering_memory_agent.Memory.Search.{IsStored}
use engineering_memory_agent.Memory.Posts.{quiet, Posts-write_memory}
use engineering_memory_agent.Memory.Gate.{duplicate_of_known}

module _ {V : Type 0} where
  -- The answer reports a merge into the row `i`: what that row stood for in `rows` is still known.
  abbrev Remembered : List (Row V) → Result (Written V) → Db V → Type 0
  Remembered rows (ok (merged i t)) s =
      (r : Row V) (g : String)
      → find_id i rows ≡ some r
      → r.content_hash ≡ some g
      → str_eq g "" ≡ false
      → known g s.rows ≡ true
  Remembered rows _ s = Unit

  Remembered-refetch :
      (rows : List (Row V)) (e : Error) (h : String) (s : Db V)
      → Remembered rows (refetch e (some h) s).0 (refetch e (some h) s).1
  unfolding refetch
  Remembered-refetch rows e h s = elim (Option-cases (find_by_hash h s.rows)) [
    | inl n ↦ rw (n, refetch) tt
    | inr (w, n) ↦ rw (n, refetch) tt
  ]

  Remembered-insert_memory :
      (rows : List (Row V)) (x : Extracted) (vec : V) (source_type : String) (m : Meta)
      (h tid new_id : String) (s : Db V)
      → let (r, s') = insert_memory quiet x vec source_type m (some h) tid new_id s in
        Remembered rows r s'
  unfolding insert_memory
  Remembered-insert_memory rows x vec source_type m h tid new_id s =
      elim (Option-cases (insert_row (new_row x vec source_type m (some h) tid new_id) s.rows)) [
        | inl e ↦ rw (e, insert_memory) (Remembered-refetch rows Error.runtime_error h s)
        | inr (rows', e) ↦ rw (e, insert_memory) tt
      ]

  -- The metadata of a merge holds the hash that the merge replaces.
  stands_for-merged :
      (g : String) (existing r : Row V) (x : Extracted) (summary : String) (vec : V) (m : Meta)
      (h tid : String)
      → existing.content_hash ≡ some g
      → str_eq g "" ≡ false
      → r.deleted ≡ false
      → stands_for g (merged_row existing x summary vec m h tid r) ≡ true
  unfolding stands_for
  stands_for-merged g existing r x summary vec m h tid e n d =
      rw (e, d)
        (ground (arith, contains-record_prior_hash (union existing.meta (with_thread tid m)) g n))

  Remembered-commit_merge :
      (existing : Row V) (x : Extracted) (summary : String) (m : Meta) (h tid : String) (vec : V)
      (s : Db V)
      → IsStored s.rows existing
      → let (r, s') = commit_merge quiet existing x summary m h tid vec s in Remembered s.rows r s'
  unfolding commit_merge
  Remembered-commit_merge existing x summary m h tid vec s stored =
      elim (Bool-cases (is_live existing.id s.rows && taken h existing.id s.rows)) [
        | inl e ↦ rw (e, commit_merge) (Remembered-refetch s.rows Error.integrity h s)
        | inr e ↦
            rw (e, commit_merge)
              (λ r g found has n.
                let same : existing ≡ r = cc (stored.0, found) in
                known-update g existing.id (merged_row existing x summary vec m h tid) s.rows
                  stored.0
                  (stands_for-merged g existing existing x summary vec m h tid
                    (ap (λ (q : Row V). q.content_hash) same ∙ has) n stored.1))
      ]

  Remembered-write_memory :
      (svc : Services V) (req : Request) (s : Db V)
      → IsUnique s.rows
      → let (r, s') = write_memory svc quiet req s in Remembered s.rows r s'
  Remembered-write_memory svc req s u =
      let h = svc.sha256 req.content in
      Posts-write_memory (Remembered s.rows) (λ e t. tt) svc req s u (λ i t d. tt)
        (λ x vec st m tid new_id. Remembered-insert_memory s.rows x vec st m h tid new_id s)
        (λ existing x summary m tid vec stored.
          Remembered-commit_merge existing x summary m h tid vec s stored)
        (λ r e. tt)

  -- After a write that was answered as a merge into the memory `i`, with no concurrent commit, the
  -- content that `i` stood for before the merge is still recognised: any later write of it is
  -- answered as a duplicate and changes nothing.
  pub superseded_is_duplicate :
      (svc svc' : Services V) (others : Others V) (req old : Request) (s s' : Db V) (i t g : String)
      (r : Row V)
      → IsUnique s.rows
      → write_memory svc quiet req s ≡ (ok (merged i t), s')
      → find_id i s.rows ≡ some r
      → r.content_hash ≡ some g
      → str_eq g "" ≡ false
      → svc'.sha256 old.content ≡ g
      → (q : Row V) × (write_memory svc' others old s' ≡ (ok (duplicate q.id q.summary), s'))
  superseded_is_duplicate svc svc' others req old s s' i t g r u done found e n same =
      let remembered : Remembered s.rows (ok (merged i t)) s' =
        subst (λ p. Remembered s.rows p.0 p.1) done (Remembered-write_memory svc req s u) in
      duplicate_of_known svc' others old s' (rw same (remembered r g found e n))
