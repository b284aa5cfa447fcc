-- ===== src/Memory/Gate.antt =====
-- The idempotency gate of backend/service/memory.py after a write.
use engineering_memory_agent.Common.{
  String, Bool, true, false, ◌&&◌, ◌≡◌, refl, ap, subst, ◌∙◌, inl, inr, some, arith, str_eq_iff,
  Bool-cases, Option-cases,
}
use engineering_memory_agent.Memory.Row.{Row, Db, Extracted, Meta, Error, Result, ok, err}
use engineering_memory_agent.Memory.Table.{stands_for, find_by_hash, is_live, taken, insert_row}
use engineering_memory_agent.Memory.Act.{Act}
use engineering_memory_agent.Memory.Write.{
  Services, Others, Request, Written, duplicate, inserted, merged, conflict, refetch, new_row,
  insert_memory, merged_row, commit_merge, write_memory,
}
use engineering_memory_agent.Memory.Unique.{IsUnique}
use engineering_memory_agent.Memory.Live.{
  known, known-find_by_hash, known_of_found, known-insert, known-update,
}
use engineering_memory_agent.Memory.Search.{IsStored}
use engineering_memory_agent.Memory.Posts.{quiet, Posts-write_memory}

module _ {V : Type 0} where
  -- An answer that reports a stored memory comes with a live row that stands for the content.
  abbrev Settled : String → Result (Written V) → Db V → Type 0
  Settled h (err e) s = Unit
  Settled h (ok (conflict i t d)) s = Unit
  Settled h (ok (duplicate i t)) s = known h s.rows ≡ true
  Settled h (ok (inserted i t)) s = known h s.rows ≡ true
  Settled h (ok (merged i t)) s = known h s.rows ≡ true

  abbrev Settles : String → Db V → Act V (Written V) → Type 0
  Settles h s m = Settled h (m s).0 (m s).1

  Settles-refetch : (e : Error) (h : String) (s : Db V) → Settles h s (refetch e (some h))
  unfolding refetch
  Settles-refetch e h s = elim (Option-cases (find_by_hash h s.rows)) [
    | inl n ↦ rw (n, refetch) tt
    | inr (w, n) ↦ rw (n, refetch) (known_of_found h s.rows n)
  ]

  stands_for-new :
      (h : String) (r : Row V) → r.deleted ≡ false → r.content_hash ≡ some h → stands_for h r ≡ true
  unfolding stands_for
  stands_for-new h r d e = ground (arith, str_eq_iff h h)

  Settles-insert_memory :
      (x : Extracted) (vec : V) (source_type : String) (m : Meta) (h tid new_id : String) (s : Db V)
      → Settles h s (insert_memory quiet x vec source_type m (some h) tid new_id)
  unfolding insert_memory
  Settles-insert_memory x vec source_type m h tid new_id s =
      let r = new_row x vec source_type m (some h) tid new_id in
      elim (Option-cases (insert_row r s.rows)) [
        | inl e ↦ rw (e, insert_memory) (Settles-refetch Error.runtime_error h s)
        | inr (rows, e) ↦
            rw (e, insert_memory) (known-insert h r s.rows rows e (stands_for-new h r refl refl))
      ]

  Settles-commit_merge :
      (existing : Row V) (x : Extracted) (summary : String) (m : Meta) (h tid : String) (vec : V)
      (s : Db V)
      → IsStored s.rows existing
      → Settles h s (commit_merge quiet existing x summary m h tid vec)
  unfolding commit_merge
  Settles-commit_merge existing x summary m h tid vec s stored =
      elim (Bool-cases (is_live existing.id s.rows && taken h existing.id s.rows)) [
        | inl e ↦ rw (e, commit_merge) (Settles-refetch Error.integrity h s)
        | inr e ↦
            let change = merged_row existing x summary vec m h tid in
            rw (e, commit_merge)
              (known-update h existing.id change s.rows stored.0
                (stands_for-new h (change existing) stored.1 refl))
      ]

  Settles-write_memory :
      (svc : Services V) (req : Request) (s : Db V)
      → IsUnique s.rows
      → Settles (svc.sha256 req.content) s (write_memory svc quiet req)
  Settles-write_memory svc req s u =
      let h = svc.sha256 req.content in
      Posts-write_memory (Settled h) (λ e t. tt) svc req s u (λ i t d. tt)
        (λ x vec st m tid new_id. Settles-insert_memory x vec st m h tid new_id s)
        (λ existing x summary m tid vec stored.
          Settles-commit_merge existing x summary m h tid vec s stored)
        (λ r e. known_of_found h s.rows e)

  abbrev pub is_conflict : Written V → Bool
  is_conflict (conflict i t d) = true
  is_conflict _ = false

  known_of_Settled :
      (h : String) (w : Written V) (s : Db V)
      → is_conflict w ≡ false
      → Settled h (ok w) s
      → known h s.rows ≡ true
  known_of_Settled h (conflict i t d) s n k = cc n
  known_of_Settled h (duplicate i t) s n k = k
  known_of_Settled h (inserted i t) s n k = k
  known_of_Settled h (merged i t) s n k = k

  pub duplicate_of_known :
      (svc : Services V) (others : Others V) (req : Request) (s : Db V)
      → known (svc.sha256 req.content) s.rows ≡ true
      → (r : Row V) × (write_memory svc others req s ≡ (ok (duplicate r.id r.summary), s))
  unfolding write_memory
  duplicate_of_known svc others req s k =
      let (r, e) = known-find_by_hash (svc.sha256 req.content) s.rows k in (r, rw (e, write_memory))

  -- Once a write has answered that it inserted, merged or found a memory, with no concurrent commit
  -- in between, every later write of the same content is answered as a duplicate and changes
  -- nothing, whatever the models would then say and whatever its metadata.
  pub rewrite_is_duplicate :
      (svc svc' : Services V) (others : Others V) (req req' : Request) (s s' : Db V) (w : Written V)
      → svc'.sha256 ≡ svc.sha256
      → req'.content ≡ req.content
      → IsUnique s.rows
      → write_memory svc quiet req s ≡ (ok w, s')
      → is_conflict w ≡ false
      → (r : Row V) × (write_memory svc' others req' s' ≡ (ok (duplicate r.id r.summary), s'))
  rewrite_is_duplicate svc svc' others req req' s s' w same_hash same_content u e n =
      let h = svc.sha256 req.content in
      let settled : Settled h (ok w) s' =
        subst (λ p. Settled h p.0 p.1) e (Settles-write_memory svc req s u) in
      let same : svc'.sha256 req'.content ≡ h =
        ap (λ (f : String → String). f req'.content) same_hash ∙ ap svc.sha256 same_content in
      duplicate_of_known svc' others req' s' (rw same (known_of_Settled h w s' n settled))
