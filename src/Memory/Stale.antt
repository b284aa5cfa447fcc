-- ===== src/Memory/Stale.antt =====
-- `resolve_conflict` of backend/service/memory.py on a write conflict whose stored memory was deleted
-- while the conflict waited for a decision.
use engineering_memory_agent.Common.{
  String, true, false, ◌||◌, ◌≡◌, refl, ap, subst, ◌∙◌, inl, inr, Option, none, some, List, [], ◌∷◌,
  arith, str_eq, str_eq_iff, Bool-cases,
}
use engineering_memory_agent.Memory.Row.{Row, Db, ok}
use engineering_memory_agent.Memory.Table.{stands_for, find_id, is_live, update_id}
use engineering_memory_agent.Memory.Write.{Services}
use engineering_memory_agent.Memory.Resolve.{
  Decision, overwrite, conflict_resolved, given_hash, drop_peer, resolved_row, clashes, is_gone,
  write_resolved_memory, conclude, settle, overwrite_content, resolve_overwrite, resolve_as,
  resolve_conflict, Content,
}
use engineering_memory_agent.Memory.Act.{◌>>=◌}
use engineering_memory_agent.Memory.Unique.{IsUnique, update_absent}
use engineering_memory_agent.Memory.Live.{known}
use engineering_memory_agent.Memory.Posts.{quiet}

module _ {V : Type 0} where
  dead_stands_for : (h : String) (r : Row V) → r.deleted ≡ true → stands_for h r ≡ false
  unfolding stands_for
  dead_stands_for h r e = rw e refl

  dead_head :
      (k : String) (r : Row V) (rows : List (Row V))
      → str_eq r.id k ≡ true
      → is_live k (r ∷ rows) ≡ false
      → r.deleted ≡ true
  unfolding is_live find_id
  dead_head k r rows m e = ground (arith, (rw (m, is_live) at e))

  dead_tail :
      (k : String) (r : Row V) (rows : List (Row V))
      → str_eq r.id k ≡ false
      → is_live k (r ∷ rows) ≡ false
      → is_live k rows ≡ false
  unfolding is_live find_id
  dead_tail k r rows m e = rw (m, is_live) at e

  known-update_dead :
      (h k : String) (g : Row V → Row V) (rows : List (Row V))
      → ((r : Row V) → (g r).deleted ≡ r.deleted)
      → IsUnique rows
      → is_live k rows ≡ false
      → known h (update_id k g rows) ≡ known h rows
  unfolding known update_id is_live find_id
  known-update_dead h k g [] keeps u e = refl
  known-update_dead h k g (r ∷ rows) keeps u e = elim (Bool-cases (str_eq r.id k)) [
    | inl m ↦
        let dead : r.deleted ≡ true = dead_head k r rows m e in
        let absent : find_id k rows ≡ none =
          subst (λ i. find_id i rows ≡ none) ((str_eq_iff r.id k).0 m) u.1 in
        rw (m, update_absent k g rows absent)
          (rw (dead_stands_for h r dead, dead_stands_for h (g r) (keeps r ∙ dead)) refl)
    | inr m ↦ rw m (
        ap (λ b. stands_for h r || b)
          (known-update_dead h k g rows keeps u.2 (dead_tail k r rows m e)))
  ]

  clashes-dead :
      (h : Option String) (k : String) (rows : List (Row V))
      → is_live k rows ≡ false
      → clashes h k rows ≡ false
  unfolding clashes
  clashes-dead none k rows e = refl
  clashes-dead (some h) k rows e = rw e refl

  settle_dead :
      (d : Decision V) (c : Content V) (s : Db V)
      → d.peer_id ≡ none
      → is_live d.existing_id s.rows ≡ false
      → settle quiet d c s ≡ (
        ok (conflict_resolved d.existing_id d.resolution),
        record s {
          rows =
              update_id d.existing_id (resolved_row c (given_hash d.deferred.content_hash)) s.rows;
          scheduled = (d.existing_id, c.entities) ∷ s.scheduled;
        },
      )
  unfolding settle write_resolved_memory is_gone drop_peer conclude ◌>>=◌
  settle_dead d c s peer dead =
      let free = clashes-dead (given_hash d.deferred.content_hash) d.existing_id s.rows dead in
      rw (peer, free) refl

  resolve_conflict-overwrite :
      (svc : Services V) (d : Decision V) (s : Db V)
      → d.resolution ≡ overwrite
      → d.peer_id ≡ none
      → resolve_conflict svc quiet d s
        ≡ settle quiet d (overwrite_content d (find_id d.existing_id s.rows)) s
  unfolding resolve_conflict resolve_as resolve_overwrite is_gone ◌>>=◌
  resolve_conflict-overwrite svc d s e peer = rw (peer, e) refl

  -- A write conflict, with no peer, whose stored memory is deleted or missing, with nothing else
  -- committed meanwhile: overwrite answers that it resolved the conflict, yet the table stands for
  -- exactly the contents that it stood for before, whatever the new content is.
  pub overwrite_of_deleted :
      (svc : Services V) (d : Decision V) (s : Db V)
      → IsUnique s.rows
      → d.resolution ≡ overwrite
      → d.peer_id ≡ none
      → is_live d.existing_id s.rows ≡ false
      → let (r, s') = resolve_conflict svc quiet d s in
        (r ≡ ok (conflict_resolved d.existing_id overwrite))
        × ((h : String) → known h s'.rows ≡ known h s.rows)
  unfolding overwrite_content
  overwrite_of_deleted svc d s u e peer dead =
      let c = overwrite_content d (find_id d.existing_id s.rows) in
      let after = resolve_conflict-overwrite svc d s e peer ∙ settle_dead d c s peer dead in
      rw (after, e)
        (
          refl,
          λ h.
              known-update_dead h d.existing_id
                (resolved_row c (given_hash d.deferred.content_hash)) s.rows
                (λ r. unfold resolved_row in refl) u dead,
        )
