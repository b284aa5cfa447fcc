-- ===== src/Memory/Patrol.antt =====
-- `resolve_conflict` of backend/service/memory.py on conflicts between two stored memories.
use engineering_memory_agent.Common.{
  String, Bool, true, false, not, ◌≡◌, ◌≢◌, refl, ap, ◌∙◌, inl, inr, Option, none, some, List,
  Bool-cases, Option-cases,
}
use engineering_memory_agent.Memory.Row.{Row, Db, Result, ok, err}
use engineering_memory_agent.Memory.Table.{find_by_hash, find_id, is_live, update_id, soft_delete}
use engineering_memory_agent.Memory.Act.{lift, continue, ◌>>=◌}
use engineering_memory_agent.Memory.Write.{Services}
use engineering_memory_agent.Memory.Resolve.{
  Resolution, Resolved, Decision, Content, keep_existing, overwrite, merge, keep_both, unknown,
  conflict_resolved, duplicate, written, given_hash, drop_peer, resolved_row, clashes, is_gone,
  winner, write_resolved_memory, conclude, settle, overwrite_content, merge_text, merge_content,
  resolve_overwrite, resolve_merge, resolve_keep_existing, resolve_keep_both, resolve_as,
  resolve_conflict,
}
use engineering_memory_agent.Memory.Live.{
  is_live-update, is_live-soft_delete_self, is_live-soft_delete_ne,
}
use engineering_memory_agent.Memory.Posts.{quiet}

module _ {V : Type 0} where
  -- The loser is gone, the survivor live, and of any other memory as much is live as before.
  pub record Arbitrated (survivor loser : String) (before after : List (Row V)) : Type 0 where
    pub loser_gone : is_live loser after ≡ false
    pub survivor_live : is_live survivor after ≡ true
    pub rest_same : (k : String) → k ≢ loser → is_live k after ≡ is_live k before

  -- What an answer promises: an exception, a lost race and keep_both leave the database as it was,
  -- and any other resolution arbitrates.
  abbrev pub PatrolOutcome : String → String → Db V → Result (Resolved V) → Db V → Type 0
  PatrolOutcome survivor loser s (err e) s' = s' ≡ s
  PatrolOutcome survivor loser s (ok (duplicate i r t)) s' = s' ≡ s
  PatrolOutcome survivor loser s (ok (conflict_resolved i keep_both)) s' = s' ≡ s
  PatrolOutcome survivor loser s (ok (conflict_resolved i _)) s' =
      Arbitrated survivor loser s.rows s'.rows
  PatrolOutcome survivor loser s (ok (written w)) s' = ⊥

  -- The same of the transaction alone.
  abbrev WriteOutcome : String → String → Db V → Result (Option (Resolved V)) → Db V → Type 0
  WriteOutcome survivor loser s (err e) s' = s' ≡ s
  WriteOutcome survivor loser s (ok none) s' = Arbitrated survivor loser s.rows s'.rows
  WriteOutcome survivor loser s (ok (some (duplicate i r t))) s' = s' ≡ s
  WriteOutcome survivor loser s (ok (some _)) s' = ⊥

  module _ (d : Decision V) (loser : String) (s : Db V) (apart : d.existing_id ≢ loser) where
    drop_arbitrates :
        is_live d.existing_id s.rows ≡ true
        → Arbitrated d.existing_id loser s.rows (soft_delete loser s.rows)
    drop_arbitrates live = record {
      loser_gone = is_live-soft_delete_self loser s.rows;
      survivor_live = is_live-soft_delete_ne d.existing_id loser s.rows apart ∙ live;
      rest_same = λ k ne. is_live-soft_delete_ne k loser s.rows ne;
    }

    write_arbitrates :
        (c : Content V) (h : Option String)
        → is_live d.existing_id s.rows ≡ true
        → Arbitrated d.existing_id loser s.rows
            (update_id d.existing_id (resolved_row c h) (soft_delete loser s.rows))
    write_arbitrates c h live =
        let dropped = drop_arbitrates live in
        let same =
          is_live-update (resolved_row c h) (λ r. unfold resolved_row in refl)
            (λ r. unfold resolved_row in refl) in
        record {
          loser_gone = same loser d.existing_id (soft_delete loser s.rows) ∙ dropped.loser_gone;
          survivor_live =
              same d.existing_id d.existing_id (soft_delete loser s.rows) ∙ dropped.survivor_live;
          rest_same =
              λ k ne. same k d.existing_id (soft_delete loser s.rows) ∙ dropped.rest_same k ne;
        }

    winner_outcome :
        (res : Resolution) (h : Option String)
        → WriteOutcome d.existing_id loser s (winner res h s).0 (winner res h s).1
    unfolding winner
    winner_outcome res none = refl
    winner_outcome res (some h) = elim (Option-cases (find_by_hash h s.rows)) [
      | inl e ↦ rw (e, winner) refl
      | inr (w, e) ↦ rw (e, winner) refl
    ]

    module _ (peer : d.peer_id ≡ some loser) (live : is_live d.existing_id s.rows ≡ true) where
      write_outcome :
          (c : Content V)
          → let (r, s') = write_resolved_memory quiet d c s in
            WriteOutcome d.existing_id loser s r s'
      unfolding write_resolved_memory drop_peer
      write_outcome c =
          let h = given_hash d.deferred.content_hash in
          elim (Bool-cases (clashes h d.existing_id (drop_peer d.peer_id s.rows))) [
            | inl e ↦ rw (e, write_resolved_memory) (winner_outcome d.resolution h)
            | inr e ↦
                elim (Bool-cases (is_gone d.peer_id d.existing_id (drop_peer d.peer_id s.rows))) [
                  | inl gone ↦ rw (e, write_resolved_memory) (rw gone refl)
                  | inr there ↦
                      rw (e, write_resolved_memory)
                        (rw there (rw (peer, drop_peer) (write_arbitrates c h live)))
                ]
          ]

      -- `conflict_resolved` with an option that is not keep_both.
      Arbitrated-outcome :
          (res : Resolution) (i : String) (s' : Db V)
          → res ≢ keep_both
          → Arbitrated d.existing_id loser s.rows s'.rows
          → PatrolOutcome d.existing_id loser s (ok (conflict_resolved i res)) s'
      Arbitrated-outcome keep_existing i s' ne a = a
      Arbitrated-outcome overwrite i s' ne a = a
      Arbitrated-outcome merge i s' ne a = a
      Arbitrated-outcome keep_both i s' ne a = absurd (ne refl)
      Arbitrated-outcome unknown i s' ne a = a

      concluded_outcome :
          (c : Content V) (r : Result (Option (Resolved V))) (s' : Db V)
          → d.resolution ≢ keep_both
          → WriteOutcome d.existing_id loser s r s'
          → let (q, t) = continue r (conclude d c.entities) s' in
            PatrolOutcome d.existing_id loser s q t
      unfolding conclude
      concluded_outcome c (err e) s' ne w = w
      concluded_outcome c (ok none) s' ne w =
          Arbitrated-outcome d.resolution d.existing_id _ ne (record {
            loser_gone = w.loser_gone;
            survivor_live = w.survivor_live;
            rest_same = w.rest_same;
          })
      concluded_outcome c (ok (some (duplicate i r t))) s' ne w = w
      concluded_outcome c (ok (some (conflict_resolved i r))) s' ne w = absurd w
      concluded_outcome c (ok (some (written q))) s' ne w = absurd w

      settle_outcome :
          (c : Content V)
          → d.resolution ≢ keep_both
          → let (r, s') = settle quiet d c s in PatrolOutcome d.existing_id loser s r s'
      unfolding settle
      settle_outcome c ne =
          let (r, s') = write_resolved_memory quiet d c s in
          concluded_outcome c r s' ne (write_outcome c)

      merge_outcome :
          (svc : Services V)
          → d.resolution ≢ keep_both
          → let (r, s') = resolve_merge svc quiet d s in PatrolOutcome d.existing_id loser s r s'
      unfolding resolve_merge
      merge_outcome svc ne =
          let row = find_id d.existing_id s.rows in embedded (svc.embed (merge_text svc d row))
        where
          embedded :
              (r : Result V)
              → let (q, t) =
                  (lift r >>= λ vec.
                  settle quiet d (merge_content svc d (find_id d.existing_id s.rows) vec))
                    s in
                PatrolOutcome d.existing_id loser s q t
          embedded (ok vec) =
              settle_outcome (merge_content svc d (find_id d.existing_id s.rows) vec) ne
          embedded (err e) = refl

      as_outcome :
          (res : Resolution) (svc : Services V)
          → d.resolution ≡ res
          → let (r, s') = resolve_as res svc quiet d s in PatrolOutcome d.existing_id loser s r s'
      unfolding resolve_as drop_peer
      as_outcome keep_existing svc e =
          unfold resolve_keep_existing in rw (peer, drop_peer) (drop_arbitrates live)
      as_outcome overwrite svc e =
          unfold resolve_overwrite in
          settle_outcome (overwrite_content d (find_id d.existing_id s.rows)) (λ k. cc (e, k))
      as_outcome merge svc e = merge_outcome svc (λ k. cc (e, k))
      as_outcome keep_both svc e = unfold resolve_keep_both in rw peer refl
      as_outcome unknown svc e =
          unfold resolve_keep_existing in rw (peer, drop_peer) (drop_arbitrates live)

  is_gone_peer :
      (peer : Option String) (loser k : String) (rows : List (Row V)) (b : Bool)
      → peer ≡ some loser
      → is_live k rows ≡ b
      → is_gone peer k rows ≡ not b
  unfolding is_gone
  is_gone_peer none loser k rows b e l = cc e
  is_gone_peer (some p) loser k rows b e l = ap not l

  -- A patrol conflict between two different memories, with no concurrent commit. Where resolving it
  -- raises, loses a race for the content hash, or keeps both, the database is as it was. Any other
  -- answer means that the loser is not live any more, that the survivor is, and that every other
  -- memory is live exactly if it was: the two statements of the transaction take effect together or
  -- not at all.
  pub resolve_patrol :
      (svc : Services V) (d : Decision V) (loser : String) (s : Db V)
      → d.existing_id ≢ loser
      → d.peer_id ≡ some loser
      → let (r, s') = resolve_conflict svc quiet d s in PatrolOutcome d.existing_id loser s r s'
  unfolding resolve_conflict
  resolve_patrol svc d loser s apart peer = elim (Bool-cases (is_live d.existing_id s.rows)) [
    | inl live ↦
        rw (is_gone_peer d.peer_id loser d.existing_id s.rows true peer live)
          (as_outcome d loser s apart peer live d.resolution svc refl)
    | inr dead ↦ rw (is_gone_peer d.peer_id loser d.existing_id s.rows false peer dead) refl
  ]
