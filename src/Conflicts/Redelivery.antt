-- ===== src/Conflicts/Redelivery.antt =====
-- `persist_pending_conflict` of backend/service/conflicts.py where a conflict is delivered again.
use engineering_memory_agent.Common.{
  String, Bool, true, false, ◌&&◌, ◌||◌, ◌≡◌, refl, ap, ◌∙◌, inl, inr, Option, none, some, List, [],
  ◌∷◌, ◌++◌, arith, str_eq, str_eq_iff, if◌then◌else◌, Bool-cases, Option-cases,
}
use engineering_memory_agent.Memory.Row.{ok, err, runtime_error}
use engineering_memory_agent.Memory.Write.{Deferred, conflict}
use engineering_memory_agent.Conflicts.Queue.{
  Conflict, pending, is_pending, is_patrol, same_hash, not_distinct, same_content, same_pair,
  collide, collides, insert_conflict, find_content,
}
use engineering_memory_agent.Conflicts.Service.{
  new_conflict, found_id, persist, persist_pending_conflict,
}

not_distinct-some :
    (a : Option String) (h : String) → not_distinct a (some h) ≡ same_hash a (some h)
not_distinct-some none h = refl
not_distinct-some (some g) h = refl

module _ {V : Type 0} where
  -- The insert of an ingestion conflict is refused exactly if the search finds a row.
  abbrev is_found : Option (Conflict V) → Bool
  is_found none = false
  is_found (some c) = true

  collide-new :
      (c d : Conflict V) (h : String)
      → c.status ≡ pending
      → is_patrol c.conflict_type ≡ false
      → c.deferred.content_hash ≡ some h
      → collide d c ≡ (
          str_eq d.existing_id c.existing_id
          && is_pending d.status
          && not_distinct d.deferred.content_hash (some h))
  unfolding collide same_content same_pair
  collide-new c d h p t e =
      rw (p, t, e) (ground (arith, not_distinct-some d.deferred.content_hash h))

  found_or :
      (d : Conflict V) (found : Option (Conflict V)) (b full : Bool)
      → full ≡ is_found found
      → (b || full) ≡ is_found (if b then some d else found)
  found_or d found true full e = refl
  found_or d found false full e = e

  collides-find_content :
      (c : Conflict V) (h : String) (q : List (Conflict V))
      → c.status ≡ pending
      → is_patrol c.conflict_type ≡ false
      → c.deferred.content_hash ≡ some h
      → collides c q ≡ is_found (find_content c.existing_id (some h) q)
  unfolding collides find_content
  collides-find_content c h [] p t e = refl
  collides-find_content c h (d ∷ q) p t e = rw (collide-new c d h p t e) (
      found_or d (find_content c.existing_id (some h) q)
        (str_eq d.existing_id c.existing_id
          && is_pending d.status
          && not_distinct d.deferred.content_hash (some h))
        (collides c q) (collides-find_content c h q p t e))

  find_content-append :
      (c : Conflict V) (h : String) (q : List (Conflict V))
      → c.status ≡ pending
      → c.deferred.content_hash ≡ some h
      → find_content c.existing_id (some h) q ≡ none
      → find_content c.existing_id (some h) (q ++ c ∷ []) ≡ some c
  unfolding find_content
  find_content-append c h [] p e n =
      rw (p, e) (rw ((str_eq_iff c.existing_id c.existing_id).1 refl, (str_eq_iff h h).1 refl) refl)
  find_content-append c h (d ∷ q) p e n =
      elim (Bool-cases (
        str_eq d.existing_id c.existing_id
        && is_pending d.status
        && not_distinct d.deferred.content_hash (some h))) [
          | inl m ↦ cc (rw m at n)
          | inr m ↦ rw m (find_content-append c h q p e (rw m at n))
        ]

  -- What others commit leaves the search for a pending row of the memory and the hash as it is.
  abbrev pub Leaves : String → String → (List (Conflict V) → List (Conflict V)) → Type 0
  Leaves i h others =
      (q : List (Conflict V)) → find_content i (some h) (others q) ≡ find_content i (some h) q

  module _ (others : List (Conflict V) → List (Conflict V)) (h : String) (c : Conflict V)
      (p : c.status ≡ pending) (t : is_patrol c.conflict_type ≡ false)
      (e : c.deferred.content_hash ≡ some h) where
    -- A refused insert answers with what the search finds, or raises.
    persist_refused :
        (d : Conflict V) (q : List (Conflict V))
        → find_content c.existing_id (some h) q ≡ some d
        → persist others c q ≡ (found_id (find_content c.existing_id (some h) (others q)), others q)
    unfolding persist insert_conflict
    persist_refused d q n =
        let full : collides c q ≡ true = collides-find_content c h q p t e ∙ ap is_found n in
        rw (full, e, persist) refl

    -- The answer names the pending row that the search finds afterwards.
    persist_found :
        (q : List (Conflict V))
        → Leaves c.existing_id h others
        → (r : Conflict V) × ((persist others c q).0 ≡ ok r.id)
          × (find_content c.existing_id (some h) (persist others c q).1 ≡ some r)
    unfolding persist insert_conflict
    persist_found q keeps = elim (Option-cases (find_content c.existing_id (some h) q)) [
      | inl n ↦
          let free : collides c q ≡ false = collides-find_content c h q p t e ∙ ap is_found n in
          (c, rw (free, persist) refl, rw (free, persist) (find_content-append c h q p e n))
      | inr (d, n) ↦
          let refused = persist_refused d q n in
          let found : find_content c.existing_id (some h) (others q) ≡ some d = keeps q ∙ n in
          (d, ap (λ x. x.0) refused ∙ ap found_id found, rw refused found)
    ]

  persist_pending_conflict-persist :
      (others : List (Conflict V) → List (Conflict V)) (new_id source i t : String) (d : Deferred V)
      (q : List (Conflict V))
      → str_eq i "" ≡ false
      → persist_pending_conflict others new_id source (conflict i t d) q
        ≡ persist others (new_conflict new_id source i t d.extracted.summary d) q
  unfolding persist_pending_conflict
  persist_pending_conflict-persist others new_id source i t d q e = rw e refl

  -- Provided that what others commit between a refused insert and its search leaves the pending row of
  -- the memory and the hash, a write conflict with an existing memory and a content hash is answered
  -- with the id of a row, and delivering one again with that memory and that hash, by any source and
  -- with any other fields, inserts no row and is answered with the same id.
  pub redelivery :
      (others others' : List (Conflict V) → List (Conflict V))
      (new_id new_id' source source' i t t' h : String) (d d' : Deferred V) (q : List (Conflict V))
      → str_eq i "" ≡ false
      → d.content_hash ≡ some h
      → d'.content_hash ≡ some h
      → Leaves i h others
      → Leaves i h others'
      → let (r, q') = persist_pending_conflict others new_id source (conflict i t d) q in
        (k : String) × (r ≡ ok k)
        × (persist_pending_conflict others' new_id' source' (conflict i t' d') q'
            ≡ (ok k, others' q'))
  redelivery others others' new_id new_id' source source' i t t' h d d' q n e e' keeps keeps' =
      let c = new_conflict new_id source i t d.extracted.summary d in
      let c' = new_conflict new_id' source' i t' d'.extracted.summary d' in
      let same = persist_pending_conflict-persist others new_id source i t d q n in
      let (p, answered, found) = persist_found others h c refl refl e q keeps in
      let q' = (persist others c q).1 in
      (
        p.id,
        ap (λ x. x.0) same ∙ answered,
        rw same (
            persist_pending_conflict-persist others' new_id' source' i t' d' q' n
            ∙ persist_refused others' h c' refl refl e' p q' found
            ∙ rw (keeps' q' ∙ found) refl),
      )

  -- Where others have resolved the row between the refused insert and the search, the delivery raises.
  resolved_meanwhile :
      (others : List (Conflict V) → List (Conflict V)) (new_id source i t h : String)
      (d : Deferred V) (c : Conflict V) (q : List (Conflict V))
      → str_eq i "" ≡ false
      → d.content_hash ≡ some h
      → find_content i (some h) q ≡ some c
      → find_content i (some h) (others q) ≡ none
      → persist_pending_conflict others new_id source (conflict i t d) q
        ≡ (err runtime_error, others q)
  resolved_meanwhile others new_id source i t h d c q n e found gone =
      persist_pending_conflict-persist others new_id source i t d q n
      ∙ persist_refused others h (new_conflict new_id source i t d.extracted.summary d) refl refl e
          c q found
      ∙ rw gone refl
