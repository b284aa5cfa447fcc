-- ===== src/Memory/Merging.antt =====
-- The merging of entities and relations in backend/service/memory.py.
use engineering_memory_agent.Common.{
  String, Bool, true, false, ◌||◌, ◌≡◌, refl, sym, ap, ◌∙◌, inl, inr, Option, none, some, List, [],
  ◌∷◌, ◌++◌, arith, str_eq, str_eq_iff, if◌then◌else◌, Bool-cases,
}
use engineering_memory_agent.Common.Eq.{string_eq}
use engineering_memory_agent.Common.Dict.{Dict, get, put, get-put}
use engineering_memory_agent.Memory.Row.{Entity, Relation}
use engineering_memory_agent.Memory.Values.{
  note_entities, values, merge_entities, same_key, seen_key, note_relations, merge_relations,
}

abbrev pub prefer {ℓ} : {A : Type ℓ} → Option A → Option A → Option A
prefer none b = b
prefer (some a) b = some a

-- The last entity of that name, and the first.
unfoldable pub last_named : String → List Entity → Option Entity
last_named n [] = none
last_named n (e ∷ es) = prefer (last_named n es) (if str_eq e.name n then some e else none)

unfoldable pub find_named : String → List Entity → Option Entity
find_named n [] = none
find_named n (e ∷ es) = if str_eq e.name n then some e else find_named n es

prefer-none {ℓ} : {A : Type ℓ} (x : Option A) → prefer x none ≡ x
prefer-none none = refl
prefer-none (some a) = refl

apart_name : (m n : String) → str_eq m "" ≡ true → str_eq n "" ≡ false → str_eq m n ≡ false
apart_name m n h g = ground (arith, str_eq_iff m n, str_eq_iff m "", str_eq_iff n "")

prefer_last {ℓ} :
    {A : Type ℓ} (x d : Option A) (e : A) (b : Bool)
    → prefer x (if b then some e else d) ≡ prefer (prefer x (if b then some e else none)) d
prefer_last none d e true = refl
prefer_last none d e false = refl
prefer_last (some x) d e b = refl

get-note_entities :
    (n : String) (d : Dict String Entity) (es : List Entity)
    → str_eq n "" ≡ false
    → get n (note_entities d es) ≡ prefer (last_named n es) (get n d)
unfolding note_entities last_named
get-note_entities n d [] h = refl
get-note_entities n d (e ∷ es) h = elim (Bool-cases (str_eq e.name "")) [
  | inl m ↦ rw m (
      get-note_entities n d es h
      ∙ ap (λ x. prefer x (get n d))
          (sym (prefer-none (last_named n es)) ∙ rw (apart_name e.name n m h) refl))
  | inr m ↦ rw m (
      get-note_entities n (put e.name e d) es h
      ∙ ap (prefer (last_named n es)) (get-put e.name n e d)
      ∙ prefer_last (last_named n es) (get n d) e (str_eq e.name n))
]

-- Every entity stands under its name.
abbrev IsKeyed : Dict String Entity → Type 0
IsKeyed [] = Unit
IsKeyed ((k, e) ∷ d) = (str_eq e.name k ≡ true) × IsKeyed d

put-IsKeyed : (e : Entity) (d : Dict String Entity) → IsKeyed d → IsKeyed (put e.name e d)
unfolding put
put-IsKeyed e [] h = ground (arith, str_eq_iff e.name e.name)
put-IsKeyed e ((k, f) ∷ d) h = elim (Bool-cases (str_eq k e.name)) [
  | inl m ↦ rw m (ground (arith, str_eq_iff k e.name, str_eq_iff e.name k, m), h.1)
  | inr m ↦ rw m (h.0, put-IsKeyed e d h.1)
]

note_entities-IsKeyed :
    (d : Dict String Entity) (es : List Entity) → IsKeyed d → IsKeyed (note_entities d es)
unfolding note_entities
note_entities-IsKeyed d [] h = h
note_entities-IsKeyed d (e ∷ es) h = elim (Bool-cases (str_eq e.name "")) [
  | inl m ↦ rw m (note_entities-IsKeyed d es h)
  | inr m ↦ rw m (note_entities-IsKeyed (put e.name e d) es (put-IsKeyed e d h))
]

find_named-values :
    (n : String) (d : Dict String Entity) → IsKeyed d → find_named n (values d) ≡ get n d
unfolding find_named values get
find_named-values n [] h = refl
find_named-values n ((k, e) ∷ d) h = ground (
  arith,
  find_named-values n d h.1,
  h.0,
  str_eq_iff e.name k,
  str_eq_iff e.name n,
  str_eq_iff k n,
)

-- Every name has at most one entity in the merged list: for a name that is not empty, the last
-- one that the new side gives, or the last of the existing side where the new one has none. So the new
-- side wins, and no named entity is lost.
pub find_named-merge_entities :
    (n : String) (existing new : List Entity)
    → str_eq n "" ≡ false
    → find_named n (merge_entities existing new) ≡ prefer (last_named n new) (last_named n existing)
unfolding merge_entities get
find_named-merge_entities n existing new h =
    let old = note_entities [] existing in
    find_named-values n (note_entities old new)
      (note_entities-IsKeyed old new (note_entities-IsKeyed [] existing tt))
    ∙ get-note_entities n old new h
    ∙ ap (prefer (last_named n new))
        (get-note_entities n [] existing h ∙ prefer-none (last_named n existing))

same_key_trans : (r q p : Relation) → same_key r q ≡ true → same_key r p ≡ same_key q p
unfolding same_key
same_key_trans r q p h = ground (
  arith,
  str_eq_iff r.source q.source,
  str_eq_iff r.target q.target,
  str_eq_iff r.type q.type,
  str_eq_iff r.source p.source,
  str_eq_iff r.target p.target,
  str_eq_iff r.type p.type,
  str_eq_iff q.source p.source,
  str_eq_iff q.target p.target,
  str_eq_iff q.type p.type,
)

same_key_sym : (r q : Relation) → same_key r q ≡ same_key q r
unfolding same_key
same_key_sym r q = ground (
  arith,
  str_eq_iff r.source q.source,
  str_eq_iff r.target q.target,
  str_eq_iff r.type q.type,
  str_eq_iff q.source r.source,
  str_eq_iff q.target r.target,
  str_eq_iff q.type r.type,
)

seen_key_same :
    (r q : Relation) (qs : List Relation) → same_key r q ≡ true → seen_key r qs ≡ seen_key q qs
unfolding seen_key
seen_key_same r q [] h = refl
seen_key_same r q (p ∷ qs) h =
    cc (seen_key_same r q qs h, same_key_trans r q p h, same_key_sym p r, same_key_sym p q)

seen_key-append :
    (r : Relation) (qs ps : List Relation)
    → seen_key r (qs ++ ps) ≡ (seen_key r qs || seen_key r ps)
unfolding seen_key
seen_key-append r [] ps = refl
seen_key-append r (q ∷ qs) ps = ground (arith, seen_key-append r qs ps)

-- No two relations of the list have one key.
abbrev pub KeysDistinct : List Relation → Type 0
KeysDistinct [] = Unit
KeysDistinct (r ∷ rs) = (seen_key r rs ≡ false) × KeysDistinct rs

seen_key-note_relations :
    (q : Relation) (ms rs : List Relation)
    → seen_key q (note_relations ms rs) ≡ (seen_key q ms || seen_key q rs)
unfolding note_relations seen_key
seen_key-note_relations q ms [] = ground arith
seen_key-note_relations q ms (r ∷ rs) = elim (Bool-cases (seen_key r ms)) [
  | inl m ↦ rw m (
      seen_key-note_relations q ms rs ∙ elim (Bool-cases (same_key r q)) [
        | inl e ↦ ground (arith, seen_key_same r q ms e, m, e)
        | inr e ↦ ground (arith, e)
      ])
  | inr m ↦
      rw m (
        seen_key-note_relations q (ms ++ r ∷ []) rs ∙ ground (arith, seen_key-append q ms (r ∷ [])))
]

KeysDistinct-snoc :
    (r : Relation) (ms : List Relation)
    → seen_key r ms ≡ false
    → KeysDistinct ms
    → KeysDistinct (ms ++ r ∷ [])
unfolding seen_key
KeysDistinct-snoc r [] h d = (refl, tt)
KeysDistinct-snoc r (p ∷ ms) h d = (
  ground (arith, seen_key-append p ms (r ∷ []), same_key_sym p r, d.0),
  KeysDistinct-snoc r ms (ground (arith, h)) d.1,
)

note_relations-KeysDistinct :
    (ms rs : List Relation) → KeysDistinct ms → KeysDistinct (note_relations ms rs)
unfolding note_relations
note_relations-KeysDistinct ms [] d = d
note_relations-KeysDistinct ms (r ∷ rs) d = elim (Bool-cases (seen_key r ms)) [
  | inl m ↦ rw m (note_relations-KeysDistinct ms rs d)
  | inr m ↦ rw m (note_relations-KeysDistinct (ms ++ r ∷ []) rs (KeysDistinct-snoc r ms m d))
]

-- Merging two lists of relations leaves no two with one key, and loses and invents no key.
pub merge_relations_exact :
    (existing new : List Relation)
    → KeysDistinct (merge_relations existing new)
      × ((r : Relation) → seen_key r (merge_relations existing new) ≡ seen_key r (existing ++ new))
unfolding merge_relations seen_key
merge_relations_exact existing new = (
  note_relations-KeysDistinct [] (existing ++ new) tt,
  λ r. seen_key-note_relations r [] (existing ++ new),
)
