-- ===== src/Retrieval/Embed.antt =====
-- The cache of query embeddings in backend/service/retrieval/retrieval.py against the embedding itself.
use engineering_memory_agent.Common.{
  ◌+◌, ◌-◌, ◌≤◌, ◌<◌, ◌≡◌, ◌⊎◌, refl, sym, ap, ◌∙◌, subst, inl, inr, arith, Bool, true, false, not,
  String, Option, none, some, List, [], ◌∷◌, ◌++◌, length, length-append, filter, All, All-map,
  All-filter, str_eq, str_eq_iff, leb, Bool-cases, Option-cases, some_inj, All-filter_test,
}
use engineering_memory_agent.Common.Eq.{string_eq, =?_refl}
use engineering_memory_agent.Common.Dict.{get}
use engineering_memory_agent.Retrieval.Cache.{
  Cache, Query, query_embed_cache_max, without_key, set_newest, pop_oldest, look_up, store,
  after_provider, after_look, embed_query, run_queries,
}

length-filter_le {ℓ} : {A : Type ℓ} (p : A → Bool) (xs : List A) → length (filter p xs) ≤ length xs
length-filter_le p [] = omega arith
length-filter_le p (x ∷ xs) = elim (Bool-cases (p x)) [
  | inl e ↦ rw e (omega (arith, length-filter_le p xs))
  | inr e ↦ rw e (omega (arith, length-filter_le p xs))
]

module _ {V : Type 0} (embed : String → V) where
  abbrev pub IsEmbedding : String × V → Type 0
  IsEmbedding e = e.1 ≡ embed e.0

  -- The cache holds embeddings, and at most 1024.
  pub record IsValid (cache : Cache V) : Type 0 where
    pub sound : All IsEmbedding cache
    pub capped : length cache ≤ query_embed_cache_max

  get_sound :
      (k : String) (v : V) (cache : Cache V)
      → All IsEmbedding cache
      → get k cache ≡ some v
      → v ≡ embed k
  unfolding get
  get_sound k v [] h e = absurd (cc e)
  get_sound k v ((j, w) ∷ cache) h e = elim (Bool-cases (str_eq j k)) [
    | inl f ↦ sym (some_inj (cc (rw f at e))) ∙ h.0 ∙ ap embed ((str_eq_iff j k).0 f)
    | inr f ↦ get_sound k v cache h.1 (cc (rw f at e))
  ]

  All-append_one :
      (cache : Cache V) (e : String × V)
      → All IsEmbedding cache
      → IsEmbedding e
      → All IsEmbedding (cache ++ (e ∷ []))
  All-append_one [] e h k = (k, tt)
  All-append_one (c ∷ cache) e h k = (h.0, All-append_one cache e h.1 k)

  get-append_one :
      (k : String) (v : V) (cache : Cache V)
      → All (λ (e : String × V). str_eq e.0 k ≡ false) cache
      → get k (cache ++ ((k, v) ∷ [])) ≡ some v
  unfolding get
  get-append_one k v [] h = rw (=?_refl k) refl
  get-append_one k v (c ∷ cache) h = rw h.0 (get-append_one k v cache h.1)

  others_differ :
      (k : String) (cache : Cache V)
      → All (λ (e : String × V). str_eq e.0 k ≡ false) (without_key k cache)
  unfolding without_key
  others_differ k cache =
      All-map (λ (e : String × V). not (str_eq e.0 k) ≡ true)
        (λ (e : String × V). str_eq e.0 k ≡ false) (λ e h. ground arith)
        (filter (λ (e : String × V). not (str_eq e.0 k)) cache)
        (All-filter_test (λ (e : String × V). not (str_eq e.0 k)) cache)

  set_newest-IsEmbedding :
      (k : String) (v : V) (cache : Cache V)
      → All IsEmbedding cache
      → v ≡ embed k
      → All IsEmbedding (set_newest k v cache)
  unfolding set_newest without_key
  set_newest-IsEmbedding k v cache h e =
      All-append_one (without_key k cache) (k, v)
        (All-filter IsEmbedding (λ (e : String × V). not (str_eq e.0 k)) cache h) e

  get-set_newest : (k : String) (v : V) (cache : Cache V) → get k (set_newest k v cache) ≡ some v
  unfolding set_newest
  get-set_newest k v cache = get-append_one k v (without_key k cache) (others_differ k cache)

  length-set_newest_le :
      (k : String) (v : V) (cache : Cache V) → length (set_newest k v cache) ≤ length cache + 1
  unfolding set_newest without_key
  length-set_newest_le k v cache = omega (
    arith,
    length-append (without_key k cache) ((k, v) ∷ []),
    length-filter_le (λ (e : String × V). not (str_eq e.0 k)) cache,
  )

  pop-IsEmbedding : (cache : Cache V) → All IsEmbedding cache → All IsEmbedding (pop_oldest cache)
  unfolding pop_oldest
  pop-IsEmbedding [] h = tt
  pop-IsEmbedding (c ∷ cache) h = h.1

  length-pop : (cache : Cache V) → length (pop_oldest cache) ≡ length cache - 1
  unfolding pop_oldest
  length-pop [] = omega arith
  length-pop (c ∷ cache) = omega arith

  -- Dropping the oldest of several entries keeps the newest.
  get-pop :
      (k : String) (v : V) (before : Cache V)
      → All (λ (e : String × V). str_eq e.0 k ≡ false) before
      → 1 < length (before ++ ((k, v) ∷ []))
      → get k (pop_oldest (before ++ ((k, v) ∷ []))) ≡ some v
  unfolding pop_oldest
  get-pop k v [] h l = absurd (omega arith)
  get-pop k v (c ∷ before) h l = get-append_one k v before h.1

  pop_newest :
      (k : String) (v : V) (cache : Cache V)
      → 1 < length (set_newest k v cache)
      → get k (pop_oldest (set_newest k v cache)) ≡ some v
  unfolding set_newest
  pop_newest k v cache h = get-pop k v (without_key k cache) (others_differ k cache) h

  -- Moving an entry that is there does not make the cache longer.
  length-move_le :
      (k : String) (v : V) (cache : Cache V)
      → get k cache ≡ some v
      → length (without_key k cache) + 1 ≤ length cache
  unfolding get without_key
  length-move_le k v [] e = absurd (cc e)
  length-move_le k v ((j, w) ∷ cache) e = elim (Bool-cases (str_eq j k)) [
    | inl f ↦ rw f (omega (arith, length-filter_le (λ (e : String × V). not (str_eq e.0 k)) cache))
    | inr f ↦ rw f (omega (arith, length-move_le k v cache (cc (rw f at e))))
  ]

  store-IsValid :
      (k : String) (v : V) (cache : Cache V)
      → IsValid cache
      → v ≡ embed k
      → IsValid (store k v cache) × (get k (store k v cache) ≡ some v)
  unfolding store
  store-IsValid k v cache h e =
      let grown = set_newest k v cache in
      let sound = set_newest-IsEmbedding k v cache h.sound e in
      elim (Bool-cases (leb (length grown) query_embed_cache_max)) [
        | inl f ↦
            rw f (record { sound = sound; capped = ground (arith, f) }, get-set_newest k v cache)
        | inr f ↦ rw f (
          record {
            sound = pop-IsEmbedding grown sound;
            capped = omega (arith, length-pop grown, length-set_newest_le k v cache, h.capped);
          },
          pop_newest k v cache (ground (arith, f)),
        )
      ]

  hit-IsValid :
      (k : String) (v : V) (cache : Cache V)
      → IsValid cache
      → get k cache ≡ some v
      → IsValid (set_newest k v cache)
  unfolding set_newest
  hit-IsValid k v cache h e = record {
    sound = set_newest-IsEmbedding k v cache h.sound (get_sound k v cache h.sound e);
    capped = omega (
      arith,
      length-append (without_key k cache) ((k, v) ∷ []),
      length-move_le k v cache e,
      h.capped,
    );
  }

  -- What a call may answer, and the cache it leaves: the embedding, which is then in the cache, or
  -- nothing where the provider raises.
  abbrev pub Answers : Query V → Option V × Cache V → Type 0
  Answers r (answer, next) =
      IsValid next
      × (((answer ≡ some (embed r.query)) × (get r.query next ≡ some (embed r.query)))
          ⊎ ((answer ≡ none) × (r.provider r.query ≡ none)))

  -- The provider answers with the embedding or raises, and the others keep the cache as it should be.
  pub record IsReliable (r : Query V) : Type 0 where
    pub faithful : (r.provider r.query ≡ some (embed r.query)) ⊎ (r.provider r.query ≡ none)
    pub others_keep : (cache : Cache V) → IsValid cache → IsValid (r.others cache)

  look_up_miss :
      (k : String) (cache : Cache V) → get k cache ≡ none → look_up k cache ≡ (none, cache)
  unfolding look_up
  look_up_miss k cache e = rw (e, look_up) refl

  look_up_hit :
      (k : String) (v : V) (cache : Cache V)
      → get k cache ≡ some v
      → look_up k cache ≡ (some v, set_newest k v cache)
  unfolding look_up
  look_up_hit k v cache e = rw (e, look_up) refl

  miss-Answers :
      (r : Query V) (cache : Cache V)
      → IsReliable r
      → IsValid cache
      → Answers r (after_look r.provider r.others r.query (none, cache))
  unfolding after_look after_provider
  miss-Answers r cache h valid =
      let kept = h.others_keep cache valid in
      elim h.faithful [
        | inl e ↦
            let (left, found) = store-IsValid r.query (embed r.query) (r.others cache) kept refl in
            subst (λ o. Answers r (after_provider r.query o (r.others cache))) (sym e)
              (left, inl (refl, found))
        | inr e ↦
            subst (λ o. Answers r (after_provider r.query o (r.others cache))) (sym e)
              (kept, inr (refl, e))
      ]

  embed_query-Answers :
      (r : Query V) (cache : Cache V)
      → IsReliable r
      → IsValid cache
      → Answers r (embed_query r.provider r.others r.query cache)
  unfolding embed_query after_look
  embed_query-Answers r cache h valid =
      let after = after_look r.provider r.others r.query in
      elim (Option-cases (get r.query cache)) [
        | inl miss ↦
            subst (λ l. Answers r (after l)) (sym (look_up_miss r.query cache miss))
              (miss-Answers r cache h valid)
        | inr (v, hit) ↦
            let same = get_sound r.query v cache valid.sound hit in
            subst (λ l. Answers r (after l)) (sym (look_up_hit r.query v cache hit))
              (
                hit-IsValid r.query v cache valid hit,
                inl (ap some same, get-set_newest r.query v cache ∙ ap some same),
              )
      ]

  -- The answers to a run of calls.
  abbrev pub AllAnswer : List (Query V) → List (Option V) → Type 0
  AllAnswer [] [] = Unit
  AllAnswer [] (a ∷ rest) = ⊥
  AllAnswer (r ∷ rs) [] = ⊥
  AllAnswer (r ∷ rs) (a ∷ rest) =
      ((a ≡ some (embed r.query)) ⊎ ((a ≡ none) × (r.provider r.query ≡ none))) × AllAnswer rs rest

  -- The cache is invisible: in any run of queries, with anything that others do to the cache between
  -- a miss and its store as long as they keep it sound and within its maximum, each query is answered
  -- by its own embedding, or not at all where the provider raises. The cache stays sound and holds at
  -- most 1024 entries.
  pub run_queries-IsValid :
      (rs : List (Query V)) (cache : Cache V)
      → All IsReliable rs
      → IsValid cache
      → let (answers, next) = run_queries rs cache in AllAnswer rs answers × IsValid next
  unfolding run_queries
  run_queries-IsValid [] cache h valid = (tt, valid)
  run_queries-IsValid (r ∷ rs) cache h valid =
      let (kept, answer) = embed_query-Answers r cache h.0 valid in
      let (rest, last) =
        run_queries-IsValid rs (embed_query r.provider r.others r.query cache).1 h.1 kept in
      ((elim answer [ inl (a, _) ↦ inl a | inr n ↦ inr n ], rest), last)
