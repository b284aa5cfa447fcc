-- ===== src/Events/Unpruned.antt =====
-- The gate of backend/runner/event_analysis.py against one that never forgets a key.
use engineering_memory_agent.Common.{
  ℕ, ◌≤◌, ◌≡◌, ◌⊎◌, refl, sym, ap, ◌∙◌, inl, inr, arith, Bool, true, not, String, Option, none,
  some, List, [], ◌∷◌, length, filter, ltb, if◌then◌else◌, Bool-cases,
}
use engineering_memory_agent.Common.Eq.{string_eq, ◌=?◌, =?_sound, =?_refl, =?_apart}
use engineering_memory_agent.Common.Dict.{get, put, get-put}
use engineering_memory_agent.Events.Cooldown.{
  Gate, pass, skipped_cooldown, Cooldowns, prune_above, is_cooling, is_expired, prune_expired,
  cooldown_gate, Arrival, run_gate,
}

-- The time of the last analysis of every key.
abbrev pub Memory : Type 0
Memory = String → Option ℕ

unfoldable pub remember : String → ℕ → Memory → Memory
remember key now last k = if key =? k then some now else last k

unfoldable pub ideal_gate : ℕ → ℕ → Option String → Memory → Gate × Memory
unfolding is_cooling
ideal_gate cooldown_seconds now none last = (pass, last)
ideal_gate cooldown_seconds now (some key) last =
    if is_cooling cooldown_seconds now (last key)
    then (skipped_cooldown, last)
    else (pass, remember key now last)

unfoldable pub run_ideal : ℕ → List Arrival → Memory → List Gate
unfolding ideal_gate
run_ideal cooldown_seconds [] last = []
run_ideal cooldown_seconds (a ∷ rest) last =
    let (answer, next) = ideal_gate cooldown_seconds a.now a.key last in
    answer ∷ run_ideal cooldown_seconds rest next

-- The clock does not go back.
abbrev pub IsOrdered : ℕ → List Arrival → Type 0
IsOrdered t [] = Unit
IsOrdered t (a ∷ rest) = (t ≤ a.now) × IsOrdered a.now rest

-- A key stands in the table once.
unfoldable IsTable : Cooldowns → Type 0
IsTable [] = Unit
IsTable ((k, v) ∷ d) = (get k d ≡ none) × IsTable d

put-IsTable : (k : String) (v : ℕ) (d : Cooldowns) → IsTable d → IsTable (put k v d)
unfolding put get IsTable
put-IsTable k v [] h = (refl, tt)
put-IsTable k v ((j, w) ∷ d) h = elim (Bool-cases (j =? k)) [
  | inl e ↦ rw e h
  | inr e ↦
      rw e (get-put k j v d ∙ rw (=?_apart j k j e (=?_refl j)) (h.0), put-IsTable k v d (h.1))
]

-- What a filter on the times leaves of a look-up.
left : (ℕ → Bool) → Option ℕ → Option ℕ
left p none = none
left p (some v) = if p v then some v else none

get-filter :
    (p : ℕ → Bool) (k : String) (d : Cooldowns)
    → IsTable d
    → get k (filter (λ (e : String × ℕ). p e.1) d) ≡ left p (get k d)
unfolding get left IsTable
get-filter p k [] h = refl
get-filter p k ((j, v) ∷ d) h = elim (Bool-cases (p v)) [
  | inl a ↦ elim (Bool-cases (j =? k)) [
    | inl e ↦ rw (a, e, a) refl
    | inr e ↦ rw (a, e) (get-filter p k d (h.1))
  ]
  | inr a ↦ elim (Bool-cases (j =? k)) [
    | inl e ↦
        rw (a, e, a)
          (get-filter p k d (h.1)
            ∙ ap (λ i. left p (get i d)) (sym (=?_sound j k e))
            ∙ rw (h.0) refl)
    | inr e ↦ rw (a, e) (get-filter p k d (h.1))
  ]
]

filter-IsTable :
    (p : ℕ → Bool) (d : Cooldowns) → IsTable d → IsTable (filter (λ (e : String × ℕ). p e.1) d)
unfolding IsTable left
filter-IsTable p [] h = tt
filter-IsTable p ((j, v) ∷ d) h = elim (Bool-cases (p v)) [
  | inl a ↦ rw a (get-filter p j d (h.1) ∙ rw (left, h.0) refl, filter-IsTable p d (h.1))
  | inr a ↦ rw a (filter-IsTable p d (h.1))
]

-- The table may lack a key whose last analysis is out of the window.
unfoldable Forgets : ℕ → ℕ → Option ℕ → Option ℕ → Type 0
Forgets cooldown_seconds now kept none = kept ≡ none
Forgets cooldown_seconds now kept (some v) =
    (kept ≡ some v) ⊎ ((kept ≡ none) × (is_expired cooldown_seconds now v ≡ true))

Forgets-refl : (c now : ℕ) (o : Option ℕ) → Forgets c now o o
unfolding Forgets
Forgets-refl c now none = refl
Forgets-refl c now (some v) = inl refl

Forgets-later :
    (c t now : ℕ) (kept o : Option ℕ) → t ≤ now → Forgets c t kept o → Forgets c now kept o
unfolding Forgets
Forgets-later c t now kept none p h = h
Forgets-later c t now kept (some v) p (inl e) = inl e
Forgets-later c t now kept (some v) p (inr (e, x)) = inr (e, ground arith)

is_cooling-Forgets :
    (c now : ℕ) (kept o : Option ℕ)
    → Forgets c now kept o
    → is_cooling c now kept ≡ is_cooling c now o
unfolding Forgets is_cooling
is_cooling-Forgets c now kept none h = rw h refl
is_cooling-Forgets c now kept (some v) (inl e) = rw e refl
is_cooling-Forgets c now kept (some v) (inr (e, x)) = rw (e, is_cooling) (ground arith)

-- Dropping what is expired keeps the relation.
left-Forgets :
    (c now : ℕ) (kept o : Option ℕ)
    → Forgets c now kept o
    → Forgets c now (left (λ v. not (is_expired c now v)) kept) o
unfolding Forgets left
left-Forgets c now kept none h = rw h refl
left-Forgets c now kept (some v) (inr (e, x)) = inr (rw e refl, x)
left-Forgets c now kept (some v) (inl e) = elim (Bool-cases (is_expired c now v)) [
  | inl x ↦ inr (rw (e, left, x) refl, x)
  | inr x ↦ inl (rw (e, left, x) refl)
]

-- The table is one and every key is as the gate that never forgets has it, or out of the window.
unfoldable Agrees : ℕ → ℕ → Cooldowns → Memory → Type 0
Agrees c now d last = IsTable d × ((k : String) → Forgets c now (get k d) (last k))

Agrees-Forgets :
    (c now : ℕ) (k : String) (d : Cooldowns) (last : Memory)
    → Agrees c now d last
    → Forgets c now (get k d) (last k)
unfolding Agrees
Agrees-Forgets c now k d last a = a.1 k

Agrees-later :
    (c t now : ℕ) (d : Cooldowns) (last : Memory)
    → t ≤ now
    → Agrees c t d last
    → Agrees c now d last
unfolding Agrees
Agrees-later c t now d last p (h, f) = (h, λ k. Forgets-later c t now (get k d) (last k) p (f k))

put-Agrees :
    (c now : ℕ) (key : String) (d : Cooldowns) (last : Memory)
    → Agrees c now d last
    → Agrees c now (put key now d) (remember key now last)
unfolding Agrees remember
put-Agrees c now key d last (h, f) = (
  put-IsTable key now d h,
  λ k. elim (Bool-cases (key =? k)) [
    | inl e ↦ rw (get-put key k now d, e) (Forgets-refl c now (some now))
    | inr e ↦ rw (get-put key k now d, e) (f k)
  ],
)

prune_expired-Agrees :
    (c now : ℕ) (d : Cooldowns) (last : Memory)
    → Agrees c now d last
    → Agrees c now (prune_expired c now d) last
unfolding Agrees prune_expired
prune_expired-Agrees c now d last (h, f) = elim (Bool-cases (ltb prune_above (length d))) [
  | inl e ↦ rw e (
    filter-IsTable (λ v. not (is_expired c now v)) d h,
    λ k.
        rw (get-filter (λ v. not (is_expired c now v)) k d h)
          (left-Forgets c now (get k d) (last k) (f k)),
  )
  | inr e ↦ rw e (h, f)
]

-- One call: the same answer, and the tables agree after it.
cooldown_gate-Agrees :
    (c now : ℕ) (key : Option String) (d : Cooldowns) (last : Memory)
    → Agrees c now d last
    → ((cooldown_gate c now key d).0 ≡ (ideal_gate c now key last).0)
      × Agrees c now (cooldown_gate c now key d).1 (ideal_gate c now key last).1
unfolding cooldown_gate ideal_gate
cooldown_gate-Agrees c now none d last a = (refl, a)
cooldown_gate-Agrees c now (some key) d last a = elim (Bool-cases (is_cooling c now (last key))) [
  | inl e ↦
      rw (is_cooling-Forgets c now (get key d) (last key) (Agrees-Forgets c now key d last a), e)
        (refl, a)
  | inr e ↦
      rw (is_cooling-Forgets c now (get key d) (last key) (Agrees-Forgets c now key d last a), e)
        (
          refl,
          prune_expired-Agrees c now (put key now d) (remember key now last)
              (put-Agrees c now key d last a),
        )
]

run_gate-Agrees :
    (c t : ℕ) (arrivals : List Arrival) (d : Cooldowns) (last : Memory)
    → IsOrdered t arrivals
    → Agrees c t d last
    → run_gate c arrivals d ≡ run_ideal c arrivals last
unfolding run_gate run_ideal
run_gate-Agrees c t [] d last o a = refl
run_gate-Agrees c t (r ∷ rest) d last o a =
    let step = cooldown_gate-Agrees c r.now r.key d last (Agrees-later c t r.now d last (o.0) a) in
    let d' = (cooldown_gate c r.now r.key d).1 in
    let last' = (ideal_gate c r.now r.key last).1 in
    ap (λ g. g ∷ run_gate c rest d') (step.0)
    ∙ ap (λ gs. (ideal_gate c r.now r.key last).0 ∷ gs)
        (run_gate-Agrees c r.now rest d' last' (o.1) (step.1))

-- From the empty table, and while the clock does not go back, the gate answers every call as the gate
-- that never forgets a key does: pruning the table changes no answer.
pub run_gate-run_ideal :
    (cooldown_seconds : ℕ) (arrivals : List Arrival)
    → IsOrdered 0 arrivals
    → run_gate cooldown_seconds arrivals [] ≡ run_ideal cooldown_seconds arrivals (λ key. none)
unfolding Agrees IsTable Forgets get
run_gate-run_ideal c arrivals o = run_gate-Agrees c 0 arrivals [] (λ key. none) o (tt, λ k. refl)
