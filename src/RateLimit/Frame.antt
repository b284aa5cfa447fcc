-- ===== src/RateLimit/Frame.antt =====
-- The table of backend/api/ratelimit.py: how one key's requests bear on the other keys, and how
-- large the table grows.
use engineering_memory_agent.Common.{
  ℕ, ◌+◌, ◌≡◌, ◌≢◌, refl, ap, ◌∙◌, true, false, none, some, [], ◌∷◌, All, length, leb, Bool-cases,
  Option-cases, inl, inr,
}
use engineering_memory_agent.Common.Eq.{◌=?◌, =?_sound}
use engineering_memory_agent.Common.Dict.{get, get-put, length-put}
use engineering_memory_agent.RateLimit.Bucket.{Bucket, fresh}
use engineering_memory_agent.RateLimit.Table.{
  Key, Table, key_eq, max_buckets, is_idle, prune, make_room, allow,
}

=?_ne : (k j : Key) → k ≢ j → (k =? j) ≡ false
=?_ne k j ne = elim (Bool-cases (k =? j)) [ inl e ↦ absurd (ne (=?_sound k j e)) | inr e ↦ e ]

-- Pruning drops no bucket that was used within the idle timeout.
get-prune :
    (second now : ℕ) (k : Key) {b : Bucket} (t : Table)
    → get k t ≡ some b
    → is_idle second now b ≡ false
    → get k (prune second now t) ≡ some b
unfolding get prune
get-prune second now k [] h i = h
get-prune second now k {b} ((j, c) ∷ t) h i = elim (Bool-cases (j =? k)) [
  | inl e ↦
      let same : c ≡ b = cc (rw e at h) in rw (ap (is_idle second now) same ∙ i, e) (ap some same)
  | inr e ↦
      let kept = get-prune second now k t (rw e at h) i in
      elim (Bool-cases (is_idle second now c)) [
        | inl gone ↦ rw gone kept
        | inr stays ↦ rw (stays, e) kept
      ]
]

-- A request under one key leaves every other key's bucket as it was, unless that bucket has been
-- idle past the timeout.
pub allow_frame :
    (second requests window now : ℕ) (k j : Key) (b : Bucket) (t : Table)
    → k ≢ j
    → get j t ≡ some b
    → is_idle second now b ≡ false
    → get j (allow second k requests window now t).1 ≡ some b
unfolding allow
allow_frame second requests window now k j b t ne h i =
    let room : get j (make_room second now t) ≡ some b =
      unfold make_room in
      elim (Bool-cases (leb max_buckets (length t))) [
        | inl full ↦ rw full (get-prune second now j t h i)
        | inr roomy ↦ rw roomy h
      ] in
    elim (Option-cases (get k t)) [
      | inl e ↦ rw (e, allow) (rw (get-put, =?_ne k j ne) room)
      | inr (c, e) ↦ rw (e, allow) (rw (get-put, =?_ne k j ne) h)
    ]

-- Every bucket was used within the idle timeout.
abbrev Busy : ℕ → ℕ → Key × Bucket → Type 0
Busy second now e = is_idle second now e.1 ≡ false

prune-Busy : (second now : ℕ) (t : Table) → All (Busy second now) t → prune second now t ≡ t
unfolding prune
prune-Busy second now [] h = refl
prune-Busy second now ((k, b) ∷ t) h =
    rw h.0 (ap (λ (r : Table). (k, b) ∷ r) (prune-Busy second now t h.1))

-- While no bucket is idle past the timeout, a request under a key that the table lacks is granted
-- and makes the table longer by one, also when it already holds `max_buckets` buckets or more: the
-- cap does not bound the table.
pub cap_exceeded :
    (second requests window now : ℕ) (k : Key) (t : Table)
    → All (Busy second now) t
    → get k t ≡ none
    → ((allow second k requests window now t).0 ≡ (true, 0))
      × (length (allow second k requests window now t).1 ≡ length t + 1)
unfolding allow
cap_exceeded second requests window now k t busy h =
    let room : make_room second now t ≡ t =
      unfold make_room in
      elim (Bool-cases (leb max_buckets (length t))) [
        | inl full ↦ rw full (prune-Busy second now t busy)
        | inr roomy ↦ rw roomy
      ] in
    rw (h, allow) (refl, rw room (length-put k (fresh second requests window now) t ∙ rw h))
