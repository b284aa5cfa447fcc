-- ===== src/RateLimit/Table.antt =====
-- The table of buckets: `RateLimiter.allow`, `_prune` and `reset`.
use engineering_memory_agent.Common.{
  ℕ, ◌-◌, ◌*◌, ◌≡◌, ◌↔◌, String, Bool, true, false, ◌&&◌, none, some, [], ◌∷◌, arith, length, leb,
  ltb, str_eq, str_eq_iff, if◌then◌else◌,
}
use engineering_memory_agent.Common.Eq.{Eq}
use engineering_memory_agent.Common.Dict.{Dict, get, put}
use engineering_memory_agent.RateLimit.Bucket.{Bucket, hit, fresh}

pub data Tier : Type 0 where
  chat general : Tier

abbrev pub Key : Type 0
Key = Tier × String

abbrev pub tier_eq : Tier → Tier → Bool
tier_eq chat chat = true
tier_eq general general = true
tier_eq _ _ = false

abbrev pub key_beq : Key → Key → Bool
key_beq (t, k) (u, j) = tier_eq t u && str_eq k j

pub key_beq_iff : (k j : Key) → (key_beq k j ≡ true) ↔ (k ≡ j)
key_beq_iff (t, k) (u, j) = ground (arith, str_eq_iff k j)

instance abbrev pub key_eq : Eq Key
key_eq = record { beq = key_beq; beq_iff = key_beq_iff }

abbrev pub Table : Type 0
Table = Dict Key Bucket

abbrev pub idle_timeout : ℕ
idle_timeout = 600

abbrev pub max_buckets : ℕ
max_buckets = 4096

unfoldable pub is_idle : ℕ → ℕ → Bucket → Bool
is_idle second now b = ltb (idle_timeout * second) (now - b.last_access)

unfoldable pub prune : ℕ → ℕ → Table → Table
prune second now [] = []
prune second now ((k, b) ∷ t) =
    let rest = prune second now t in if is_idle second now b then rest else (k, b) ∷ rest

unfoldable pub make_room : ℕ → ℕ → Table → Table
make_room second now t = if leb max_buckets (length t) then prune second now t else t

unfoldable pub allow : ℕ → Key → ℕ → ℕ → ℕ → Table → (Bool × ℕ) × Table
allow second k requests window now t = elim (get k t) [
  | none ↦ ((true, 0), put k (fresh second requests window now) (make_room second now t))
  | some b ↦ let (answer, b') = hit second requests now b in (answer, put k b' t)
]

pub reset : Table → Table
reset t = []
