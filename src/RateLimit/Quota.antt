-- ===== src/RateLimit/Quota.antt =====
-- What a bucket of backend/api/ratelimit.py grants over time.
use native.Mathlib.Nat.{mul-le-mul_right}
use engineering_memory_agent.Common.{
  ℕ, suc, zero, ◌+◌, ◌*◌, ◌≤◌, ◌<◌, ◌≡◌, refl, sym, ap, ◌∙◌, true, false, List, [], ◌∷◌, ◌++◌,
  replicate, arith, if◌then◌else◌,
}
use engineering_memory_agent.RateLimit.Bucket.{Bucket, fresh, hit}

-- Requests that reach one bucket: for each the quota at the time and the ticks since the one before.
abbrev pub Arrivals : Type 0
Arrivals = List (ℕ × ℕ)

abbrev pub elapsed : Arrivals → ℕ
elapsed [] = 0
elapsed ((requests, gap) ∷ rest) = gap + elapsed rest

-- How many of them are granted.
pub granted : ℕ → Arrivals → Bucket → ℕ
granted second [] b = 0
granted second ((requests, gap) ∷ rest) b =
    let (answer, b') = hit second requests (b.last_refill + gap) b in
    granted second rest b' + (if answer.0 then 1 else 0)

hit_now :
    (second requests n : ℕ) (b : Bucket)
    → b.unlimited ≡ false
    → suc n ≤ requests
    → b.tokens ≡ suc n * b.scale
    → let (answer, b') = hit second requests (b.last_refill + 0) b in
      (answer.0 ≡ true) × (b'.unlimited ≡ false) × (b'.tokens ≡ n * b.scale) × (b'.scale ≡ b.scale)
unfolding hit
hit_now second requests n b u le e = ground (arith, mul-le-mul_right b.scale le)

hit_empty :
    (second requests : ℕ) (b : Bucket)
    → b.unlimited ≡ false
    → b.tokens ≡ 0
    → 0 < b.scale
    → let (answer, b') = hit second requests (b.last_refill + 0) b in
      (answer.0 ≡ false) × (b'.unlimited ≡ false) × (b'.tokens ≡ 0) × (b'.scale ≡ b.scale)
unfolding hit
hit_empty second requests b u e pos = ground arith

none_granted :
    (second requests more : ℕ) (b : Bucket)
    → b.unlimited ≡ false
    → b.tokens ≡ 0
    → 0 < b.scale
    → granted second (replicate more (requests, 0)) b ≡ 0
unfolding granted
none_granted second requests zero b u e pos = refl
none_granted second requests (suc more) b u e pos =
    let (answer, b') = hit second requests (b.last_refill + 0) b in
    let h = hit_empty second requests b u e pos in
    rw h.0 (omega (arith, none_granted second requests more b' h.1 h.2 (omega (arith, h.3))))

all_granted :
    (second requests n more : ℕ) (b : Bucket)
    → b.unlimited ≡ false
    → n ≤ requests
    → b.tokens ≡ n * b.scale
    → 0 < b.scale
    → granted second (replicate n (requests, 0) ++ replicate more (requests, 0)) b ≡ n
unfolding granted
all_granted second requests zero more b u le e pos =
    none_granted second requests more b u (omega (arith, e)) pos
all_granted second requests (suc n) more b u le e pos =
    let (answer, b') = hit second requests (b.last_refill + 0) b in
    let h = hit_now second requests n b u le e in
    rw h.0 (
      omega (
        arith,
        all_granted second requests n more b' h.1 (omega arith)
            (h.2 ∙ ap (λ (k : ℕ). n * k) (sym h.3)) (omega (arith, h.3)),
      ))

-- A bucket made under a quota of n + 1 per window has given one token to the request that made it.
-- Of the requests that follow at the same instant the first n are granted and no more, however many
-- come: a quota of N admits exactly N back-to-back requests.
pub burst_exact :
    (second window now n more : ℕ)
    → 0 < second
    → 0 < window
    → granted second
        (replicate n (n + 1, 0) ++ replicate more (n + 1, 0))
        (fresh second (n + 1) window now)
      ≡ n
burst_exact second window now n more hs hw =
    all_granted second (n + 1) n more (fresh second (n + 1) window now)
      (unfold fresh in ground arith) (omega arith) (unfold fresh in ground arith)
      (unfold fresh in grind arith)
