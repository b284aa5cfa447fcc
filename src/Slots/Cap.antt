-- ===== src/Slots/Cap.antt =====
-- The cap of backend/shared/slots.py over any schedule of calls.
use engineering_memory_agent.Common.{
  ℕ, ◌+◌, ◌-◌, ◌≤◌, ◌≡◌, ap, Option, none, some, List, [], ◌∷◌, arith, All, leb, if◌then◌else◌,
}
use engineering_memory_agent.Slots.{
  SlotLimiter, Call, acquire, done, try_acquire, release, call, run,
}

-- Every limit that the schedule reads is at most `cap`.
abbrev pub Below : ℕ → Call → Type 0
Below cap (acquire limit) = limit ≤ cap
Below cap done = Unit

call_active_le :
    (cap : ℕ) (c : Call) (s : SlotLimiter) → Below cap c → s.active ≤ cap → (call c s).active ≤ cap
unfolding call
call_active_le cap (acquire limit) s h b = ground arith
call_active_le cap done s h b = omega arith

-- Whatever the order of acquisitions and releases, spurious releases included, and whatever limits
-- the acquisitions read, the number of held slots stays within the largest of those limits.
pub run_active_le :
    (cap : ℕ) (cs : List Call) (s : SlotLimiter)
    → All (Below cap) cs
    → s.active ≤ cap
    → (run cs s).active ≤ cap
unfolding run
run_active_le cap [] s h b = b
run_active_le cap (c ∷ cs) s h b =
    run_active_le cap cs (call c s) h.1 (call_active_le cap c s h.0 b)

-- The callers: how many of them hold a slot, counted by the answers they got. A release comes
-- only from a caller that holds one.
abbrev pub holders : List Call → ℕ → SlotLimiter → Option ℕ
holders [] n s = some n
holders (acquire limit ∷ cs) n s =
    let (got, s') = try_acquire limit s in holders cs (if got then n + 1 else n) s'
holders (done ∷ cs) n s = if leb 1 n then holders cs (n - 1) (release s) else none

try_acquire_count :
    (limit n : ℕ) (s : SlotLimiter)
    → s.active ≡ n
    → (try_acquire limit s).1.active ≡ (if (try_acquire limit s).0 then n + 1 else n)
unfolding try_acquire
try_acquire_count limit n s e = ground arith

release_guard :
    (n m : ℕ) (rest : Option ℕ) → (if leb 1 n then rest else none) ≡ some m → rest ≡ some m
release_guard n m rest h = ground arith

-- If every release comes from a caller that holds a slot, the counter is exactly the number of
-- callers that were admitted and have not released: no slot leaks and none is counted twice.
pub run-holders :
    (cs : List Call) (n m : ℕ) (s : SlotLimiter)
    → s.active ≡ n
    → holders cs n s ≡ some m
    → (run cs s).active ≡ m
unfolding run call
run-holders [] n m s e h = ground arith
run-holders (acquire limit ∷ cs) n m s e h =
    run-holders cs (if (try_acquire limit s).0 then n + 1 else n) m (try_acquire limit s).1
      (try_acquire_count limit n s e) h
run-holders (done ∷ cs) n m s e h =
    run-holders cs (n - 1) m (release s) (ap (λ (k : ℕ). k - 1) e)
      (release_guard n m (holders cs (n - 1) (release s)) h)
