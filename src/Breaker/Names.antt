-- ===== src/Breaker/Names.antt =====
-- Lookups in the breaker registry of backend/shared/resilience.py.
use engineering_memory_agent.Common.{
  String, false, ◌≡◌, refl, inl, inr, [], ◌∷◌, arith, str_eq, str_eq_iff, Bool-cases,
}
use engineering_memory_agent.Breaker.{CircuitBreaker, Registry, get_circuit_breaker, put}

get_put_same :
    (name : String) (b : CircuitBreaker) (reg : Registry)
    → get_circuit_breaker name (put name b (get_circuit_breaker name reg).1)
      ≡ (b, put name b (get_circuit_breaker name reg).1)
unfolding get_circuit_breaker put
get_put_same name b [] =
    rw ((str_eq_iff name name).1 refl) (rw ((str_eq_iff name name).1 refl) refl)
get_put_same name b ((n, c) ∷ reg) = elim (Bool-cases (str_eq n name)) [
  | inl m ↦ rw m (rw m (rw m refl))
  | inr m ↦ rw m (rw m (rw (m, get_put_same name b reg) refl))
]

get_put_other :
    (name other : String) (b : CircuitBreaker) (reg : Registry)
    → str_eq name other ≡ false
    → (get_circuit_breaker other (put name b (get_circuit_breaker name reg).1)).0
      ≡ (get_circuit_breaker other reg).0
unfolding get_circuit_breaker put
get_put_other name other b [] apart = rw ((str_eq_iff name name).1 refl) (rw apart refl)
get_put_other name other b ((n, c) ∷ reg) apart = elim (Bool-cases (str_eq n name)) [
  | inl m ↦
      let apart' : str_eq n other ≡ false =
        ground (arith, str_eq_iff n name, str_eq_iff n other, str_eq_iff name other) in
      rw m (rw m (rw apart' refl))
  | inr m ↦ rw m (
      rw m (elim (Bool-cases (str_eq n other)) [
        | inl o ↦ rw o refl
        | inr o ↦ rw o (get_put_other name other b reg apart)
      ]))
]

-- A call looks its breaker up by name, making it if it is missing, and leaves it in a new state:
-- the next call of that name finds exactly this state and makes no other breaker, and a call of
-- another name finds what it would have found without.
pub breaker_per_name :
    (name other : String) (b : CircuitBreaker) (reg : Registry)
    → str_eq name other ≡ false
    → let reg' = put name b (get_circuit_breaker name reg).1 in
      (get_circuit_breaker name reg' ≡ (b, reg'))
      × ((get_circuit_breaker other reg').0 ≡ (get_circuit_breaker other reg).0)
breaker_per_name name other b reg apart =
    (get_put_same name b reg, get_put_other name other b reg apart)
