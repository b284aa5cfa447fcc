-- ===== src/Providers.antt =====
-- The language model providers: the failover of backend/service/llm_service.py and the structured output
-- of backend/service/structured.py. The providers' calls are parameters.
pub mod Failover
pub mod Switch
pub mod Structured
pub mod Attempts
mod Tests
