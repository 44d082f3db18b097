-- ===== src/Proxy.antt =====
-- The agent's proxy (src/compression_service/app/proxy.py).
pub mod Prompts
pub mod Messages
pub mod Request
pub mod Usage
pub mod Calls
pub mod Services
pub mod Ledger
pub mod Response
pub mod Dispatch
pub mod Reply
pub mod Assembly
pub mod Body
pub mod Tools
pub mod Emit
pub mod Upstream
pub mod Passthrough
pub mod Routing
pub mod Reports
pub mod Transform
pub mod TaskContext
pub mod Translation
mod Tests
