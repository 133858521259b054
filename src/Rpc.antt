-- ===== src/Rpc.antt =====
-- The RPC framework's fault tolerance (swifty_rpc/internal): breaker, limiter and load balancers.
pub mod Breaker
pub mod Limiter
pub mod Balance
pub mod Frame
mod Tests
