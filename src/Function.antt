-- ===== src/Function.antt =====
-- Introspected functions (gi/function.cpp): the caches that are set up when a function is defined,
-- and a call of it from JavaScript.
pub mod Init
pub mod Counts
pub mod Totals
pub mod Engine
pub mod Invoke
pub mod Call
pub mod Loops
pub mod Ready
pub mod Completes
pub mod Order
pub mod Releases
pub mod Frees
mod Examples
