-- ===== src/Cache.antt =====
-- The argument cache (gi/arg-cache.cpp, gi/arg-cache.h): what is decided once for each argument of
-- an introspected function, before it is ever called.
pub mod Marshallers
pub mod Defs
pub mod Interface
pub mod Tables
pub mod Writes
pub mod Effect
pub mod Kinds
pub mod Build
pub mod Bounds
pub mod Enums
pub mod Integers
pub mod Flags
pub mod Ranges
pub mod Stores
mod Examples
