-- ===== src/Object.antt =====
-- ObjectInstance (gi/object.cpp): how the JS wrapper of a GObject is rooted and unrooted as the
-- GObject's references come and go. `none` is an abort: a failed assertion or a `g_error`.
mod Defs
pub mod Phases
pub mod Invariant
pub mod Settles
pub mod Notify
pub mod Protocol
pub mod Race
pub mod Clearing
mod Examples
