-- ===== src/PushRules.antt =====
-- include/mtx/pushrules.hpp and lib/structs/pushrules.cpp: the evaluation of push rules.
pub mod Types
pub mod Values
pub mod Flatten
pub mod Optimized
pub mod Build
pub mod Evaluate
pub mod Reference
pub mod Stored
mod Examples
