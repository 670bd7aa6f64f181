-- ===== src/Cache.antt =====
-- infrastructure/hyperloom/sglang-owner-adapter/cache_policy_model.py: the pool of recurrent
-- checkpoints, with its tree, its locks and its two ways of giving a state up.
pub mod Pool
pub mod Requests
pub mod Nodes
pub mod Use
pub mod Accounting
pub mod Held
pub mod Matching
pub mod Kept
pub mod Locks
mod Tests
