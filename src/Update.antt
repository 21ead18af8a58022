-- ===== src/Update.antt =====
-- hexstody-db/src/update: the events that change the state, and what they carry.
pub mod Signup
pub mod Withdrawal
pub mod Limit
pub mod Misc
pub mod Btc
pub mod Body
pub mod Tag
pub mod Row
pub mod Channel
