-- ===== src/State.antt =====
-- hexstody-db/src/state: the state of the custody.
pub mod Transaction
pub mod Withdraw
pub mod Exchange
pub mod User
pub mod Core
pub mod Accounts
pub mod Withdrawals
pub mod Limits
pub mod Orders
pub mod Chain
pub mod Apply
