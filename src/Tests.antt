-- ===== src/Tests.antt =====
-- The theorems at concrete inputs.
mod Data
mod Withdrawals
mod Accounts
mod Exchange
mod Replay
mod Handlers
mod Rows
mod Adapter
mod Services
mod Users
mod Tickers
mod Deposits
mod Balances
