-- ===== src/Tests.antt =====
-- Test data, runs of the model at fixed inputs, and each theorem at an input that exercises it.
mod Data
mod Db
mod Workers
mod Pool
mod Tracker
mod Operator
mod Sessions
mod Swap
mod Requests
mod Alerts
mod Recovery
mod Payments
mod Ledger
mod Pickup
mod Start
mod Monitor
