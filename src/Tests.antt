-- ===== src/Tests.antt =====
-- Concrete runs of the modelled code, at which the theorems apply.
mod Cash
mod Sending
mod Queue
mod Rules
mod Account
mod Values
mod Decisions
mod Approvals
mod Clocks
mod Running
mod Journals
mod Sessions
mod Opening
