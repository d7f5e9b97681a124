-- ===== src/Examples.antt =====
-- Runs at concrete inputs, and the theorems applied to them.
mod Media
mod Publishing
mod Requests
mod Sessions
mod Wire
mod Hosts
mod Capture
mod Windows
mod Run
