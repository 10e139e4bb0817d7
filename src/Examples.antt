-- ===== src/Examples.antt =====
-- Concrete runs of the definitions, and the theorems at concrete inputs.
mod Formats
mod Names
mod Resources
mod Commands
mod Deploys
mod Access
mod Listing
mod Syncs
