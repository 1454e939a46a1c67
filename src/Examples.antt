-- ===== src/Examples.antt =====
-- The theorems at concrete inputs, and runs of the definitions.
mod Waves
mod Migrations
mod Manifest
mod Kits
mod Locks
mod Files
mod Projects
mod Variants
mod Ssm
mod Amis
