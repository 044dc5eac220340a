-- ===== src/Tests.antt =====
-- Runs and instances.
mod Tasks
mod Identities
mod Controllers
mod Terminals
mod Chains
mod Policies
mod Edits
mod Gated
mod Launches
mod Judges
mod Bodies
mod Versions
mod Slugs
