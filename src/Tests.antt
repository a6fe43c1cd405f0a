-- ===== src/Tests.antt =====
-- Witnesses of the theorems, and tests, on a concrete instance of the Core crate.
mod Host
mod Relay
mod Documents
mod Sample
mod Running
mod Model
mod Connection
mod Profiles
mod Routing
mod Localization
mod Worker
