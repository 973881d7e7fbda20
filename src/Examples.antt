-- ===== src/Examples.antt =====
-- Concrete inputs at which the theorems apply, and tests of the definitions.
mod Toy
mod Journals
mod Registries
mod Stores
mod Peers
mod Wires
mod Prefixes
mod Logs
mod Views
mod Headers
