-- ===== src/Store.antt =====
-- The proof store: src/block_index.rs (`Index`) and src/blockfile.rs (`Proofs`, `Laws`).
pub mod Index
pub mod Proofs
pub mod Laws
pub mod Truncate
