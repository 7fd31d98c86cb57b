-- ===== src/Layers.antt =====
-- src/layers: the storage backends.
pub mod Memory
