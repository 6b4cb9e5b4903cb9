-- ===== src/Poi.antt =====
-- pkg/poi: proofs of innocence. A list vouches for commitments; the wallet spends only what all
-- active lists hold valid.
pub mod Manager
