-- ===== src/Protocol.antt =====
-- libraries/protocol: the types and checks that blocks and transactions are made of.
pub mod Authority
pub mod SignState
pub mod Verify
pub mod AssetSymbol
