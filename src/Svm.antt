-- ===== src/Svm.antt =====
-- chain/modules/svm: the Solana VM module's transactions, their basic checks and their builder.
pub mod Validate
pub mod Convert
pub mod Ante
