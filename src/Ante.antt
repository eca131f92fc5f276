-- ===== src/Ante.antt =====
-- chain/app/ante: the ante handler of web3 transactions. The children hold the gas of signatures (ante.go)
-- and the decorator that takes the fee (fee.go).
pub mod Gas
pub mod Fee
pub mod Wrap
pub mod Verify
pub mod Handler
