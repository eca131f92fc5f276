-- ===== src/Strategy.antt =====
-- chain/modules/strategy/types: the messages of the strategy module. The children hold the addresses of contracts
-- (types.go), the templates of prompts, the metadata of a strategy, and the messages themselves (msgs.go).
pub mod Address
pub mod Prompt
pub mod Metadata
pub mod Config
