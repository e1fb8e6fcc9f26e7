-- ===== src/Llama.antt =====
-- The proxy between Open WebUI and LlamaStack, images/llamastack-proxy/main.go.
pub mod Keywords
pub mod Types
pub mod Cache
pub mod Setup
pub mod Select
pub mod Order
pub mod Convert
pub mod Chat
pub mod Completion
pub mod Admin
pub mod Passing
pub mod Serve
pub mod Sections
pub mod Blacklist
pub mod Routing
pub mod Rounds
pub mod Examples
