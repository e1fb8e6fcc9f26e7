-- ===== src/Openhands.antt =====
-- images/openwebui-openhands-proxy/main.go: the proxy between OpenWebUI and OpenHands. It remembers
-- which conversation of OpenHands belongs to which chat thread.
pub mod Store
pub mod Thread
pub mod Handler
pub mod Copying
pub mod Memory
pub mod Run
pub mod Persist
pub mod Retry
pub mod Failure
pub mod Examples
