-- ===== src/Flappy/Examples.antt =====
-- The theorems of the game on concrete inputs.
pub mod Hub
pub mod Parts
pub mod Client
pub mod Server
pub mod Net
pub mod Labels
