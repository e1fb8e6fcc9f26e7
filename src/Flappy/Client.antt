-- ===== src/Flappy/Client.antt =====
-- The game client's logic, internal/client: what it keeps of the server's frames, and how it
-- reconnects; of the drawing, the cache of labels.
pub mod Ring
pub mod Clock
pub mod Backoff
pub mod Entry
pub mod Hud
pub mod Labels
pub mod Game
pub mod Net
