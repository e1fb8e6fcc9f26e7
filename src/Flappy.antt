-- ===== src/Flappy.antt =====
-- The flappy-race game, images/flappy-race.
pub mod Float
pub mod Fixed
pub mod Rng
pub mod Const
pub mod Birds
pub mod Theme
pub mod Name
pub mod Wire
pub mod World
pub mod Rank
pub mod Store
pub mod Conn
pub mod Hub
pub mod Server
pub mod Client
pub mod Examples
