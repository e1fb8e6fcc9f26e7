-- ===== src/Flappy/Store.antt =====
-- internal/server/store.go: the all-time leaderboard and what is remembered of each username.
pub mod Defs
pub mod Saving
pub mod Records
pub mod Board
