-- ===== src/Flappy/Hub.antt =====
-- internal/server/hub.go: the owner of all game state.
pub mod Defs
pub mod Frames
pub mod Handlers
pub mod Invariant
pub mod Sending
pub mod Roster
pub mod Admission
pub mod Names
pub mod Wiring
pub mod Enter
pub mod Join
pub mod Finish
pub mod Ticks
pub mod Departure
pub mod LineUp
pub mod Flight
pub mod Leave
pub mod Flap
pub mod Events
pub mod Phase
pub mod Touch
pub mod Bystander
pub mod Seats
pub mod Arrivals
pub mod Answers
pub mod Departures
pub mod Duration
pub mod Safety
pub mod Racing
pub mod Liveness
