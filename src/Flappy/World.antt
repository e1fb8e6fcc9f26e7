-- ===== src/Flappy/World.antt =====
-- internal/game/world.go: the race simulation. `none` is a nil pointer dereference, or the spawn loop
-- out of fuel.
pub mod Defs
pub mod Step
pub mod Total
pub mod Racers
pub mod Ticks
pub mod Survival
pub mod Pipes
