-- ===== src/Flappy/Hub/Handlers.antt =====
-- internal/server/hub.go: the handlers of the hub's events and its tick.
pub mod Race
pub mod Join
pub mod Flap
pub mod Leave
pub mod Tick
unfoldable pub use hmlb.Flappy.Hub.Handlers.Race.{
  race_entry, idle, place_racer, admit_racer, admit_all, begin_countdown, open_results, ranked,
  finish_race,
}
pub use hmlb.Flappy.Hub.Handlers.Join.{JoinReply, joined, refused}
unfoldable pub use hmlb.Flappy.Hub.Handlers.Join.{
  new_session, assign_bird, enrolled, enter_race, admit, handle_join,
}
unfoldable pub use hmlb.Flappy.Hub.Handlers.Flap.{
  counted, put_session, find_session, pend, count_flap, flap_in_race, flap_in, handle_flap,
}
unfoldable pub use hmlb.Flappy.Hub.Handlers.Leave.{
  departed, leave_line_up, leave_countdown, leave_flight, leave_race, leave_results, leave_in,
  close_conn, leave_session, handle_leave,
}
unfoldable pub use hmlb.Flappy.Hub.Handlers.Tick.{
  tick_countdown, settle, tick_race, next_race, tick_results, tick_in, tick,
}
