-- ===== src/Server/Room/Workers.antt =====
-- Which workers a room has: the listener, the probe and the monitor.
use douyin_live.Prelude.{ltb, ◌≡◌, Bool, true, ◌||◌, ◌&&◌, not, List, [], ◌∷◌, ◌==◌, arith}
use douyin_live.Server.Room

-- A monitor is of the room's generation, and there is none beside a listener; a probe without a
-- cookie has failed less than three times, and failures are counted only for a probe; a closed room
-- has neither listener nor probe.
pub record IsSound (r : Room.Room) : Type 0 where
  pub current : (Room.is_none r.monitor || Room.is_of r.monitor r.generation) ≡ true
  pub exclusive : (Room.is_none r.douyin_live || Room.is_none r.monitor) ≡ true
  pub patient : (not r.anonymous || ltb r.probe_failures 3) ≡ true
  pub counted : (not (Room.is_none r.probe_live) || r.probe_failures == 0) ≡ true
  pub at_rest : (not r.closed || (Room.is_none r.douyin_live && Room.is_none r.probe_live)) ≡ true

step-IsSound : (s : Room.Step) (r : Room.Room) → IsSound r → IsSound (Room.step s r)
unfolding Room.step
step-IsSound s r i = ground arith

run-IsSound : (steps : List Room.Step) (r : Room.Room) → IsSound r → IsSound (Room.run steps r)
unfolding Room.run
run-IsSound [] r i = i
run-IsSound (s ∷ steps) r i = run-IsSound steps (Room.step s r) (step-IsSound s r i)

new_room-IsSound : (anonymous : Bool) → IsSound (Room.new_room anonymous)
new_room-IsSound anonymous = ground arith

-- In a room that begins new, whatever its tasks do in whatever order: a monitor is of the room's
-- generation and never beside a listener, a probe without a cookie has failed less than three times
-- in a row, and a closed room has neither a listener nor a probe.
pub run_new-IsSound :
    (anonymous : Bool) (steps : List Room.Step) → IsSound (Room.run steps (Room.new_room anonymous))
run_new-IsSound anonymous steps =
    run-IsSound steps (Room.new_room anonymous) (new_room-IsSound anonymous)
