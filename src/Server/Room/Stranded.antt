-- ===== src/Server/Room/Stranded.antt =====
-- A client that comes between the last look of a start and the disposal of its instance.
use douyin_live.Prelude.{ℕ, ◌≡◌, true, false, List, [], ◌∷◌, none, some, arith}
use douyin_live.Server.Room

-- A start of instance `d` in generation `g` whose client has left, while another client has a
-- reservation.
pub record IsLeft (d g : ℕ) (r : Room.Room) : Type 0 where
  pub open_room : r.closed ≡ false
  pub current : r.generation ≡ g
  pub probed : r.probe_live ≡ some d
  pub left : r.clients ≡ 0
  pub reserved : r.pending ≡ 1
  pub unmonitored : r.monitor ≡ none

-- The end of the start: it disposes of the instance, reports that the room is inactive, and its task
-- ends.
abbrev pub end_of_start : ℕ → ℕ → List Room.Step
end_of_start d g =
    Room.disposes d ∷ Room.clears_starting g ∷ Room.idles ∷ Room.task_ends ∷ Room.idles ∷ []

-- Then the start promotes its instance and sees that the room has no client. If the reserved client
-- is added before the instance is disposed of, no start is begun for it, and the room ends open with
-- this client, but without a listener, a probe, a monitor or a start: nothing is left to connect it.
-- If the client is added after the disposal, a start is begun.
pub run_stranded :
    (d g : ℕ) (r : Room.Room)
    → IsLeft d g r
    → let promoted : Room.Room = (Room.promote_probe d g r).1 in
      let last : Room.Room = Room.run (end_of_start d g) (Room.add_client promoted).1 in
      (Room.gives_up d g promoted ≡ true)
      × ((Room.add_client promoted).0 ≡ false)
      × (last.closed ≡ false)
      × (last.clients ≡ 1)
      × (last.douyin_live ≡ none)
      × (last.probe_live ≡ none)
      × (last.monitor ≡ none)
      × (last.starting ≡ false)
      × ((Room.add_client (Room.dispose_pending d promoted)).0 ≡ true)
unfolding Room.run Room.gives_up Room.promote_probe Room.add_client Room.dispose_pending
run_stranded d g r h = (
  ground arith,
  ground arith,
  ground arith,
  ground arith,
  ground arith,
  ground arith,
  ground arith,
  ground arith,
  ground arith,
)
