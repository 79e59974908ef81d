-- ===== src/Server/Tests.antt =====
-- Runs of the rooms and the clients, and their theorems at concrete inputs.
use douyin_live.Prelude.{
  ◌+◌, ◌≡◌, refl, true, false, ◌&&◌, ◌||◌, List, [], ◌∷◌, none, some, ◌==◌, ltb, All,
}
use douyin_live.Server.Client.{Step, sends, takes, finishes, closes, run, new_client}
use douyin_live.Server.Client.Fifo.{IsBounded, passed, run_in_order}
use douyin_live.Server.Room
use douyin_live.Server.Room.Workers.{IsSound, run_new-IsSound}
use douyin_live.Server.Room.Closing.{is_quiet, run_held}
use douyin_live.Server.Room.Stranded.{end_of_start, run_stranded}

-- Two messages, one of them written, and one after the stop.
abbrev three_sends : List Step
three_sends =
    sends (1 ∷ 2 ∷ [])
    ∷ takes
    ∷ sends (3 ∷ [])
    ∷ finishes true
    ∷ takes
    ∷ closes
    ∷ sends (4 ∷ [])
    ∷ finishes true
    ∷ []

three_sends_accepted : (run three_sends new_client).0 ≡ (1 ∷ 2 ∷ []) ∷ (3 ∷ []) ∷ []
unfolding run
three_sends_accepted = refl

three_sends_lost : (run three_sends new_client).1.lost ≡ some (3 ∷ [])
unfolding run
three_sends_lost = refl

run_in_order_example :
    IsBounded (run three_sends new_client).1
    × (passed (run three_sends new_client).1 ≡ (run three_sends new_client).0)
run_in_order_example = run_in_order three_sends

-- A client comes, its start finds the room offline, and a monitor begins; the client leaves.
abbrev offline_visit : List Room.Step
offline_visit =
    Room.reserves
    ∷ Room.adds
    ∷ Room.task_starts none
    ∷ Room.stores 7 0
    ∷ Room.goes_to_monitor false 1 0
    ∷ Room.task_ends
    ∷ Room.idles
    ∷ Room.removes
    ∷ Room.detaches
    ∷ Room.finishes 1
    ∷ Room.idles
    ∷ []

offline_visit_closes : (Room.run offline_visit (Room.new_room true)).closed ≡ true
unfolding Room.run
offline_visit_closes = refl

run_new-IsSound_example : IsSound (Room.run offline_visit (Room.new_room true))
run_new-IsSound_example = run_new-IsSound true offline_visit

quiet_visit : All (λ s. is_quiet s ≡ true) offline_visit
quiet_visit =
    (refl, (refl, (refl, (refl, (refl, (refl, (refl, (refl, (refl, (refl, (refl, tt)))))))))))

run_held_example :
    let r : Room.Room = Room.run offline_visit (Room.new_room true) in
    ((r.closed && ltb 0 (r.clients + r.pending)) ≡ false)
    × (((Room.reserve_client r).0 || (r.clients == 0 && r.pending == 0)) ≡ true)
run_held_example = run_held true offline_visit quiet_visit

-- A first client starts instance 7 and leaves while a second one has a reservation.
abbrev left_room : Room.Room
left_room = record (Room.new_room true) {
  probe_live = some 7;
  pending = 1;
  starting = true;
  active_tasks = 1;
}

left_room-run :
    Room.run
      (Room.reserves
        ∷ Room.adds
        ∷ Room.task_starts none
        ∷ Room.stores 7 0
        ∷ Room.removes
        ∷ Room.reserves
        ∷ Room.detaches
        ∷ [])
      (Room.new_room true)
    ≡ left_room
unfolding Room.run
left_room-run = refl

run_stranded_example :
    let promoted : Room.Room = (Room.promote_probe 7 0 left_room).1 in
    let last : Room.Room = Room.run (end_of_start 7 0) (Room.add_client promoted).1 in
    (Room.gives_up 7 0 promoted ≡ true)
    × ((Room.add_client promoted).0 ≡ false)
    × (last.closed ≡ false)
    × (last.clients ≡ 1)
    × (last.douyin_live ≡ none)
    × (last.probe_live ≡ none)
    × (last.monitor ≡ none)
    × (last.starting ≡ false)
    × ((Room.add_client (Room.dispose_pending 7 promoted)).0 ≡ true)
run_stranded_example = run_stranded 7 0 left_room (record {
  open_room = refl;
  current = refl;
  probed = refl;
  left = refl;
  reserved = refl;
  unmonitored = refl;
})
