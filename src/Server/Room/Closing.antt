-- ===== src/Server/Room/Closing.antt =====
-- A room that is not closed on purpose is closed only while nobody holds it.
use douyin_live.Prelude.{
  ◌+◌, ltb, ◌≡◌, refl, Bool, true, false, ◌||◌, ◌&&◌, List, [], ◌∷◌, ◌==◌, arith, All,
}
use douyin_live.Server.Room

-- The step is not `Close`.
abbrev pub is_quiet : Room.Step → Bool
is_quiet Room.closes = false
is_quiet _ = true

-- A closed room has no clients and no reservations.
pub record IsFree (r : Room.Room) : Type 0 where
  pub no_clients : r.closed ≡ true → r.clients ≡ 0
  pub no_reservations : r.closed ≡ true → r.pending ≡ 0

step-IsFree :
    (s : Room.Step) (r : Room.Room) → is_quiet s ≡ true → IsFree r → IsFree (Room.step s r)
unfolding Room.step
step-IsFree s r q f = ground arith

run-IsFree :
    (steps : List Room.Step) (r : Room.Room)
    → All (λ s. is_quiet s ≡ true) steps
    → IsFree r
    → IsFree (Room.run steps r)
unfolding Room.run
run-IsFree [] r q f = f
run-IsFree (s ∷ steps) r q f = run-IsFree steps (Room.step s r) q.1 (step-IsFree s r q.0 f)

-- In a room that begins new and on which `Close` is not called, whatever its tasks do: while it has
-- a client or a reservation it is open, and where a reservation fails the room has neither.
pub run_held :
    (anonymous : Bool) (steps : List Room.Step)
    → All (λ s. is_quiet s ≡ true) steps
    → let r : Room.Room = Room.run steps (Room.new_room anonymous) in
      ((r.closed && ltb 0 (r.clients + r.pending)) ≡ false)
      × (((Room.reserve_client r).0 || (r.clients == 0 && r.pending == 0)) ≡ true)
unfolding Room.reserve_client
run_held anonymous steps q =
    let r : Room.Room = Room.run steps (Room.new_room anonymous) in
    let f : IsFree r =
      run-IsFree steps (Room.new_room anonymous) q
        (record { no_clients = λ e. refl; no_reservations = λ e. refl }) in
    (
      ground (arith, f.no_clients, f.no_reservations),
      ground (arith, f.no_clients, f.no_reservations),
    )
