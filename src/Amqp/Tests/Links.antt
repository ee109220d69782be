-- ===== src/Amqp/Tests/Links.antt =====
-- A thread that sends heartbeats, and a socket that does not connect.
use limb_worker.Prelude.{
  ℕ, ◌+◌, ◌≡◌, ◌↔◌, refl, Bool, true, false, List, [], ◌∷◌, arith, if◌then◌else◌, Outcome,
}
use limb_worker.Amqp.Heartbeats.{
  Tick, Rounds, heartbeater, beat, duration_count, heartbeater-Rounds,
}
use limb_worker.Amqp.Socket.{
  SocketCall, System, set_up, open_socket, made_sockets, closed_sockets, open_socket_lem,
}

abbrev wakes : ℕ → ℕ → Tick
wakes now message = record { current_time = now; last_message = message; quit = false }

-- Times in milliseconds: a message puts the heartbeat off.
abbrev ticks : List Tick
ticks = wakes 9000 0 ∷ wakes 10000 5000 ∷ wakes 14000 5000 ∷ wakes 15000 5000 ∷ []

beats :
    heartbeater 1000 10 ticks 0
    ≡ Outcome.done (
        (wakes 9000 0, 0, false)
        ∷ (wakes 10000 5000, 5000, false)
        ∷ (wakes 14000 5000, 5000, false)
        ∷ (wakes 15000 5000, 15000, true)
        ∷ [])
unfolding heartbeater beat duration_count
beats = refl

-- Without a message for 2 ^ 16 seconds, the conversion is undefined.
overflows : heartbeater 1000 10 (wakes 65536000 0 ∷ []) 65526000 ≡ Outcome.undefined
unfolding heartbeater beat duration_count
overflows = refl

heartbeater_example :
    (rounds : List (Tick × ℕ × Bool)) × (heartbeater 1000 10 ticks 0 ≡ Outcome.done rounds)
    × Rounds 1000 10 0 rounds
heartbeater_example =
    heartbeater-Rounds 1000 10 9000 ticks 0 (omega arith) (omega arith) (omega arith) (
      omega arith,
      omega arith,
      (omega arith, omega arith, (omega arith, omega arith, (omega arith, omega arith, tt))),
    )

abbrev refused : SocketCall → Bool
refused SocketCall.inet_pton = false
refused SocketCall.socket = false
refused SocketCall.reuses_address = false
refused SocketCall.keeps_alive = false
refused SocketCall.connect = true
refused SocketCall.close = false

abbrev no_server : System
no_server = record { fails = refused }

open_socket_example :
    let (made, valid) = open_socket no_server in
    ((valid ≡ true) ↔ (
      (no_server.fails SocketCall.inet_pton ≡ false)
      × (no_server.fails SocketCall.socket ≡ false)
      × (no_server.fails SocketCall.reuses_address ≡ false)
      × (no_server.fails SocketCall.keeps_alive ≡ false)
      × (no_server.fails SocketCall.connect ≡ false)))
    × ((valid ≡ true) ↔ (made ≡ set_up))
    × (made_sockets no_server made ≡ closed_sockets made + (if valid then 1 else 0))
open_socket_example = open_socket_lem no_server
