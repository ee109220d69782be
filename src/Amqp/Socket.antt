-- ===== src/Amqp/Socket.antt =====
-- src/internal/app-transport/amqp-handler.cpp: how the constructor of the handler opens its socket. The
-- calls of the system are the parameter: whether each gives an error.
use limb_worker.Prelude.{
  ℕ, ◌+◌, Bool, true, false, not, ◌&&◌, List, [], ◌∷◌, ◌++◌, ◌≡◌, ◌↔◌, if◌then◌else◌, arith,
}

pub data SocketCall : Type 0 where
  inet_pton socket reuses_address keeps_alive connect close : SocketCall

pub record System : Type 0 where
  pub fails : SocketCall → Bool

-- The body of the `do`, from the calls that are left: those that were made, and whether all went well.
abbrev connect_by : System → List SocketCall → List SocketCall × Bool
connect_by system [] = ([], true)
connect_by system (c ∷ cs) =
    let (made, ok) = connect_by system cs in
    if system.fails c then (c ∷ [], false) else (c ∷ made, ok)

abbrev pub set_up : List SocketCall
set_up =
    SocketCall.inet_pton ∷ SocketCall.socket ∷ SocketCall.reuses_address ∷ SocketCall.keeps_alive
    ∷ SocketCall.connect ∷ []

-- `sock` is valid from a call of `socket` on that gave no error.
abbrev created : System → Bool
created system = not (system.fails SocketCall.inet_pton) && not (system.fails SocketCall.socket)

-- The constructor: the calls, and whether `sock` is valid behind it.
pub open_socket : System → List SocketCall × Bool
open_socket system =
    let (made, ok) = connect_by system set_up in
    if ok
    then (made, true)
    else if created system
    then (made ++ (SocketCall.close ∷ []), false)
    else (made, false)

-- How often a socket is made, and closed.
abbrev pub made_sockets : System → List SocketCall → ℕ
made_sockets system [] = 0
made_sockets system (SocketCall.socket ∷ cs) =
    if system.fails SocketCall.socket then made_sockets system cs else 1 + made_sockets system cs
made_sockets system (c ∷ cs) = made_sockets system cs

abbrev pub closed_sockets : List SocketCall → ℕ
closed_sockets [] = 0
closed_sockets (SocketCall.close ∷ cs) = 1 + closed_sockets cs
closed_sockets (c ∷ cs) = closed_sockets cs

-- Whichever calls fail: the socket is valid exactly if none of the five does, and then all five were
-- made; a socket that was made and is not valid at the end is closed once, and nothing else is.
pub open_socket_lem :
    (system : System)
    → let (made, valid) = open_socket system in
      ((valid ≡ true) ↔ (
        (system.fails SocketCall.inet_pton ≡ false)
        × (system.fails SocketCall.socket ≡ false)
        × (system.fails SocketCall.reuses_address ≡ false)
        × (system.fails SocketCall.keeps_alive ≡ false)
        × (system.fails SocketCall.connect ≡ false)))
      × ((valid ≡ true) ↔ (made ≡ set_up))
      × (made_sockets system made ≡ closed_sockets made + (if valid then 1 else 0))
unfolding open_socket
open_socket_lem system = ground arith
