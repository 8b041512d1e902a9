-- ===== src/Manager/Tests.antt =====
-- A server that registers, and a client behind it.
use orca_db.Base.{◌≡◌, refl, true, some, List, [], ◌∷◌, ◌++◌, Bytes, replicate, arith}
use orca_db.Manager.{
  ServerN, send, close, ok_text, no_servers, server_tag, Incoming, not_accepted, no_message,
  message, manager_round, manager,
}
use orca_db.Manager.Register.{handshake-registers}
use orca_db.Manager.Registry.{IsRegistry, Grows, manager-IsRegistry}
use orca_db.Server.{handshake}

-- SERVER a\n
abbrev hello : Bytes
hello = server_tag ++ (32 ∷ b'a' ∷ 10 ∷ [])

abbrev rounds : List Incoming
rounds =
    message 4 (b'x' ∷ [])
    ∷ message 5 hello
    ∷ not_accepted
    ∷ message 6 (b'x' ∷ [])
    ∷ no_message 7
    ∷ []

abbrev server_a : ServerN
server_a = record { fd = 5; id = b'a' ∷ 10 ∷ [] }

-- A client that comes first is told that there is no server; a later one is passed on.
rounds_run : manager rounds [] ≡ (
  (send 4 no_servers ∷ close 4 ∷ [])
      ∷ (send 5 ok_text ∷ [])
      ∷ []
      ∷ (send 5 (b'x' ∷ []) ∷ close 6 ∷ [])
      ∷ (close 7 ∷ [])
      ∷ [],
  server_a ∷ [],
)
unfolding manager
rounds_run = refl

-- The twenty-first server's socket is closed, and then sent an answer.
registry_full :
    (manager_round (message 9 hello) (replicate 20 server_a)).0 ≡ close 9 ∷ send 9 ok_text ∷ []
unfolding manager_round
registry_full = refl

manager-IsRegistry_example : IsRegistry (manager rounds []).1 × Grows [] (manager rounds []).1
manager-IsRegistry_example =
    manager-IsRegistry rounds [] (record { bounded = omega arith; ids = tt })

handshake-registers_example :
    (sent : Bytes) × (handshake true true true (b'a' ∷ []) ≡ (some sent, true))
    × (manager_round (message 5 sent) [] ≡ (send 5 ok_text ∷ [], server_a ∷ []))
handshake-registers_example =
    handshake-registers (b'a' ∷ []) 5 [] ((λ e. omega (arith, e)), tt) (omega arith) (omega arith)
