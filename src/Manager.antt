-- ===== src/Manager.antt =====
-- misc/manager.h and manager.c: the registry of servers, and one round of the accept loop. The
-- socket calls are taken to succeed, but `accept` and `recv`. The address of a server is left out:
-- it is stored and never read.
pub mod Registry
pub mod Register
mod Tests
use orca_db.Base.{
  ℕ, zero, suc, ◌+◌, Bool, true, false, Option, none, some, List, [], ◌∷◌, ◌++◌, Bytes, length,
  take, drop, bytes_eq, leb, if◌then◌else◌,
}
use orca_db.Http.Route.{up_to_nul}

-- `id` as the string that stands in the 64 bytes, of which the last stays NUL.
pub record ServerN : Type 0 where
  pub fd : ℕ
  pub id : Bytes

-- What is done to sockets, in order.
pub data Action : Type 0 where
  send : ℕ → Bytes → Action
  close : ℕ → Action

abbrev pub max_server : ℕ
max_server = 20

-- No backend servers available\n
abbrev pub no_servers : Bytes
no_servers =
    78 ∷ 111 ∷ 32 ∷ 98 ∷ 97 ∷ 99 ∷ 107 ∷ 101 ∷ 110 ∷ 100 ∷ 32 ∷ 115 ∷ 101 ∷ 114 ∷ 118 ∷ 101 ∷ 114
    ∷ 115 ∷ 32 ∷ 97 ∷ 118 ∷ 97 ∷ 105 ∷ 108 ∷ 97 ∷ 98 ∷ 108 ∷ 101 ∷ 10 ∷ []

-- OK\n
abbrev pub ok_text : Bytes
ok_text = 79 ∷ 75 ∷ 10 ∷ []

-- SERVER
abbrev pub server_tag : Bytes
server_tag = 83 ∷ 69 ∷ 82 ∷ 86 ∷ 69 ∷ 82 ∷ []

-- `servers` up to `server_count`. The bytes behind what was received are NUL.
unfoldable pub register_server : ℕ → Bytes → List ServerN → List Action × List ServerN
unfolding up_to_nul
register_server fd buf servers =
    if leb max_server (length servers)
    then (close fd ∷ [], servers)
    else ([], servers ++ (record { fd = fd; id = take 63 (up_to_nul (drop 7 buf)) } ∷ []))

unfoldable pub handle_client : ℕ → Bytes → List ServerN → List Action
handle_client fd buf [] = send fd no_servers ∷ []
handle_client fd buf (s ∷ servers) = send s.fd buf ∷ []

-- What a round meets: `accept` or `recv` fails or gives nothing, or a message arrives on `fd`.
pub data Incoming : Type 0 where
  not_accepted : Incoming
  no_message : ℕ → Incoming
  message : ℕ → Bytes → Incoming

unfoldable pub manager_round : Incoming → List ServerN → List Action × List ServerN
unfolding register_server handle_client
manager_round not_accepted servers = ([], servers)
manager_round (no_message fd) servers = (close fd ∷ [], servers)
manager_round (message fd buf) servers =
    let (actions, servers') = register_server fd buf servers in
    if bytes_eq (take 6 buf) server_tag
    then (actions ++ (send fd ok_text ∷ []), servers')
    else (handle_client fd buf servers ++ (close fd ∷ []), servers)

-- The rounds of `manager`, with what each does.
unfoldable pub manager : List Incoming → List ServerN → List (List Action) × List ServerN
unfolding manager_round
manager [] servers = ([], servers)
manager (i ∷ is) servers =
    let (actions, servers₁) = manager_round i servers in
    let (rest, servers₂) = manager is servers₁ in (actions ∷ rest, servers₂)
