-- ===== src/Manager/Register.antt =====
-- The handshake of misc/server.c, as `manager` receives it.
use orca_db.Base.{
  ℕ, ◌≤◌, ◌<◌, ◌≡◌, ◌∙◌, refl, ap, true, some, List, [], ◌∷◌, ◌++◌, Bytes, length, length-append,
  take, take-all, lt→leb, ==_ne, arith,
}
use orca_db.Http.Route.{up_to_nul}
use orca_db.Manager.{ServerN, send, ok_text, register_server, message, manager_round}
use orca_db.Server.{handshake, handshake_text, server_word}
use orca_db.Server.Session.{NoNul}

up_to_nul-NoNul : (cs : Bytes) → NoNul cs → up_to_nul cs ≡ cs
unfolding up_to_nul
up_to_nul-NoNul [] h = refl
up_to_nul-NoNul (c ∷ cs) h = rw (==_ne c 0 h.0) (ap (λ l. c ∷ l) (up_to_nul-NoNul cs h.1))

NoNul-append : (xs ys : Bytes) → NoNul xs → NoNul ys → NoNul (xs ++ ys)
NoNul-append [] ys p q = q
NoNul-append (x ∷ xs) ys p q = (p.0, NoNul-append xs ys p.1 q)

-- A handshake with an id of at most 62 bytes without a NUL sends one message, and leaves its socket
-- open. While fewer than 20 servers are registered, that message makes `manager` register the id,
-- with the newline behind it, and answer OK.
pub handshake-registers :
    (server_id : Bytes) (fd : ℕ) (servers : List ServerN)
    → NoNul server_id
    → length server_id ≤ 62
    → length servers < 20
    → (sent : Bytes) × (handshake true true true server_id ≡ (some sent, true))
      × (manager_round (message fd sent) servers ≡ (
        send fd ok_text ∷ [],
        servers ++ (record { fd = fd; id = server_id ++ (10 ∷ []) } ∷ []),
      ))
unfolding handshake handshake_text manager_round register_server
handshake-registers server_id fd servers plain short free =
    let line = server_id ++ (10 ∷ []) in
    let size = length-append server_id (10 ∷ []) in
    let whole : take 255 (server_word ++ line) ≡ server_word ++ line =
      take-all 255 (server_word ++ line) (omega (arith, size)) in
    let kept : take 63 (up_to_nul line) ≡ line =
      ap (take 63) (
        up_to_nul-NoNul line (NoNul-append server_id (10 ∷ []) plain ((λ e. omega (arith, e)), tt)))
      ∙ take-all 63 line (omega (arith, size)) in
    (server_word ++ line, rw whole refl, rw (lt→leb 20 (length servers) free, kept) refl)
