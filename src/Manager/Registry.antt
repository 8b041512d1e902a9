-- ===== src/Manager/Registry.antt =====
-- What `manager` keeps over its rounds.
use orca_db.Base.{
  ℕ, ◌≤◌, ◌≡◌, ◌∙◌, refl, sym, ap, List, [], ◌∷◌, ◌++◌, Bytes, length, length-append, length-take,
  take, drop, bytes_eq, leb, leb-lt, Bool-cases, inl, inr, All, All-append, arith,
}
use mathlib.Core.List.{append_assoc, append-nil}
use orca_db.Manager.{
  ServerN, max_server, server_tag, register_server, Incoming, not_accepted, no_message, message,
  manager_round, manager,
}
use orca_db.Http.Route.{up_to_nul}

-- At most 20 servers, whose ids fit into the 64 bytes.
pub record IsRegistry (servers : List ServerN) : Type 0 where
  pub bounded : length servers ≤ max_server
  pub ids : All (λ s. length s.id ≤ 63) servers

-- The registry only grows at its end.
abbrev pub Grows : List ServerN → List ServerN → Type 0
Grows old new = (added : List ServerN) × (new ≡ old ++ added)

register-IsRegistry :
    (fd : ℕ) (buf : Bytes) (servers : List ServerN)
    → IsRegistry servers
    → IsRegistry (register_server fd buf servers).1
      × Grows servers (register_server fd buf servers).1
unfolding register_server
register-IsRegistry fd buf servers r = elim (Bool-cases (leb max_server (length servers))) [
  | inl full ↦ rw full (r, ([], sym (append-nil servers)))
  | inr free ↦
      let s : ServerN = record { fd = fd; id = take 63 (up_to_nul (drop 7 buf)) } in
      rw free (
        record {
          bounded = omega (arith, leb-lt 20 (length servers) free, length-append servers (s ∷ []));
          ids =
              All-append (λ n. length n.id ≤ 63) servers (s ∷ []) r.ids
                (omega (arith, length-take 63 (up_to_nul (drop 7 buf))), tt);
        },
        (s ∷ [], refl),
      )
]

round-IsRegistry :
    (i : Incoming) (servers : List ServerN)
    → IsRegistry servers
    → IsRegistry (manager_round i servers).1 × Grows servers (manager_round i servers).1
unfolding manager_round
round-IsRegistry not_accepted servers r = (r, ([], sym (append-nil servers)))
round-IsRegistry (no_message fd) servers r = (r, ([], sym (append-nil servers)))
round-IsRegistry (message fd buf) servers r = elim (Bool-cases (bytes_eq (take 6 buf) server_tag)) [
  | inl tagged ↦ rw tagged (register-IsRegistry fd buf servers r)
  | inr other ↦ rw other (r, ([], sym (append-nil servers)))
]

-- Over any rounds of `manager` there are at most 20 servers, their ids fit, and no server that is
-- registered is ever taken out, replaced or moved.
pub manager-IsRegistry :
    (is : List Incoming) (servers : List ServerN)
    → IsRegistry servers
    → IsRegistry (manager is servers).1 × Grows servers (manager is servers).1
unfolding manager
manager-IsRegistry [] servers r = (r, ([], sym (append-nil servers)))
manager-IsRegistry (i ∷ is) servers r =
    let (r₁, (more, e₁)) = round-IsRegistry i servers r in
    let (r₂, (rest, e₂)) = manager-IsRegistry is (manager_round i servers).1 r₁ in
    (r₂, (more ++ rest, e₂ ∙ ap (λ l. l ++ rest) e₁ ∙ append_assoc servers more rest))
