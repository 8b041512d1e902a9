-- ===== src/Shard/Served.antt =====
-- What `db_get` returns, whatever the order in which its caller and the worker run.
use orca_db.Base.{
  ◌<◌, length, ◌++◌, length-set, get_elem?-some-lt, get_elem?-set_self, get_elem?-set_ne, some-inj,
  ==_ne, ==_iff, ℕ_discrete, ℕ, ◌+◌, ◌≡◌, ◌≢◌, ◌∙◌, refl, sym, ap, true, false, Bool, Option, none,
  some, List, [], ◌∷◌, Bytes, get_elem?, set, replicate-some, Run, done, fault, ◌>>=◌, Option-cases,
  Bool-cases, if◌then◌else◌, inl, inr, ◌⊎◌, ◌==◌, u64, arith,
}
use orca_db.Hashmap.{Hashmap, hm_get}
use orca_db.Ring.{Ring, r_buff_init, r_buff_write, r_buff_read, wrap, default}
use orca_db.Shard.{Proc, Shard, Round, get_request, worker_round, worker_do, shard_id}
use orca_db.Shard.Get.{
  Getting, Pc, pushing, waiting, returned, Thread, caller, worker, caller_step, get_step, get_steps,
  get_started, get_from, db_get, pushed, marked, is_back, takes_own,
}

-- Every slot is unused, or points to `p` and is marked.
abbrev pub OwnRequests {ℓ} : {P : Type ℓ} → P → (ℕ → Bool) → List (Option P) → Type ℓ
OwnRequests {P} p own proc =
    (i : ℕ) (q : P) → get_elem? proc i ≡ some (some q) → (q ≡ p) × (own i ≡ true)

module _ {ℓ} {P : Type ℓ} (p : P) (own : ℕ → Bool) where
  set-OwnRequests :
      (proc : List (Option P)) (j : ℕ)
      → OwnRequests p own proc
      → OwnRequests p (marked j own) (set proc j (some p))
  set-OwnRequests proc j only i q e = elim (ℕ_discrete j i) [
    | yes here ↦
        let below : j < length proc = omega (
          arith,
          get_elem?-some-lt (set proc j (some p)) i (some q) e,
          length-set proc j (some p),
          here,
        ) in
        let it : some (some p) ≡ some (some q) =
          sym (get_elem?-set_self proc j (some p) below)
          ∙ ap (get_elem? (set proc j (some p))) here
          ∙ e in
        (
          sym (some-inj p q (some-inj (some p) (some q) it)),
          ap (λ b. if b then true else own i) ((==_iff i j).1 (sym here)),
        )
    | no other ↦
        let (same, mine) = only i q (sym (get_elem?-set_ne proc j i (some p) other) ∙ e) in
        (same, ap (λ b. if b then true else own i) (==_ne i j (λ h. other (sym h))) ∙ mine)
  ]

  write-OwnRequests :
      (r : Ring P)
      → OwnRequests p own r.proc
      → OwnRequests p
          (if (r_buff_write r p).0 then marked (wrap r.cap r.hp) own else own)
          (r_buff_write r p).1.proc
  unfolding r_buff_write
  write-OwnRequests r only = elim (Bool-cases (wrap r.cap (u64 (r.hp + 1)) == r.rp)) [
    | inl full ↦ rw full only
    | inr free ↦ rw free (set-OwnRequests r.proc (wrap r.cap r.hp) only)
  ]

  read-OwnRequests :
      (r : Ring P) → OwnRequests p own r.proc → OwnRequests p own (r_buff_read r).1.proc
  unfolding r_buff_read
  read-OwnRequests r only = elim (Bool-cases (r.rp == r.hp)) [
    | inl empty ↦ rw empty only
    | inr waits ↦ rw waits only
  ]

-- A read finds nothing, or what stands in the next slot.
read_cases {ℓ} :
    {P : Type ℓ} (r : Ring P)
    → ((r_buff_read r).0 ≡ none)
      ⊎ ((q : P) × ((r_buff_read r).0 ≡ some q)
          × (get_elem? r.proc (wrap r.cap r.rp) ≡ some (some q)))
unfolding r_buff_read
read_cases r = elim (Bool-cases (r.rp == r.hp)) [
  | inl empty ↦ rw empty (inl refl)
  | inr waits ↦ rw waits (elim (Option-cases (get_elem? r.proc (wrap r.cap r.rp))) [
    | inl out ↦ inl (ap default out)
    | inr (none, at) ↦ inl (ap default at)
    | inr (some q, at) ↦ inr (q, ap default at, at)
  ])
]

back-returned {ℓ} :
    {V : Type ℓ} (pc : Pc V) → is_back pc ≡ true → (u : Option V) × (pc ≡ returned u)
back-returned pushing h = ground arith
back-returned waiting h = ground arith
back-returned (returned u) h = (u, refl)

module _ {ℓ} {K V : Type ℓ} (mem : K → Bytes) (key_at : ℕ → K) (val_at : ℕ → V) (fuel : ℕ) (key : K)
    (hm : Hashmap K V) (v : Option V) (reads : hm_get mem fuel hm (some key) ≡ done v) where
  -- The table is `hm`, only the caller's request stands in the ring, and the result, once written,
  -- and whatever is returned are what `hm_get` reads.
  pub record IsServing (g : Getting K V) : Type ℓ where
    pub table : g.shard.hm ≡ hm
    pub only : OwnRequests (get_request mem key) g.own g.shard.ring.proc
    pub right : g.finished ≡ true → g.result ≡ v
    pub out : (u : Option V) → g.pc ≡ returned u → u ≡ v

  pushed-not : (ok : Bool) (u : Option V) → pushed mem ok ≢ returned u
  pushed-not true u e = ground arith
  pushed-not false u e = ground arith

  caller_from :
      (g : Getting K V) (pc : Pc V) → g.pc ≡ pc → IsServing g → IsServing (caller_step mem key g)
  unfolding caller_step
  caller_from g pushing e s = rw e (record {
    table = s.table;
    only = write-OwnRequests (get_request mem key) g.own g.shard.ring s.only;
    right = s.right;
    out = λ u h. absurd (pushed-not (r_buff_write g.shard.ring (get_request mem key)).0 u h);
  })
  caller_from g waiting e s = rw e (elim (Bool-cases g.finished) [
    | inl ready ↦ rw ready (record {
      table = s.table;
      only = s.only;
      right = λ _. s.right ready;
      out = λ u h. let same : returned g.result ≡ returned u = h in let own = s.right ready in cc;
    })
    | inr early ↦ rw early (record {
      table = s.table;
      only = s.only;
      right = λ h. ground arith;
      out = λ u h. ground arith;
    })
  ])
  caller_from g (returned u) e s =
      rw e
        (record { table = s.table; only = s.only; right = s.right; out = λ w h. s.out w (e ∙ h) })

  caller-IsServing : (g : Getting K V) → IsServing g → IsServing (caller_step mem key g)
  caller-IsServing g = caller_from g g.pc refl

  pub caller_done :
      (g : Getting K V)
      → get_step mem key_at val_at fuel caller key g ≡ done (caller_step mem key g)
  unfolding get_step
  caller_done g = refl

  -- A round of the worker on a ring with nothing to read, and on the caller's request.
  abbrev serve : Shard K V → Option (Proc K V) → Run (Round K V)
  serve s none = done (s, none)
  serve s (some p) =
      worker_do mem key_at val_at fuel p.op p (record s { ring = (r_buff_read s.ring).1 }) >>= λ r.
      if p.status then done r else fault

  round_serve :
      (s : Shard K V) (next : Option (Proc K V))
      → (r_buff_read s.ring).0 ≡ next
      → worker_round mem key_at val_at fuel s ≡ serve s next
  unfolding worker_round
  round_serve s next e = ap (serve s) e

  round_idle :
      (s : Shard K V)
      → (r_buff_read s.ring).0 ≡ none
      → worker_round mem key_at val_at fuel s ≡ done (s, none)
  round_idle s e = round_serve s none e

  pub round_get :
      (s : Shard K V)
      → s.hm ≡ hm
      → (r_buff_read s.ring).0 ≡ some (get_request mem key)
      → worker_round mem key_at val_at fuel s
        ≡ done (record s { ring = (r_buff_read s.ring).1 }, some v)
  unfolding worker_do
  round_get s same e =
      let s' : Shard K V = record s { ring = (r_buff_read s.ring).1 } in
      let after : Run (Option V) → Run (Round K V) =
        λ o. o >>= (λ u. done (s', some u)) >>= λ r. done r in
      round_serve s (some (get_request mem key)) e
      ∙ ap after (ap (λ h. hm_get mem fuel h (some key)) same ∙ reads)

  takes_own-some :
      (g : Getting K V) (p : Proc K V)
      → (r_buff_read g.shard.ring).0 ≡ some p
      → takes_own mem g ≡ g.own (wrap g.shard.ring.cap g.shard.ring.rp)
  unfolding takes_own
  takes_own-some g p e = rw (e, takes_own) refl

  takes_own-none : (g : Getting K V) → (r_buff_read g.shard.ring).0 ≡ none → takes_own mem g ≡ false
  unfolding takes_own
  takes_own-none g e = rw (e, takes_own) refl

  -- A round on the caller's request, before and after the caller is back.
  pub step_get :
      (g : Getting K V)
      → g.shard.hm ≡ hm
      → (r_buff_read g.shard.ring).0 ≡ some (get_request mem key)
      → g.own (wrap g.shard.ring.cap g.shard.ring.rp) ≡ true
      → is_back g.pc ≡ false
      → get_step mem key_at val_at fuel worker key g
        ≡ done (record g {
          shard = record g.shard { ring = (r_buff_read g.shard.ring).1 };
          result = v;
          finished = true;
        })
  unfolding get_step
  step_get g same waits mine away =
      rw (takes_own-some g (get_request mem key) waits ∙ mine, away, round_get g.shard same waits)
        refl

  pub step_gone :
      (g : Getting K V)
      → (r_buff_read g.shard.ring).0 ≡ some (get_request mem key)
      → g.own (wrap g.shard.ring.cap g.shard.ring.rp) ≡ true
      → is_back g.pc ≡ true
      → get_step mem key_at val_at fuel worker key g ≡ fault
  unfolding get_step
  step_gone g waits mine back = rw (takes_own-some g (get_request mem key) waits ∙ mine, back) refl

  step_idle :
      (g : Getting K V)
      → (r_buff_read g.shard.ring).0 ≡ none
      → get_step mem key_at val_at fuel worker key g ≡ done g
  unfolding get_step
  step_idle g idle = rw (takes_own-none g idle, round_idle g.shard idle) refl

  -- A step of the worker is defined, unless the caller is back with what `hm_get` reads.
  worker-IsServing :
      (g : Getting K V)
      → IsServing g
      → ((g' : Getting K V) × (get_step mem key_at val_at fuel worker key g ≡ done g')
          × IsServing g')
        ⊎ ((g.pc ≡ returned v) × (get_step mem key_at val_at fuel worker key g ≡ fault))
  worker-IsServing g s = elim (read_cases g.shard.ring) [
    | inl idle ↦ inl (g, step_idle g idle, s)
    | inr (q, waits, at) ↦
        let (same, mine) = s.only (wrap g.shard.ring.cap g.shard.ring.rp) q at in
        let own = waits ∙ ap some same in
        elim (Bool-cases (is_back g.pc)) [
          | inl back ↦
              let (u, pc) = back-returned g.pc back in
              inr (pc ∙ ap returned (s.out u pc), step_gone g own mine back)
          | inr away ↦ inl (
            _,
            step_get g s.table own mine away,
            record {
              table = s.table;
              only = read-OwnRequests (get_request mem key) g.own g.shard.ring s.only;
              right = λ _. refl;
              out = s.out;
            },
          )
        ]
  ]

  -- The schedule is followed to its end, or up to a step of the worker that answers a request of a
  -- caller that is back.
  abbrev Followed : List Thread → Getting K V → Type ℓ
  Followed schedule g =
      ((g' : Getting K V) × (get_steps mem key_at val_at fuel schedule key g ≡ done g')
        × IsServing g')
      ⊎ ((before rest : List Thread) × (g' : Getting K V) × (schedule ≡ before ++ (worker ∷ rest))
          × (get_steps mem key_at val_at fuel before key g ≡ done g')
          × (g'.pc ≡ returned v)
          × (get_steps mem key_at val_at fuel schedule key g ≡ fault))

  follow_step :
      (t : Thread) (schedule : List Thread) (g g₁ : Getting K V)
      → get_step mem key_at val_at fuel t key g ≡ done g₁
      → Followed schedule g₁
      → Followed (t ∷ schedule) g
  unfolding get_steps
  follow_step t schedule g g₁ step (inl (g', run, s)) = inl (g', rw step run, s)
  follow_step t schedule g g₁ step (inr (before, rest, g', split, run, pc, gone)) =
      inr (t ∷ before, rest, g', ap (λ l. t ∷ l) split, rw step run, pc, rw step gone)

  steps-IsServing : (schedule : List Thread) (g : Getting K V) → IsServing g → Followed schedule g
  unfolding get_steps
  steps-IsServing [] g s = inl (g, refl, s)
  steps-IsServing (caller ∷ schedule) g s =
      follow_step caller schedule g (caller_step mem key g) (caller_done g)
        (steps-IsServing schedule (caller_step mem key g) (caller-IsServing g s))
  steps-IsServing (worker ∷ schedule) g s = elim (worker-IsServing g s) [
    | inl (g₁, step, s₁) ↦ follow_step worker schedule g g₁ step (steps-IsServing schedule g₁ s₁)
    | inr (pc, gone) ↦ inr ([], schedule, g, refl, refl, pc, rw gone refl)
  ]

  -- On a shard whose ring is new, and while no other thread uses it: in whatever order the caller of
  -- `db_get` and the worker run, the shard's table stays as it is, and what `db_get` returns is what
  -- `hm_get` reads of that table. No step is undefined until `db_get` has returned; one that is
  -- undefined is a step of the worker after that, which answers a request that was left in the ring.
  pub db_get-reads :
      (nslave id size : ℕ) (schedule : List Thread) (shards : List (Shard K V)) (s : Shard K V)
      → shard_id nslave (mem key) ≡ done id
      → get_elem? shards id ≡ some s
      → s.hm ≡ hm
      → s.ring ≡ r_buff_init size
      → ((pc : Pc V) × (s' : Shard K V) × (db_get mem key_at val_at fuel nslave key schedule shards
            ≡ done (pc, set shards id s'))
          × (s'.hm ≡ hm)
          × ((u : Option V) → pc ≡ returned u → u ≡ v))
        ⊎ ((before rest : List Thread) × (s' : Shard K V) × (schedule ≡ before ++ (worker ∷ rest))
            × (db_get mem key_at val_at fuel nslave key before shards
                ≡ done (returned v, set shards id s'))
            × (db_get mem key_at val_at fuel nslave key schedule shards ≡ fault))
  unfolding db_get get_from r_buff_init
  db_get-reads nslave id size schedule shards s to_id there table new =
      let unused = λ (i : ℕ) (q : Proc K V) (e : get_elem? s.ring.proc i ≡ some (some q)).
        replicate-some size i none (some q) (ap (λ r. get_elem? r.proc i) (sym new) ∙ e) in
      let start : IsServing (get_started mem s) = record {
        table = table;
        only = λ i q e. absurd (ground (arith, unused i q e));
        right = λ h. ground arith;
        out = λ u h. ground arith;
      } in
      elim (steps-IsServing schedule (get_started mem s) start) [
        | inl (g, run, serving) ↦ inl (
          g.pc,
          g.shard,
          rw to_id (rw (there, get_from) (rw run refl)),
          serving.table,
          serving.out,
        )
        | inr (before, rest, g, split, run, pc, gone) ↦ inr (
          before,
          rest,
          g.shard,
          split,
          rw to_id (rw (there, get_from) (rw (run, pc) refl)),
          rw to_id (rw (there, get_from) (rw gone refl)),
        )
      ]
