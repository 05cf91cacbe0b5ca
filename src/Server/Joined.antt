-- ===== src/Server/Joined.antt =====
-- server.cpp, init_raft: what the loop over the servers comes to.
use distributed_systems_chub.Prelude.{
  ℕ, zero, suc, ◌+◌, ◌≡◌, ◌≢◌, ◌⊎◌, refl, true, false, inl, inr, some, List, [], ◌∷◌, ◌++◌, Text,
  arith, ℕ_eq, get_elem?, eq_true, eq_false, Bool-cases, ◌==◌, if◌then◌else◌, codes, pos,
}
use distributed_systems_chub.Decimal.{to_string}
use distributed_systems_chub.Exec.{Exec, ok, fault, waiting, pure, ◌>>=◌}
use distributed_systems_chub.Server.Config.{address, endpoint, srv_config}
use distributed_systems_chub.Server.Cluster.{Raft, add_until_known, add_servers, join_cluster}

-- What is relied on: a server stays known while others are added.
pub record IsRaft {R : Type 0} (raft : Raft R) : Type 0 where
  pub stays :
      (i j : ℕ) (at : Text) (r : R)
      → raft.has_config j r ≡ true
      → raft.has_config j (raft.add_srv i at r) ≡ true

-- The address of a server, as Raft takes it.
abbrev pub raft_address : Text → ℕ → Text
raft_address host port = host ++ codes ":" ++ to_string (pos port)

-- The server is unknown after each of so many requests in a row.
abbrev pub NeverKnown : {R : Type 0} → Raft R → ℕ → ℕ → Text → R → Type 0
NeverKnown raft zero i at r = Unit
NeverKnown raft (suc n) i at r =
    let asked = raft.add_srv i at r in
    (raft.has_config i asked ≡ false) × NeverKnown raft n i at asked

-- The servers from `i` on are known, but for the server `node_id` itself.
abbrev pub Known : {R : Type 0} → Raft R → ℕ → ℕ → List (Text × ℕ) → R → Type 0
Known raft node_id i [] t = Unit
Known raft node_id i (server ∷ servers) t =
    ((i ≡ node_id) ⊎ (raft.has_config i t ≡ true)) × Known raft node_id (i + 1) servers t

-- Some other server of the table was asked for in vain, at its address, in `rounds` requests.
abbrev pub Stuck : {R : Type 0} → Raft R → ℕ → ℕ → Type 0
Stuck {R} raft rounds node_id =
    (i : ℕ) × (host : Text) × (port : ℕ) × (r : R) × (i ≢ node_id)
    × (get_elem? srv_config i ≡ some (host, port))
    × NeverKnown raft rounds i (raft_address host port) r

module _ {R : Type 0} (raft : Raft R) (rounds : ℕ) (good : IsRaft raft) (P : R → Type 0) where
  -- The run ends with `Q`, or waits on for the reason `W`; in either case all that was known is
  -- known, and `P` holds if it did.
  abbrev Goes : Exec R (Unit {0}) → R → (R → Type 0) → Type 0 → Type 0
  Goes run r Q W =
      (t : R) × ((j : ℕ) → raft.has_config j r ≡ true → raft.has_config j t ≡ true)
      × (P r → P t)
      × (((run r ≡ (ok tt, t)) × Q t) ⊎ ((run r ≡ (fault waiting, t)) × W))

  add_until_known-Goes :
      (left i : ℕ) (at : Text) (r : R)
      → ((r' : R) → P r' → P (raft.add_srv i at r'))
      → Goes
          (add_until_known raft left i at)
          r
          (λ t. raft.has_config i t ≡ true)
          (NeverKnown raft left i at r)
  unfolding add_until_known
  add_until_known-Goes zero i at r keeps = (r, (λ j k. k), (λ p. p), inr (refl, tt))
  add_until_known-Goes (suc left) i at r keeps =
      let asked = raft.add_srv i at r in
      elim (Bool-cases (raft.has_config i asked)) [
        | inl known ↦ (asked, (λ j k. good.stays i j at r k), keeps r, inl (rw known refl, known))
        | inr unknown ↦
            let (t, more, kept, ends) = add_until_known-Goes left i at asked keeps in
            (
              t,
              (λ j k. more j (good.stays i j at r k)),
              (λ p. kept (keeps r p)),
              elim ends [
                | inl (ran, known) ↦ inl (rw unknown ran, known)
                | inr (ran, never) ↦ inr (rw unknown ran, (unknown, never))
              ],
            )
      ]

  module _ (node_id : ℕ)
      (keeps : (i : ℕ) (host : Text) (port : ℕ) (r : R)
        → i ≢ node_id
        → get_elem? srv_config i ≡ some (host, port)
        → P r
        → P (raft.add_srv i (raft_address host port) r)) where
    one_server :
        (i : ℕ) (host : Text) (port : ℕ) (r : R)
        → get_elem? srv_config i ≡ some (host, port)
        → Goes
            (if i == node_id
              then pure tt
              else add_until_known raft rounds i (endpoint (host, port)))
            r
            (λ t. (i ≡ node_id) ⊎ (raft.has_config i t ≡ true))
            (Stuck raft rounds node_id)
    unfolding pure endpoint address
    one_server i host port r at = elim (ℕ_eq.dec i node_id) [
      | yes p ↦ (r, (λ j k. k), (λ q. q), inl (rw (eq_true p) refl, inl p))
      | no n ↦
          let (t, more, kept, ends) =
            add_until_known-Goes rounds i (raft_address host port) r
              (λ r' q. keeps i host port r' n at q) in
          (
            t,
            more,
            kept,
            elim ends [
              | inl (ran, known) ↦ inl (rw (eq_false n) ran, inr known)
              | inr (ran, never) ↦ inr (rw (eq_false n) ran, (i, host, port, r, n, at, never))
            ],
          )
    ]

    known_still :
        (i : ℕ) (t u : R)
        → ((j : ℕ) → raft.has_config j t ≡ true → raft.has_config j u ≡ true)
        → (i ≡ node_id) ⊎ (raft.has_config i t ≡ true)
        → (i ≡ node_id) ⊎ (raft.has_config i u ≡ true)
    known_still i t u more (inl p) = inl p
    known_still i t u more (inr k) = inr (more i k)

    add_servers-Goes :
        (servers : List (Text × ℕ)) (i : ℕ) (r : R)
        → ((k j : ℕ) (server : Text × ℕ)
            → j ≡ i + k
            → get_elem? servers k ≡ some server
            → get_elem? srv_config j ≡ some server)
        → Goes
            (add_servers raft rounds node_id i servers)
            r
            (Known raft node_id i servers)
            (Stuck raft rounds node_id)
    unfolding add_servers ◌>>=◌
    add_servers-Goes [] i r at = (r, (λ j k. k), (λ q. q), inl (refl, tt))
    add_servers-Goes ((host, port) ∷ servers) i r at =
        let (t, more, kept, ends) =
          one_server i host port r (at 0 i (host, port) (omega arith) refl) in
        elim ends [
          | inr (ran, stuck) ↦ (t, more, kept, inr (rw ran refl, stuck))
          | inl (ran, known) ↦
              let (u, more', kept', ends') =
                add_servers-Goes servers (i + 1) t (λ k j x e h. at (suc k) j x (omega arith) h) in
              (
                u,
                (λ j k. more' j (more j k)),
                (λ q. kept' (kept q)),
                elim ends' [
                  | inl (ran', rest) ↦ inl (rw ran ran', (known_still i t u more' known, rest))
                  | inr (ran', stuck) ↦ inr (rw ran ran', stuck)
                ],
              )
        ]

    -- If a server stays known to Raft while others are added: the loop ends and the server `node_id`
    -- then knows every other server of the table, or it waits on because one of them, asked for at
    -- its host and port `rounds` times in a row, was unknown after each request. In both cases the
    -- loop has asked for nothing but those servers, each at its host and port: whatever such requests
    -- keep of Raft's state is kept.
    pub join_cluster_outcome :
        (r : R)
        → P r
        → (t : R) × P t
          × (((join_cluster raft rounds node_id r ≡ (ok tt, t)) × Known raft node_id 0 srv_config t)
              ⊎ ((join_cluster raft rounds node_id r ≡ (fault waiting, t))
                  × Stuck raft rounds node_id))
    unfolding join_cluster
    join_cluster_outcome r p =
        let (t, _, kept, ends) =
          add_servers-Goes srv_config 0 r
            (λ k j x e h. let same : j ≡ k = omega arith in rw same h) in
        (t, kept p, ends)
