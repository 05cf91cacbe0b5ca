-- ===== src/Client/Start.antt =====
-- clientlib.cpp, StartSessionOrDie: which server a client ends up with.
use Prim.Native.Nat.{◌%◌}
use distributed_systems_chub.Prelude.{
  subst, ℕ, zero, suc, ◌+◌, ◌≤◌, ◌<◌, ◌≡◌, ◌⊎◌, inl, inr, refl, true, ℤ, arith,
}
use native.Mathlib.Decide.{ℕ_discrete}
use distributed_systems_chub.Exec.{ok, fault, aborted}
use distributed_systems_chub.Skinny.{Status, Answer, done, refused}
use distributed_systems_chub.Client.{Client, server_count, try_servers, start_session_or_die}

abbrev pub IsRefused : Answer ℤ → Type 0
IsRefused a = (status : Status) × (a ≡ refused status)

-- The client with the session that the server `k` has granted.
abbrev pub started : Client → ℕ → ℤ → Client
started c k id = record c { cur_srv_id = k; session_id = id; has_conn = true }

answer-cases : (a : Answer ℤ) → ((id : ℤ) × (a ≡ done id)) ⊎ IsRefused a
answer-cases (done id) = inl (id, refl)
answer-cases (refused status) = inr (status, refl)

abbrev Tried : (ℕ → Answer ℤ) → ℕ → ℕ → Client → Type 0
Tried ask n i c =
    ((k : ℕ) × (id : ℤ) × (i ≤ k)
      × (k < i + n)
      × (ask k ≡ done id)
      × ((j : ℕ) → i ≤ j → j < k → IsRefused (ask j))
      × (try_servers ask n i c ≡ (ok tt, started c k id)))
    ⊎ (((j : ℕ) → i ≤ j → j < i + n → IsRefused (ask j))
        × ((try_servers ask n i c).0 ≡ fault aborted))

extend :
    {ask : ℕ → Answer ℤ} {i k : ℕ}
    → IsRefused (ask i)
    → ((j : ℕ) → i + 1 ≤ j → j < k → IsRefused (ask j))
    → (j : ℕ) → i ≤ j
    → j < k
    → IsRefused (ask j)
extend {ask} {i} here h j le lt = elim (ℕ_discrete i j) [
  | yes p ↦ subst (λ m. IsRefused (ask m)) p here
  | no n ↦ h j (omega arith) lt
]

try_servers-Tried :
    (ask : ℕ → Answer ℤ) (n i : ℕ) (c : Client) → i + n ≤ server_count → Tried ask n i c
unfolding try_servers
try_servers-Tried ask zero i c h = inr (λ j le lt. absurd (omega arith), refl)
try_servers-Tried ask (suc n) i c h =
    let small : i % server_count ≡ i = omega arith in
    elim (answer-cases (ask i)) [
      | inl (id, e) ↦
          inl (i, id, omega arith, omega arith, e, (λ j le lt. absurd (omega arith)), rw (small, e))
      | inr (status, e) ↦
          elim (try_servers-Tried ask n (i + 1) (record c { cur_srv_id = i }) (omega arith)) [
            | inl (k, id, le, lt, a, before, r) ↦
                inl (k, id, omega arith, omega arith, a, extend (status, e) before, rw (small, e) r)
            | inr (all, r) ↦ inr (
              (λ j le lt.
                  extend {k = i + suc n} (status, e) (λ j' le' lt'. all j' le' (omega arith)) j le
                    lt),
              rw (small, e) r,
            )
          ]
    ]

-- What comes of the start of a client.
abbrev pub StartOutcome : (ℕ → Answer ℤ) → Client → Type 0
StartOutcome ask c =
    ((k : ℕ) × (id : ℤ) × (k < server_count)
      × (ask k ≡ done id)
      × ((j : ℕ) → j < k → IsRefused (ask j))
      × (start_session_or_die ask c ≡ (ok tt, started c k id)))
    ⊎ (((j : ℕ) → j < server_count → IsRefused (ask j))
        × ((start_session_or_die ask c).0 ≡ fault aborted))

-- A client starts on the first server that grants it a session, with that server's number and the
-- session that it has granted; it aborts exactly when all five servers refuse.
pub start_session_or_die_outcome : (ask : ℕ → Answer ℤ) (c : Client) → StartOutcome ask c
unfolding start_session_or_die
start_session_or_die_outcome ask c = elim (try_servers-Tried ask server_count 0 c (omega arith)) [
  | inl (k, id, _, lt, a, before, r) ↦ inl (k, id, lt, a, (λ j l. before j (omega arith) l), r)
  | inr (all, r) ↦ inr ((λ j l. all j (omega arith) l), r)
]
