-- ===== src/Client/Retry.antt =====
-- clientlib.cpp, InvokeRpc: when the repeated call comes to an end.
use distributed_systems_chub.Prelude.{
  eq_true, eq_false, ◌∙◌, ap, ◌≡◌, ◌≢◌, ◌⊎◌, inl, inr, refl, true, false, none, some, List, [], ◌∷◌,
  ◌++◌, map, text_eq,
}
use distributed_systems_chub.Exec.{Result, ok, fault, runtime_error}
use distributed_systems_chub.Store.{session_not_found}
use distributed_systems_chub.Skinny.{
  Status, StatusCode, cancelled, aborted, unavailable, not_leader, lock_related, other_code, Answer,
  done, refused,
}
use distributed_systems_chub.Client.{invoke_rpc, is_transient}

-- A failure after which the call is repeated.
abbrev pub IsRepeated : Status → Type 0
IsRepeated status =
    (status.message ≢ session_not_found)
    × ((status.code ≡ not_leader) ⊎ (status.code ≡ unavailable))

abbrev pub AllRepeated : List Status → Type 0
AllRepeated [] = Unit
AllRepeated (status ∷ statuses) = IsRepeated status × AllRepeated statuses

-- An answer that ends the repetition, and the result that it gives.
abbrev pub Settles : {A : Type 0} → Answer A → Result (Answer A) → Type 0
Settles (done a) r = r ≡ ok (done a)
Settles (refused status) r =
    ((status.message ≡ session_not_found) × (r ≡ fault runtime_error))
    ⊎ ((status.message ≢ session_not_found)
        × (status.code ≢ not_leader)
        × (status.code ≢ unavailable)
        × (r ≡ ok (refused status)))

-- What comes of a sequence of answers.
abbrev pub RetryOutcome : {A : Type 0} → List (Answer A) → Type 0
RetryOutcome {A} answers =
    ((failures : List Status) × AllRepeated failures
      × (answers ≡ map refused failures)
      × (invoke_rpc answers ≡ none))
    ⊎ ((failures : List Status) × (last : Answer A) × (later : List (Answer A)) × (r : Result
          (Answer A))
        × AllRepeated failures
        × (answers ≡ map refused failures ++ last ∷ later)
        × Settles last r
        × (invoke_rpc answers ≡ some r))

-- The codes of the servers that do not lead and of those that are not there.
is_transient-cases :
    (code : StatusCode)
    → ((is_transient code ≡ true) × ((code ≡ not_leader) ⊎ (code ≡ unavailable)))
      ⊎ ((is_transient code ≡ false) × (code ≢ not_leader) × (code ≢ unavailable))
is_transient-cases cancelled = inr (refl, (λ e. cc), λ e. cc)
is_transient-cases aborted = inr (refl, (λ e. cc), λ e. cc)
is_transient-cases unavailable = inl (refl, inr refl)
is_transient-cases not_leader = inl (refl, inl refl)
is_transient-cases lock_related = inr (refl, (λ e. cc), λ e. cc)
is_transient-cases (other_code n) = inr (refl, (λ e. cc), λ e. cc)

longer :
    {A : Type 0} (status : Status) (answers : List (Answer A))
    → IsRepeated status
    → invoke_rpc (refused status ∷ answers) ≡ invoke_rpc answers
    → RetryOutcome answers
    → RetryOutcome (refused status ∷ answers)
longer status answers h e (inl (failures, all, p, r)) =
    inl (status ∷ failures, (h, all), ap (λ l. refused status ∷ l) p, e ∙ r)
longer status answers h e (inr (failures, last, later, r, all, p, s, q)) =
    inr (status ∷ failures, last, later, r, (h, all), ap (λ l. refused status ∷ l) p, s, e ∙ q)

-- The call is repeated after exactly the failures with the code NOT_LEADER or UNAVAILABLE, unless
-- they say that the session is not found; the first answer of another kind ends it: with an
-- exception if it says that the session is not found, and else with the answer itself.
pub invoke_rpc_outcome : {A : Type 0} (answers : List (Answer A)) → RetryOutcome answers
unfolding invoke_rpc
invoke_rpc_outcome [] = inl ([], tt, refl, refl)
invoke_rpc_outcome (done a ∷ answers) = inr ([], done a, answers, ok (done a), tt, refl, refl, refl)
invoke_rpc_outcome (refused status ∷ answers) =
    elim (text_eq.dec status.message session_not_found) [
      | yes p ↦ inr (
        [],
        refused status,
        answers,
        fault runtime_error,
        tt,
        refl,
        inl (p, refl),
        rw (eq_true p),
      )
      | no n ↦ elim (is_transient-cases status.code) [
        | inl (again, which) ↦
            longer status answers (n, which) (rw (eq_false n, again)) (invoke_rpc_outcome answers)
        | inr (final, led, there) ↦ inr (
          [],
          refused status,
          answers,
          ok (refused status),
          tt,
          refl,
          inr (n, led, there, refl),
          rw (eq_false n, final),
        )
      ]
    ]
