-- ===== src/StateMachine/EndReply/Size.antt =====
-- The size that StateMachine.cpp counts for the reply to the end of a session.
use distributed_systems_chub.Prelude.{
  ℕ, zero, suc, ◌+◌, ◌*◌, ◌≡◌, ◌≤◌, ◌∙◌, ap, pos, int_max, to_int, to_int-pos, arith, Option, none,
  some, List, [], ◌∷◌, Text, ℤ, length, length-append, refl, subst, ◌++◌,
}
use distributed_systems_chub.Exec.{Exec, Result, ok, fault, ◌>>=◌}
use distributed_systems_chub.Exec.Keeps.{Keeps, Any, OkIs, Keeps-pure, Keeps-bind}
use distributed_systems_chub.Session.{Entry}
use distributed_systems_chub.Action.{EndSessionAction, Reply, end_session_return}
use distributed_systems_chub.StateMachine.State.{State}
use distributed_systems_chub.StateMachine.Close.{
  Changed, add_changed, add_size, close_all, end_found, end_session,
}

-- The sum of the numbers up to `n`.
abbrev pub triangle : ℕ → ℕ
triangle zero = 0
triangle (suc n) = suc n + triangle n

-- The sum over the paths, each of which adds 8 and the number of the paths so far.
abbrev pub counted : List Text → ℕ
counted paths = 18 + 8 * length paths + triangle (length paths)

-- The size that is counted for the paths, as long as it is within an `int`.
abbrev pub IsCounted : ℤ → List Text → Type 0
IsCounted size paths = counted paths ≤ int_max → size ≡ pos (counted paths)

add_changed-IsCounted :
    (c : Changed) (o : Option Text)
    → IsCounted c.size c.paths
    → IsCounted (add_changed c o).size (add_changed c o).paths
unfolding add_changed add_size
add_changed-IsCounted c none h = h
add_changed-IsCounted c (some p) h =
    let one_more : length (c.paths ++ p ∷ []) ≡ suc (length c.paths) =
      omega (arith, length-append c.paths (p ∷ [])) in
    λ fits.
      let before : c.size ≡ pos (counted c.paths) = h (ground (arith, fits, one_more)) in
      let sum : counted c.paths + (length (c.paths ++ p ∷ []) + 8) ≡ counted (c.paths ++ p ∷ []) =
        rw one_more (omega arith) in
      ap (λ n. add_size n (length (c.paths ++ p ∷ []) + 8)) before
      ∙ ap (λ n. to_int (pos n)) sum
      ∙ to_int-pos _ (omega (arith, fits))

abbrev CountedReply : Reply → Type 0
CountedReply (end_session_return size paths) = IsCounted size paths
CountedReply _ = Unit {0}

-- A state of which nothing is asked.
abbrev AnyState : State → Type 0
AnyState s = Unit {0}

result-Any : {A : Type 0} (r : Result A) → OkIs Any r
result-Any (ok a) = tt
result-Any (fault e) = tt

then_any :
    {A B : Type 0} {T : B → Type 0} (m : Exec State A) (f : A → Exec State B)
    → ((a : A) → Keeps AnyState T (f a))
    → Keeps AnyState T (m >>= f)
then_any m f kf =
    Keeps-bind Any m f (record { state = λ s h. tt; result = λ s h. result-Any (m s).0 })
      (λ a h. kf a)

close_all-IsCounted :
    (sid : ℤ) (n i : ℕ) (c : Changed)
    → IsCounted c.size c.paths
    → Keeps AnyState (λ d. IsCounted d.size d.paths) (close_all sid n i c)
unfolding close_all
close_all-IsCounted sid zero i c h = Keeps-pure c h
close_all-IsCounted sid (suc n) i c h = then_any _ _ λ found. then_any _ _ λ e. then_any _ _ λ ret.
    then_any _ _
      λ done. close_all-IsCounted sid n (i + 1) (add_changed c ret) (add_changed-IsCounted c ret h)

end_found-Counted :
    (a : EndSessionAction) (o : Option Entry) → Keeps AnyState CountedReply (end_found a o)
unfolding end_found
end_found-Counted a none = Keeps-pure _ tt
end_found-Counted a (some e) =
    Keeps-bind (λ d. IsCounted d.size d.paths) _ _
      (close_all-IsCounted a.session_id _ 0 _ (λ fits. refl))
      λ c h. then_any _ _ λ dropped. Keeps-pure (end_session_return c.size c.paths) h

end_session-Counted : (a : EndSessionAction) → Keeps AnyState CountedReply (end_session a)
unfolding end_session
end_session-Counted a = then_any _ _ λ o. end_found-Counted a o

replied :
    (r : Result Reply) (size : ℤ) (paths : List Text)
    → OkIs CountedReply r
    → r ≡ ok (end_session_return size paths)
    → IsCounted size paths
replied r size paths h e = subst (OkIs CountedReply) e h

-- The size in the reply to the end of a session, in any state.
pub end_session-IsCounted :
    (a : EndSessionAction) (s : State) (size : ℤ) (paths : List Text)
    → (end_session a s).0 ≡ ok (end_session_return size paths)
    → IsCounted size paths
end_session-IsCounted a s size paths e =
    replied (end_session a s).0 size paths ((end_session-Counted a).result s tt) e
