-- ===== src/Tests/EndReply.antt =====
-- The reply to the end of a session, at a session that holds an ephemeral file in the root, and a
-- reply that does not fit.
use distributed_systems_chub.Prelude.{
  ◌≡◌, refl, List, [], ◌∷◌, Text, codes, pos, negsuc, int_max, to_int, arith, ℤ_eq, text_eq, ℕ_eq,
}
use distributed_systems_chub.Exec.{fault, library_error}
use distributed_systems_chub.StateMachine.Close.{add_changed, add_size}
use distributed_systems_chub.StateMachine.EndReply.{serialize_end}
use distributed_systems_chub.StateMachine.EndReply.Reading.{EndReplyOutcome, end_reply_outcome}
use distributed_systems_chub.Tests.Scenario.{ephemeral_lock, run_log}
use distributed_systems_chub.Tests.Coding.Buffer.{buffer, buffer-IsSerializer, buffer-IsPrefixed}

abbrev changed : List Text
changed = codes "/" ∷ []

end_reply_outcome_example : EndReplyOutcome buffer (pos 27) changed
unfolding run_log add_changed
end_reply_outcome_example =
    end_reply_outcome buffer (record { session_id = pos 0 }) (run_log ephemeral_lock) (pos 27)
      changed buffer-IsSerializer buffer-IsPrefixed refl (omega arith) (omega arith, tt)

-- The counted size wraps around as an `int` does, and a negative one is no buffer.
size_wraps : add_size (pos int_max) 1 ≡ negsuc int_max
unfolding add_size to_int
size_wraps = refl

size_returns : add_size (negsuc 3) 9 ≡ pos 5
unfolding add_size to_int
size_returns = refl

-- The path of one directory, with eleven bytes.
reply_too_long : serialize_end buffer (pos 27) (codes "/some/place" ∷ []) ≡ fault library_error
unfolding serialize_end buffer
reply_too_long = refl
