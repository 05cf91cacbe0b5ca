-- ===== src/Tests/Coding.antt =====
-- The generated code at a concrete serializer: the text that the generator prints for two
-- messages, and the instances of the theorems.
pub mod Buffer
use distributed_systems_chub.Prelude.{
  ◌≡◌, refl, List, [], ◌∷◌, ◌++◌, Text, codes, pos, text_eq, ℕ_eq, false, arith,
}
use distributed_systems_chub.Exec.{ok}
use distributed_systems_chub.Dict.{get}
use distributed_systems_chub.Action.{open_return, Codec, Action}
use distributed_systems_chub.Codegen.{
  BaseType, base_type, string_type, type_int32, type_string, newline, factory,
}
use distributed_systems_chub.Codegen.Output.{gen_enum, gen_structs}
use distributed_systems_chub.Codegen.Meaning.{Members, int_value, string_value}
use distributed_systems_chub.Codegen.Meaning.RoundTrip.{SerializeOutcome, serialize_outcome}
use distributed_systems_chub.Codegen.Actions.{raft_actions, create_action}
use distributed_systems_chub.Codegen.Actions.Coding.{IsRanged, CodingOutcome, coding_outcome}
use distributed_systems_chub.Codegen.Replies.{serialize_reply}
use distributed_systems_chub.Codegen.Replies.Coding.{ReplyOutcome, reply_outcome}
use distributed_systems_chub.StateMachine.Committing.{CommitOutcome, commit_outcome}
use distributed_systems_chub.Tests.Scenario.{locks}
use distributed_systems_chub.Tests.Sample.{shared_state}
use Buffer.{buffer, buffer-IsSerializer}

generated_enum :
    gen_enum raft_actions
    ≡ codes
        "enum class ActionName { OpenAction,CloseAction,StartSessionAction,EndSessionAction,AcqAction,RelAction,SetContentAction,DeleteAction};"
      ++ newline
unfolding gen_enum text_eq
generated_enum = refl

abbrev int32 : Text → BaseType
int32 name = base_type (record { type_name = codes "int32_t"; name = name; nuname = codes "i32" })

-- The struct OpenReturn, and its values for a file that was opened.
abbrev open_return_fields : List BaseType
open_return_fields =
    int32 (codes "res")
    ∷ string_type
        (record { type_name = codes "std::string"; name = codes "msg"; nuname = codes "str" })
    ∷ int32 (codes "fh")
    ∷ []

abbrev opened_members : Members
opened_members =
    (codes "res", int_value (pos 0))
    ∷ (codes "msg", string_value (codes "opened"))
    ∷ (codes "fh", int_value (pos 7))
    ∷ []

serialize_outcome_example : SerializeOutcome buffer 0 false open_return_fields opened_members
unfolding factory get text_eq
serialize_outcome_example =
    serialize_outcome buffer 0 false open_return_fields opened_members buffer-IsSerializer
      (omega arith)
      (
        record {
          type_enum = type_int32;
          made = refl;
          value = int_value (pos 0);
          held = refl;
          typed = (omega arith, omega arith);
        },
        (
          record {
            type_enum = type_string;
            made = refl;
            value = string_value (codes "opened");
            held = refl;
            typed = omega arith;
          },
          (
            record {
              type_enum = type_int32;
              made = refl;
              value = int_value (pos 7);
              held = refl;
              typed = (omega arith, omega arith);
            },
            tt,
          ),
        ),
      )

abbrev locks_ranged : IsRanged (locks (pos 1) (pos 0))
locks_ranged = ((omega arith, omega arith), (omega arith, omega arith), (omega arith, omega arith))

coding_outcome_example : CodingOutcome buffer (locks (pos 1) (pos 0))
coding_outcome_example =
    coding_outcome buffer (locks (pos 1) (pos 0)) buffer-IsSerializer locks_ranged

abbrev test_codec : Codec
test_codec = record {
  create_action_from_buf = create_action buffer;
  serialize = serialize_reply buffer;
}

commit_outcome_example : CommitOutcome buffer test_codec (locks (pos 1) (pos 0)) 12 shared_state
commit_outcome_example =
    commit_outcome buffer test_codec (locks (pos 1) (pos 0)) 12 shared_state buffer-IsSerializer
      (λ buf. refl) locks_ranged

reply_outcome_example : ReplyOutcome buffer (open_return (pos 0) (codes "OK") (pos 3))
reply_outcome_example =
    reply_outcome buffer (open_return (pos 0) (codes "OK") (pos 3)) buffer-IsSerializer
      ((omega arith, omega arith), omega arith, (omega arith, omega arith))
