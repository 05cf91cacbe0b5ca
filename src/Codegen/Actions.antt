-- ===== src/Codegen/Actions.antt =====
-- protos/raft.proto, and the structs and the dispatch that codegen.cpp makes of it, as the codec of
-- the replicated log.
pub mod Coding
use distributed_systems_chub.Prelude.{
  ℕ, zero, suc, ◌≡◌, Option, none, some, List, [], ◌∷◌, Text, codes, ℤ, pos, negsuc, text_eq,
  get_elem?, true, length, ◌++◌,
}
use distributed_systems_chub.Exec.{Result, ok, fault, aborted, library_error, chain}
use distributed_systems_chub.Dict.{get}
use distributed_systems_chub.Action.{
  Action, open_action, close_action, start_session_action, end_session_action, acq_action,
  rel_action, set_content_action, delete_action, OpenAction, CloseAction, EndSessionAction,
  AcqAction, RelAction, SetContentAction, DeleteAction, Codec, Reply,
}
use distributed_systems_chub.Codegen.{type_int64, type_int32, type_string, FieldType, BaseType}
use distributed_systems_chub.Codegen.Output.{Message, make_fields, actions}
use distributed_systems_chub.Codegen.Meaning.{
  Value, int_value, string_value, Members, BufferSerializer, serialize, deserialize,
}

abbrev session_and_handle : List (FieldType × Text)
session_and_handle = (type_int64, codes "session_id") ∷ (type_int32, codes "fh") ∷ []

-- The messages whose names end in Action, in the order of the file.
abbrev pub raft_actions : List Message
raft_actions =
    record {
      name = codes "OpenAction";
      fields =
          (type_int64, codes "session_id")
          ∷ (type_string, codes "path")
          ∷ (type_int32, codes "is_directory")
          ∷ (type_int32, codes "is_ephemeral")
          ∷ [];
    }
    ∷ record { name = codes "CloseAction"; fields = session_and_handle }
    ∷ record { name = codes "StartSessionAction"; fields = [] }
    ∷ record { name = codes "EndSessionAction"; fields = (type_int64, codes "session_id") ∷ [] }
    ∷ record {
      name = codes "AcqAction";
      fields = session_and_handle ++ (type_int32, codes "ex") ∷ [];
    }
    ∷ record { name = codes "RelAction"; fields = session_and_handle }
    ∷ record {
      name = codes "SetContentAction";
      fields = session_and_handle ++ (type_string, codes "content") ∷ [];
    }
    ∷ record { name = codes "DeleteAction"; fields = session_and_handle }
    ∷ []

abbrev res_and_msg : List (FieldType × Text)
res_and_msg = (type_int32, codes "res") ∷ (type_string, codes "msg") ∷ []

-- The other messages of the file.
abbrev pub raft_replies : List Message
raft_replies =
    record { name = codes "Response"; fields = res_and_msg }
    ∷ record { name = codes "OpenReturn"; fields = res_and_msg ++ (type_int32, codes "fh") ∷ [] }
    ∷ record {
      name = codes "StartSessionReturn";
      fields = res_and_msg ++ (type_int64, codes "session_id") ∷ [];
    }
    ∷ record {
      name = codes "CloseReturn";
      fields =
          res_and_msg
          ++ ((type_int32, codes "need_notify") ∷ (type_string, codes "parent_path") ∷ []);
    }
    ∷ []

-- The number of an action's name in the enumeration, and the members of its struct.
unfoldable pub number : Action → ℕ
number (open_action a) = 0
number (close_action a) = 1
number start_session_action = 2
number (end_session_action a) = 3
number (acq_action a) = 4
number (rel_action a) = 5
number (set_content_action a) = 6
number (delete_action a) = 7

abbrev handle_members : ℤ → ℤ → Members
handle_members session_id fh =
    (codes "session_id", int_value session_id) ∷ (codes "fh", int_value fh) ∷ []

unfoldable pub members : Action → Members
members (open_action a) =
    (codes "session_id", int_value a.session_id)
    ∷ (codes "path", string_value a.path)
    ∷ (codes "is_directory", int_value a.is_directory)
    ∷ (codes "is_ephemeral", int_value a.is_ephemeral)
    ∷ []
members (close_action a) = handle_members a.session_id a.fh
members start_session_action = []
members (end_session_action a) = (codes "session_id", int_value a.session_id) ∷ []
members (acq_action a) = handle_members a.session_id a.fh ++ (codes "ex", int_value a.ex) ∷ []
members (rel_action a) = handle_members a.session_id a.fh
members (set_content_action a) =
    handle_members a.session_id a.fh ++ (codes "content", string_value a.content) ∷ []
members (delete_action a) = handle_members a.session_id a.fh

abbrev int_member : Option Value → Result ℤ
int_member (some (int_value i)) = ok i
int_member _ = fault library_error

abbrev string_member : Option Value → Result Text
string_member (some (string_value t)) = ok t
string_member _ = fault library_error

-- The struct whose name has the number in the enumeration, from its members.
unfoldable pub from_members : ℕ → Members → Result Action
from_members zero m = chain (int_member (get m (codes "session_id"))) λ session_id.
    chain (string_member (get m (codes "path"))) λ path.
      chain (int_member (get m (codes "is_directory"))) λ is_directory.
        chain (int_member (get m (codes "is_ephemeral"))) λ is_ephemeral. ok (
          open_action (record {
            session_id = session_id;
            path = path;
            is_directory = is_directory;
            is_ephemeral = is_ephemeral;
          }))
from_members (suc zero) m = chain (int_member (get m (codes "session_id"))) λ session_id.
    chain (int_member (get m (codes "fh")))
      λ fh. ok (close_action (record { session_id = session_id; fh = fh }))
from_members (suc (suc zero)) m = ok start_session_action
from_members (suc (suc (suc zero))) m =
    chain (int_member (get m (codes "session_id")))
      λ session_id. ok (end_session_action (record { session_id = session_id }))
from_members (suc (suc (suc (suc zero)))) m =
    chain (int_member (get m (codes "session_id"))) λ session_id.
      chain (int_member (get m (codes "fh"))) λ fh.
        chain (int_member (get m (codes "ex")))
          λ ex. ok (acq_action (record { session_id = session_id; fh = fh; ex = ex }))
from_members (suc (suc (suc (suc (suc zero))))) m =
    chain (int_member (get m (codes "session_id"))) λ session_id.
      chain (int_member (get m (codes "fh")))
        λ fh. ok (rel_action (record { session_id = session_id; fh = fh }))
from_members (suc (suc (suc (suc (suc (suc zero)))))) m =
    chain (int_member (get m (codes "session_id"))) λ session_id.
      chain (int_member (get m (codes "fh"))) λ fh.
        chain (string_member (get m (codes "content"))) λ content.
          ok (set_content_action (record { session_id = session_id; fh = fh; content = content }))
from_members (suc (suc (suc (suc (suc (suc (suc zero))))))) m =
    chain (int_member (get m (codes "session_id"))) λ session_id.
      chain (int_member (get m (codes "fh")))
        λ fh. ok (delete_action (record { session_id = session_id; fh = fh }))
from_members _ m = fault aborted

abbrev pub fields_of : Option Message → Result (List BaseType)
fields_of none = fault aborted
fields_of (some message) = make_fields message.fields

-- The fields of the struct with the number; another number meets the assertion of the switch.
unfoldable pub action_fields : ℕ → Result (List BaseType)
unfolding make_fields
action_fields n = fields_of (get_elem? raft_actions n)

-- The method `serialize` of each of the structs.
unfoldable pub serialize_action : BufferSerializer → Action → Result Text
unfolding action_fields number members serialize
serialize_action bs a =
    chain (action_fields (number a)) λ fields. serialize bs (number a) true fields (members a)

unfoldable pub dispatch : BufferSerializer → Text → Option (ℤ × Text) → Result Action
unfolding action_fields deserialize from_members
dispatch bs buf none = fault library_error
dispatch bs buf (some (negsuc n, rest)) = fault aborted
dispatch bs buf (some (pos n, rest)) =
    chain (action_fields n) λ fields. chain (deserialize bs n true fields buf) λ m. from_members n m

-- create_action_from_buf
unfoldable pub create_action : BufferSerializer → Text → Result Action
unfolding dispatch
create_action bs buf = dispatch bs buf (bs.get_i8 buf)
