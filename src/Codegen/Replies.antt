-- ===== src/Codegen/Replies.antt =====
-- protos/raft.proto: the structs that codegen.cpp makes of the replies, and how they are read.
pub mod Front
pub mod Coding
use distributed_systems_chub.Prelude.{
  ℕ, List, [], ◌∷◌, ◌++◌, Text, codes, text_eq, ℕ_eq, get_elem?, false,
}
use distributed_systems_chub.Exec.{Result, chain}
use distributed_systems_chub.Action.{
  Reply, response, open_return, start_session_return, close_return, end_session_return,
}
use distributed_systems_chub.Codegen.{BaseType}
use distributed_systems_chub.Codegen.Output.{make_fields}
use distributed_systems_chub.Codegen.Meaning.{
  int_value, string_value, Members, BufferSerializer, serialize, deserialize,
}
use distributed_systems_chub.Codegen.Actions.{raft_replies, fields_of}
use distributed_systems_chub.StateMachine.EndReply.{serialize_end}

-- The structs in the order of the file.
abbrev pub response_struct : ℕ
response_struct = 0

-- The number of a reply's struct; the buffer for the end of a session is filled by hand.
unfoldable pub struct_of : Reply → ℕ
struct_of (response res msg) = response_struct
struct_of (open_return res msg fh) = 1
struct_of (start_session_return res msg id) = 2
struct_of (close_return res msg need_notify parent_path) = 3
struct_of (end_session_return size paths) = response_struct

unfoldable pub reply_members : Reply → Members
reply_members (response res msg) =
    (codes "res", int_value res) ∷ (codes "msg", string_value msg) ∷ []
reply_members (open_return res msg fh) =
    (codes "res", int_value res) ∷ (codes "msg", string_value msg) ∷ (codes "fh", int_value fh) ∷ []
reply_members (start_session_return res msg id) =
    (codes "res", int_value res)
    ∷ (codes "msg", string_value msg)
    ∷ (codes "session_id", int_value id)
    ∷ []
reply_members (close_return res msg need_notify parent_path) =
    (codes "res", int_value res)
    ∷ (codes "msg", string_value msg)
    ∷ (codes "need_notify", int_value need_notify)
    ∷ (codes "parent_path", string_value parent_path)
    ∷ []
reply_members (end_session_return size paths) = []

unfoldable pub struct_fields : ℕ → Result (List BaseType)
unfolding make_fields
struct_fields n = fields_of (get_elem? raft_replies n)

-- What the handlers return: the method `serialize` of a struct, or the buffer filled by hand.
unfoldable pub serialize_struct : BufferSerializer → Reply → Result Text
unfolding struct_fields reply_members serialize struct_of
serialize_struct bs r =
    chain (struct_fields (struct_of r)) λ fields. serialize bs 0 false fields (reply_members r)

unfoldable pub serialize_reply : BufferSerializer → Reply → Result Text
unfolding serialize_struct serialize_end
serialize_reply bs (end_session_return size paths) = serialize_end bs size paths
serialize_reply bs r = serialize_struct bs r

-- The constructor of a struct from a buffer.
unfoldable pub read_struct : BufferSerializer → ℕ → Text → Result Members
unfolding struct_fields deserialize
read_struct bs n buf = chain (struct_fields n) λ fields. deserialize bs 0 false fields buf
