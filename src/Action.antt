-- ===== src/Action.antt =====
-- protos/raft.proto: what the servers write to the replicated log, and what the state machine
-- returns. The C++ structs are generated from these messages; an enumeration is their variant.
use distributed_systems_chub.Prelude.{List, Text, ℤ}
use distributed_systems_chub.Exec.{Result}

pub record OpenAction : Type 0 where
  pub session_id : ℤ
  pub path : Text
  pub is_directory : ℤ
  pub is_ephemeral : ℤ

pub record CloseAction : Type 0 where
  pub session_id : ℤ
  pub fh : ℤ

pub record EndSessionAction : Type 0 where
  pub session_id : ℤ

pub record AcqAction : Type 0 where
  pub session_id : ℤ
  pub fh : ℤ
  pub ex : ℤ

pub record RelAction : Type 0 where
  pub session_id : ℤ
  pub fh : ℤ

pub record SetContentAction : Type 0 where
  pub session_id : ℤ
  pub fh : ℤ
  pub content : Text

pub record DeleteAction : Type 0 where
  pub session_id : ℤ
  pub fh : ℤ

pub data Action : Type 0 where
  open_action : OpenAction → Action
  close_action : CloseAction → Action
  start_session_action : Action
  end_session_action : EndSessionAction → Action
  acq_action : AcqAction → Action
  rel_action : RelAction → Action
  set_content_action : SetContentAction → Action
  delete_action : DeleteAction → Action

-- The arguments stand in the order of the message's fields.
pub data Reply : Type 0 where
  response : ℤ → Text → Reply
  open_return : ℤ → Text → ℤ → Reply
  start_session_return : ℤ → Text → ℤ → Reply
  close_return : ℤ → Text → ℤ → Text → Reply
  -- the buffer that the end of a session fills by hand: its size, and the paths after their number
  end_session_return : ℤ → List Text → Reply

-- The functions that codegen.cpp writes when the program is built, over buffers of bytes.
pub record Codec : Type 0 where
  pub create_action_from_buf : Text → Result Action
  pub serialize : Reply → Result Text
