-- ===== src/Codegen/Replies/Coding.antt =====
-- The replies of protos/raft.proto: what a handler of StateMachine.cpp returns, SkinnyImpl.cpp reads
-- as an action::Response first, and then as the struct that it is.
use distributed_systems_chub.Prelude.{
  inl, arith, ℤ, ◌≡◌, ◌∙◌, refl, inr, false, some, List, [], ◌∷◌, ◌++◌, Text, codes, text_eq, ℕ_eq,
}
use distributed_systems_chub.Exec.{ok}
use distributed_systems_chub.Dict.{get}
use distributed_systems_chub.Action.{
  Reply, response, open_return, start_session_return, close_return, end_session_return,
}
use distributed_systems_chub.Codegen.{factory, BaseType}
use distributed_systems_chub.Codegen.Meaning.{
  Members, BufferSerializer, IsSerializer, IsInt32, IsInt64, IsShort, int_value, string_value,
  deserialize,
}
use distributed_systems_chub.Codegen.Meaning.RoundTrip.{serialize_outcome, AllFilled, Names}
use distributed_systems_chub.Codegen.Meaning.Filled.{
  i64, i32, str, i64-IsFilled, i32-IsFilled, str-IsFilled,
}
use distributed_systems_chub.Codegen.Replies.Front.{serialize-front}
use distributed_systems_chub.Codegen.Replies.{
  response_struct, struct_of, reply_members, struct_fields, serialize_struct, serialize_reply,
  read_struct,
}
use distributed_systems_chub.Skinny.{reply_res, reply_msg}

-- The reply is a struct, and its numbers and texts are within the types of its fields.
abbrev pub IsReplyRanged : Reply → Type 0
IsReplyRanged (response res msg) = IsInt32 res × IsShort msg
IsReplyRanged (open_return res msg fh) = IsInt32 res × IsShort msg × IsInt32 fh
IsReplyRanged (start_session_return res msg id) = IsInt32 res × IsShort msg × IsInt64 id
IsReplyRanged (close_return res msg need_notify parent_path) =
    IsInt32 res × IsShort msg × IsInt32 need_notify × IsShort parent_path
IsReplyRanged (end_session_return size paths) = ⊥

-- The fields that every reply begins with.
abbrev common : List BaseType
common = i32 (codes "res") ∷ str (codes "msg") ∷ []

-- The fields that a reply has besides those.
abbrev pub ReadsOwn : Reply → Members → Type 0
ReadsOwn (response res msg) m = Unit
ReadsOwn (open_return res msg fh) m = get m (codes "fh") ≡ some (int_value fh)
ReadsOwn (start_session_return res msg id) m = get m (codes "session_id") ≡ some (int_value id)
ReadsOwn (close_return res msg need_notify parent_path) m =
    (get m (codes "need_notify") ≡ some (int_value need_notify))
    × (get m (codes "parent_path") ≡ some (string_value parent_path))
ReadsOwn (end_session_return size paths) m = Unit

-- What is shared by the replies that are structs.
record IsReplyCoded (r : Reply) : Type 0 where
  others : List BaseType
  made : struct_fields (struct_of r) ≡ ok (common ++ others)
  filled : AllFilled (reply_members r) (common ++ others)
  front : AllFilled (reply_members r) common
  res : get (reply_members r) (codes "res") ≡ some (int_value (reply_res r))
  msg : get (reply_members r) (codes "msg") ≡ some (string_value (reply_msg r))
  own :
      (m : Members)
      → ((k : Text) → Names k (common ++ others) → get m k ≡ get (reply_members r) k)
      → ReadsOwn r m
  written : (bs : BufferSerializer) → serialize_reply bs r ≡ serialize_struct bs r

-- The buffer, what action::Response reads of it, and what the reply's own struct reads.
abbrev pub ReplyOutcome : BufferSerializer → Reply → Type 0
ReplyOutcome bs r =
    (buf : Text) × (m : Members) × (own : Members) × (serialize_reply bs r ≡ ok buf)
    × (read_struct bs response_struct buf ≡ ok m)
    × (get m (codes "res") ≡ some (int_value (reply_res r)))
    × (get m (codes "msg") ≡ some (string_value (reply_msg r)))
    × (read_struct bs (struct_of r) buf ≡ ok own)
    × ReadsOwn r own

read_response :
    (bs : BufferSerializer) (buf : Text)
    → read_struct bs response_struct buf ≡ deserialize bs 0 false common buf
unfolding read_struct factory
read_response bs buf = refl

IsReplyCoded-outcome :
    (bs : BufferSerializer) (r : Reply) → IsSerializer bs → IsReplyCoded r → ReplyOutcome bs r
unfolding serialize_struct read_struct
IsReplyCoded-outcome bs r law c =
    let (buf, own, wrote, read, agree) =
      serialize_outcome bs 0 false (common ++ c.others) (reply_members r) law (omega arith)
        c.filled in
    let (m, front, first) =
      serialize-front bs (reply_members r) common c.others buf law c.front wrote in
    (
      buf,
      m,
      own,
      c.written bs ∙ rw c.made wrote,
      read_response bs buf ∙ front,
      first (codes "res") (inl refl) ∙ c.res,
      first (codes "msg") (inr (inl refl)) ∙ c.msg,
      rw c.made read,
      c.own own agree,
    )

common-filled :
    (m : Members) (res : ℤ) (msg : Text)
    → get m (codes "res") ≡ some (int_value res)
    → get m (codes "msg") ≡ some (string_value msg)
    → IsInt32 res
    → IsShort msg
    → AllFilled m common
common-filled m res msg has_res has_msg small short = (
  i32-IsFilled m (codes "res") res has_res small,
  (str-IsFilled m (codes "msg") msg has_msg short, tt),
)

reply-IsReplyCoded : (r : Reply) → IsReplyRanged r → IsReplyCoded r
unfolding struct_of reply_members struct_fields factory get text_eq ℕ_eq reply_res reply_msg
    serialize_reply
reply-IsReplyCoded (response res msg) h = record {
  others = [];
  made = refl;
  filled = common-filled _ res msg refl refl h.0 h.1;
  front = common-filled _ res msg refl refl h.0 h.1;
  res = refl;
  msg = refl;
  own = λ m agree. tt;
  written = λ bs. refl;
}
reply-IsReplyCoded (open_return res msg fh) h = record {
  others = i32 (codes "fh") ∷ [];
  made = refl;
  filled = (
    i32-IsFilled _ _ res refl h.0,
    (str-IsFilled _ _ msg refl h.1, (i32-IsFilled _ _ fh refl h.2, tt)),
  );
  front = common-filled _ res msg refl refl h.0 h.1;
  res = refl;
  msg = refl;
  own = λ m agree. agree (codes "fh") (inr (inr (inl refl)));
  written = λ bs. refl;
}
reply-IsReplyCoded (start_session_return res msg id) h = record {
  others = i64 (codes "session_id") ∷ [];
  made = refl;
  filled = (
    i32-IsFilled _ _ res refl h.0,
    (str-IsFilled _ _ msg refl h.1, (i64-IsFilled _ _ id refl h.2, tt)),
  );
  front = common-filled _ res msg refl refl h.0 h.1;
  res = refl;
  msg = refl;
  own = λ m agree. agree (codes "session_id") (inr (inr (inl refl)));
  written = λ bs. refl;
}
reply-IsReplyCoded (close_return res msg need_notify parent_path) h = record {
  others = i32 (codes "need_notify") ∷ str (codes "parent_path") ∷ [];
  made = refl;
  filled = (
    i32-IsFilled _ _ res refl h.0,
    (
      str-IsFilled _ _ msg refl h.1,
      (i32-IsFilled _ _ need_notify refl h.2, (str-IsFilled _ _ parent_path refl h.3, tt)),
    ),
  );
  front = common-filled _ res msg refl refl h.0 h.1;
  res = refl;
  msg = refl;
  own = λ m agree. (
    agree (codes "need_notify") (inr (inr (inl refl))),
    agree (codes "parent_path") (inr (inr (inr (inl refl)))),
  );
  written = λ bs. refl;
}
reply-IsReplyCoded (end_session_return size paths) h = absurd h

-- Every reply that is a struct, with its numbers and texts within the types of their fields, is written
-- within its buffer; action::Response, which the server reads first whatever the reply is, reads the
-- reply's result and message from it, and the reply's own struct reads its other fields.
pub reply_outcome :
    (bs : BufferSerializer) (r : Reply) → IsSerializer bs → IsReplyRanged r → ReplyOutcome bs r
reply_outcome bs r law h = IsReplyCoded-outcome bs r law (reply-IsReplyCoded r h)
