-- ===== src/Codegen/Actions/Coding.antt =====
-- codegen.cpp: the generated codec of the log's actions.
use distributed_systems_chub.Prelude.{
  ◌-◌, ℕ, ◌<◌, ◌≡◌, ◌∙◌, refl, sym, inl, inr, Bool-cases, true, Option, none, some, List, [], ◌∷◌,
  ◌++◌, Text, codes, pos, text_eq, ℕ_eq, length, leb, arith,
}
use mathlib.Core.List.{append_assoc}
use distributed_systems_chub.Exec.{ok}
use distributed_systems_chub.Dict.{get}
use distributed_systems_chub.Action.{
  Action, open_action, close_action, start_session_action, end_session_action, acq_action,
  rel_action, set_content_action, delete_action,
}
use distributed_systems_chub.Codegen.{BaseType, factory, writer_statements}
use distributed_systems_chub.Codegen.Output.{make_fields}
use distributed_systems_chub.Codegen.Meaning.{
  Members, BufferSerializer, IsSerializer, IsInt32, IsInt64, IsShort, serialize, fill, run_writer,
  append_to,
}
use distributed_systems_chub.Codegen.Meaning.RoundTrip.{AllFilled, Names, serialize_outcome}
use distributed_systems_chub.Codegen.Meaning.Filled.{
  i64, i32, str, i64-IsFilled, i32-IsFilled, str-IsFilled,
}
use distributed_systems_chub.Codegen.Actions.{
  number, members, from_members, action_fields, serialize_action, create_action, dispatch,
}

-- The numbers and texts of the action are within the types of their fields.
abbrev pub IsRanged : Action → Type 0
IsRanged (open_action a) =
    IsInt64 a.session_id × IsShort a.path × IsInt32 a.is_directory × IsInt32 a.is_ephemeral
IsRanged (close_action a) = IsInt64 a.session_id × IsInt32 a.fh
IsRanged start_session_action = Unit
IsRanged (end_session_action a) = IsInt64 a.session_id
IsRanged (acq_action a) = IsInt64 a.session_id × IsInt32 a.fh × IsInt32 a.ex
IsRanged (rel_action a) = IsInt64 a.session_id × IsInt32 a.fh
IsRanged (set_content_action a) = IsInt64 a.session_id × IsInt32 a.fh × IsShort a.content
IsRanged (delete_action a) = IsInt64 a.session_id × IsInt32 a.fh

ok-inj : {A : Type 0} {a b : A} → ok a ≡ ok b → a ≡ b
ok-inj p = cc

pub fill-front :
    (bs : BufferSerializer) (size : ℕ) (b : Text) (o : Option Text) (buf : Text)
    → fill bs size (append_to (some b) o) ≡ ok buf
    → (tail : Text) × (buf ≡ b ++ tail)
unfolding fill
fill-front bs size b none buf h = cc
fill-front bs size b (some rest) buf h = elim (Bool-cases (leb (length (b ++ rest)) size)) [
  | inl fits ↦ (
    rest ++ bs.fresh (size - length (b ++ rest)),
    sym (ok-inj (rw fits at h)) ∙ append_assoc b rest _,
  )
  | inr long ↦ cc (rw long at h)
]

-- The buffer of an action starts with its number.
serialize-front :
    (bs : BufferSerializer) (n : ℕ) (fields : List BaseType) (m : Members) (buf : Text)
    → serialize bs n true fields m ≡ ok buf
    → (tail : Text) × (buf ≡ bs.put_u8 n ++ tail)
unfolding serialize run_writer writer_statements
serialize-front bs n fields m buf h = fill-front bs _ (bs.put_u8 n) _ buf h

-- What is shared by all actions: the fields of the struct, filled by the action's members, from
-- which the action comes back.
record IsCoded (a : Action) : Type 0 where
  fields : List BaseType
  made : action_fields (number a) ≡ ok fields
  filled : AllFilled (members a) fields
  small : number a < 128
  back :
      (m : Members)
      → ((k : Text) → Names k fields → get m k ≡ get (members a) k)
      → from_members (number a) m ≡ ok a

abbrev pub CodingOutcome : BufferSerializer → Action → Type 0
CodingOutcome bs a = (buf : Text) × (serialize_action bs a ≡ ok buf) × (create_action bs buf ≡ ok a)

IsCoded-coding :
    (bs : BufferSerializer) (a : Action) → IsSerializer bs → IsCoded a → CodingOutcome bs a
unfolding serialize_action create_action dispatch
IsCoded-coding bs a law c =
    let (buf, m, wrote, read, agree) =
      serialize_outcome bs (number a) true c.fields (members a) law c.small c.filled in
    let (tail, front) = serialize-front bs (number a) c.fields (members a) buf wrote in
    let first : bs.get_i8 buf ≡ some (pos (number a), tail) =
      rw front (law.i8_u8 (number a) tail c.small) in
    (buf, rw (c.made, wrote), rw (first, c.made, read) (c.back m agree))

action-IsCoded : (a : Action) → IsRanged a → IsCoded a
unfolding number members from_members action_fields make_fields factory get text_eq ℕ_eq
action-IsCoded (open_action a) h = record {
  fields =
      i64 (codes "session_id")
      ∷ str (codes "path")
      ∷ i32 (codes "is_directory")
      ∷ i32 (codes "is_ephemeral")
      ∷ [];
  made = refl;
  filled = (
    i64-IsFilled _ _ a.session_id refl h.0,
    (
      str-IsFilled _ _ a.path refl h.1,
      (i32-IsFilled _ _ a.is_directory refl h.2, (i32-IsFilled _ _ a.is_ephemeral refl h.3, tt)),
    ),
  );
  small = omega arith;
  back = λ m agree. rw (
    agree (codes "session_id") (inl refl),
    agree (codes "path") (inr (inl refl)),
    agree (codes "is_directory") (inr (inr (inl refl))),
    agree (codes "is_ephemeral") (inr (inr (inr (inl refl)))),
  );
}
action-IsCoded (close_action a) h = record {
  fields = i64 (codes "session_id") ∷ i32 (codes "fh") ∷ [];
  made = refl;
  filled = (i64-IsFilled _ _ a.session_id refl h.0, (i32-IsFilled _ _ a.fh refl h.1, tt));
  small = omega arith;
  back = λ m agree. rw (agree (codes "session_id") (inl refl), agree (codes "fh") (inr (inl refl)));
}
action-IsCoded start_session_action h = record {
  fields = [];
  made = refl;
  filled = tt;
  small = omega arith;
  back = λ m agree. refl;
}
action-IsCoded (end_session_action a) h = record {
  fields = i64 (codes "session_id") ∷ [];
  made = refl;
  filled = (i64-IsFilled _ _ a.session_id refl h, tt);
  small = omega arith;
  back = λ m agree. rw (agree (codes "session_id") (inl refl));
}
action-IsCoded (acq_action a) h = record {
  fields = i64 (codes "session_id") ∷ i32 (codes "fh") ∷ i32 (codes "ex") ∷ [];
  made = refl;
  filled = (
    i64-IsFilled _ _ a.session_id refl h.0,
    (i32-IsFilled _ _ a.fh refl h.1, (i32-IsFilled _ _ a.ex refl h.2, tt)),
  );
  small = omega arith;
  back = λ m agree. rw (
    agree (codes "session_id") (inl refl),
    agree (codes "fh") (inr (inl refl)),
    agree (codes "ex") (inr (inr (inl refl))),
  );
}
action-IsCoded (rel_action a) h = record {
  fields = i64 (codes "session_id") ∷ i32 (codes "fh") ∷ [];
  made = refl;
  filled = (i64-IsFilled _ _ a.session_id refl h.0, (i32-IsFilled _ _ a.fh refl h.1, tt));
  small = omega arith;
  back = λ m agree. rw (agree (codes "session_id") (inl refl), agree (codes "fh") (inr (inl refl)));
}
action-IsCoded (set_content_action a) h = record {
  fields = i64 (codes "session_id") ∷ i32 (codes "fh") ∷ str (codes "content") ∷ [];
  made = refl;
  filled = (
    i64-IsFilled _ _ a.session_id refl h.0,
    (i32-IsFilled _ _ a.fh refl h.1, (str-IsFilled _ _ a.content refl h.2, tt)),
  );
  small = omega arith;
  back = λ m agree. rw (
    agree (codes "session_id") (inl refl),
    agree (codes "fh") (inr (inl refl)),
    agree (codes "content") (inr (inr (inl refl))),
  );
}
action-IsCoded (delete_action a) h = record {
  fields = i64 (codes "session_id") ∷ i32 (codes "fh") ∷ [];
  made = refl;
  filled = (i64-IsFilled _ _ a.session_id refl h.0, (i32-IsFilled _ _ a.fh refl h.1, tt));
  small = omega arith;
  back = λ m agree. rw (agree (codes "session_id") (inl refl), agree (codes "fh") (inr (inl refl)));
}

-- For every action whose numbers and texts are within the types of their fields: what the generated code
-- writes of it, the generated dispatch reads back as the same action.
pub coding_outcome :
    (bs : BufferSerializer) (a : Action) → IsSerializer bs → IsRanged a → CodingOutcome bs a
coding_outcome bs a law h = IsCoded-coding bs a law (action-IsCoded a h)
