-- ===== src/Codegen/Replies/Front.antt =====
-- codegen.cpp: structs whose fields begin another struct.
use distributed_systems_chub.Prelude.{
  none, sym, ap, ℕ, ◌≡◌, ◌∙◌, refl, inr, false, some, Option, List, [], ◌∷◌, ◌++◌, map, Text, pos,
  text_eq, ℕ_eq,
}
use distributed_systems_chub.Exec.{ok}
use distributed_systems_chub.Dict.{get}
use distributed_systems_chub.Codegen.{BaseType, write_field, writer_statements, reader_statements}
use distributed_systems_chub.Codegen.Meaning.{
  Members, BufferSerializer, IsSerializer, serialize, deserialize, run_writer, append_to,
}
use distributed_systems_chub.Codegen.Meaning.RoundTrip.{AllFilled, Names, fields-Trip}
use distributed_systems_chub.Codegen.Actions.Coding.{fill-front}
use mathlib.Core.List.{append_assoc}

append_to_assoc : (o p q : Option Text) → append_to o (append_to p q) ≡ append_to (append_to o p) q
append_to_assoc none p q = refl
append_to_assoc (some a) none q = refl
append_to_assoc (some a) (some b) none = refl
append_to_assoc (some a) (some b) (some c) = ap some (sym (append_assoc a b c))

append_to_empty : (o : Option Text) → o ≡ append_to (some []) o
append_to_empty none = refl
append_to_empty (some a) = refl

-- Writing some fields and then others.
run_writer-append :
    (bs : BufferSerializer) (n : ℕ) (m : Members) (fields others : List BaseType)
    → run_writer bs n m (map write_field (fields ++ others))
      ≡ append_to
          (run_writer bs n m (map write_field fields))
          (run_writer bs n m (map write_field others))
unfolding run_writer
run_writer-append bs n m [] others = append_to_empty _
run_writer-append bs n m (f ∷ fields) others =
    ap (append_to _) (run_writer-append bs n m fields others) ∙ append_to_assoc _ _ _

-- The first fields of a struct can be read as a struct of their own.
pub serialize-front :
    (bs : BufferSerializer) (m : Members) (fields others : List BaseType) (buf : Text)
    → IsSerializer bs
    → AllFilled m fields
    → serialize bs 0 false (fields ++ others) m ≡ ok buf
    → (m' : Members) × (deserialize bs 0 false fields buf ≡ ok m')
      × ((k : Text) → Names k fields → get m' k ≡ get m k)
unfolding serialize deserialize writer_statements reader_statements
serialize-front bs m fields others buf law filled h =
    let (b, wrote, _, reads) = fields-Trip bs 0 m fields law filled in
    let (tail, front) =
      fill-front bs _ b _ buf (rw (run_writer-append bs 0 m fields others, wrote) at h) in
    let (m', read, agree) = reads tail (pos 0) [] in
    (m', rw front read, λ k named. agree k (inr named))
