-- ===== src/Codegen/Meaning.antt =====
-- codegen.cpp: what the generated structs do. The statements are those that gen_code prints; NuRaft's
-- buffer_serializer, which they call, is a parameter.
pub mod RoundTrip
pub mod Filled
use distributed_systems_chub.Prelude.{
  ℕ, ◌+◌, ◌-◌, ◌≤◌, ◌<◌, ◌*◌, ◌^◌, ◌≡◌, Bool, true, false, List, [], ◌∷◌, ◌++◌, map, Option, none,
  some, Text, codes, ℤ, ℤ_eq, pos, negsuc, ◌≤ℤ◌, ◌==◌, text_eq, ℕ_eq, if◌then◌else◌, length, leb,
}
use distributed_systems_chub.Exec.{chain, Result, ok, fault, aborted, library_error}
use distributed_systems_chub.Dict.{Dict, get, put}
use distributed_systems_chub.Codegen.{
  BaseType, base_type, string_type, names, Statement, read_action, check_action, write_action,
  read_field, write_field, reader_statements, writer_statements,
}

-- The value of a member of a generated struct.
pub data Value : Type 0 where
  int_value : ℤ → Value
  string_value : Text → Value

abbrev pub Members : Type 0
Members = Dict Text Value

-- nuraft::buffer_serializer: the bytes that each `put_` method writes, and what each `get_` method
-- reads from the bytes that are left; and what a fresh buffer of a size holds where nothing is written.
pub record BufferSerializer : Type 0 where
  pub put_u8 : ℕ → Text
  pub put_i32 : ℤ → Text
  pub put_i64 : ℤ → Text
  pub put_str : Text → Text
  pub get_i8 : Text → Option (ℤ × Text)
  pub get_i32 : Text → Option (ℤ × Text)
  pub get_i64 : Text → Option (ℤ × Text)
  pub get_str : Text → Option (Text × Text)
  pub fresh : ℕ → Text

abbrev pub IsInt32 : ℤ → Type 0
IsInt32 i = (negsuc 0x7fff_ffff ≤ℤ i) × (i ≤ℤ pos 0x7fff_ffff)

abbrev pub IsInt64 : ℤ → Type 0
IsInt64 i = (negsuc 0x7fff_ffff_ffff_ffff ≤ℤ i) × (i ≤ℤ pos 0x7fff_ffff_ffff_ffff)

-- The length of the text is an int32.
abbrev pub IsShort : Text → Type 0
IsShort t = length t ≤ 0x7fff_ffff

-- What the generated code relies on: each method reads what its counterpart has written, a number
-- takes the bytes of its type, and a string at most its own and those of a size_t.
pub record IsSerializer (bs : BufferSerializer) : Type 0 where
  pub i8_u8 : (n : ℕ) (rest : Text) → n < 128 → bs.get_i8 (bs.put_u8 n ++ rest) ≡ some (pos n, rest)
  pub i32_i32 :
      (i : ℤ) (rest : Text) → IsInt32 i → bs.get_i32 (bs.put_i32 i ++ rest) ≡ some (i, rest)
  pub i64_i64 :
      (i : ℤ) (rest : Text) → IsInt64 i → bs.get_i64 (bs.put_i64 i ++ rest) ≡ some (i, rest)
  pub str_str : (t rest : Text) → IsShort t → bs.get_str (bs.put_str t ++ rest) ≡ some (t, rest)
  pub length_u8 : (n : ℕ) → length (bs.put_u8 n) ≡ 1
  pub length_i32 : (i : ℤ) → length (bs.put_i32 i) ≡ 4
  pub length_i64 : (i : ℤ) → length (bs.put_i64 i) ≡ 8
  pub length_str : (t : Text) → length (bs.put_str t) ≤ 8 + length t

-- The call `bs.put_<nuname>(name)`; `none` is code that does not compile.
unfoldable pub put_value : BufferSerializer → Text → Value → Option Text
put_value bs nu (int_value i) =
    if nu == codes "i64"
    then some (bs.put_i64 i)
    else if nu == codes "i32"
    then some (bs.put_i32 i)
    else none
put_value bs nu (string_value t) = if nu == codes "str" then some (bs.put_str t) else none

abbrev int_read : Option (ℤ × Text) → Option (Value × Text)
int_read none = none
int_read (some (i, rest)) = some (int_value i, rest)

abbrev string_read : Option (Text × Text) → Option (Value × Text)
string_read none = none
string_read (some (t, rest)) = some (string_value t, rest)

-- The call `bs.get_<nuname>()`; `none` is NuRaft's exception at the end of the buffer.
unfoldable pub get_value : BufferSerializer → Text → Text → Option (Value × Text)
get_value bs nu buf =
    if nu == codes "i64"
    then int_read (bs.get_i64 buf)
    else if nu == codes "i32"
    then int_read (bs.get_i32 buf)
    else if nu == codes "str"
    then string_read (bs.get_str buf)
    else none

abbrev pub append_to : Option Text → Option Text → Option Text
append_to (some b) (some rest) = some (b ++ rest)
append_to none rest = none
append_to (some b) none = none

unfoldable put_member : BufferSerializer → BaseType → Option Value → Option Text
unfolding put_value
put_member bs f none = none
put_member bs f (some v) = put_value bs (names f).nuname v

-- The bytes that the statements of a writer write, for the action with the number `n`.
unfoldable pub run_writer : BufferSerializer → ℕ → Members → List Statement → Option Text
unfolding put_member
run_writer bs n m [] = some []
run_writer bs n m (write_action ∷ ss) = append_to (some (bs.put_u8 n)) (run_writer bs n m ss)
run_writer bs n m (write_field f ∷ ss) =
    append_to (put_member bs f (get m (names f).name)) (run_writer bs n m ss)
run_writer bs n m (read_action ∷ ss) = none
run_writer bs n m (check_action ∷ ss) = none
run_writer bs n m (read_field f ∷ ss) = none

-- The meaning of gen_size's expression: `sizeof` of a number's type, or a string's size.
abbrev sizeof_type : Text → ℕ
sizeof_type t = if t == codes "int64_t" then 8 else if t == codes "int32_t" then 4 else 0

unfoldable pub member_size : Option Value → ℕ
member_size none = 0
member_size (some (int_value i)) = 0
member_size (some (string_value t)) = length t

unfoldable pub size_of : Members → BaseType → ℕ
unfolding member_size
size_of m (base_type n) = sizeof_type n.type_name
size_of m (string_type n) = 8 + member_size (get m n.name)

unfoldable pub sizes : Members → List BaseType → ℕ
unfolding size_of
sizes m [] = 0
sizes m (f ∷ fields) = size_of m f + sizes m fields

-- The argument of nuraft::buffer::alloc.
unfoldable pub alloc_size : Bool → Members → List BaseType → ℕ
unfolding sizes
alloc_size is_action m fields = (if is_action then 1 else 0) + sizes m fields

-- The buffer with the bytes at its front; writing past its end is NuRaft's exception.
unfoldable pub fill : BufferSerializer → ℕ → Option Text → Result Text
fill bs size none = fault library_error
fill bs size (some bytes) =
    if leb (length bytes) size
    then ok (bytes ++ bs.fresh (size - length bytes))
    else fault library_error

-- The generated method `serialize`.
unfoldable pub serialize : BufferSerializer → ℕ → Bool → List BaseType → Members → Result Text
unfolding alloc_size run_writer fill writer_statements
serialize bs n is_action fields m =
    fill bs (alloc_size is_action m fields) (run_writer bs n m (writer_statements is_action fields))

-- One statement of a reader after another: what it makes of the number that was read, the bytes that
-- are left and the members.
abbrev Reading : Type 0
Reading = ℤ × Text × Members

abbrev number_read : Members → Option (ℤ × Text) → Result Reading
number_read m none = fault library_error
number_read m (some (i, rest)) = ok (i, rest, m)

abbrev member_read : ℤ → Members → Text → Option (Value × Text) → Result Reading
member_read i m name none = fault library_error
member_read i m name (some (v, rest)) = ok (i, rest, put m name v)

-- The assertion holds if the number that was read is that of the struct.
unfoldable pub run_statement : BufferSerializer → ℕ → Statement → Reading → Result Reading
unfolding get_value
run_statement bs n read_action (i, buf, m) = number_read m (bs.get_i8 buf)
run_statement bs n check_action (i, buf, m) = if i == pos n then ok (i, buf, m) else fault aborted
run_statement bs n (read_field f) (i, buf, m) =
    member_read i m (names f).name (get_value bs (names f).nuname buf)
run_statement bs n write_action r = fault aborted
run_statement bs n (write_field f) r = fault aborted

unfoldable pub run_reader : BufferSerializer → ℕ → List Statement → Reading → Result Members
unfolding run_statement
run_reader bs n [] (i, buf, m) = ok m
run_reader bs n (s ∷ ss) r = chain (run_statement bs n s r) (run_reader bs n ss)

-- The generated constructor from a buffer.
unfoldable pub deserialize : BufferSerializer → ℕ → Bool → List BaseType → Text → Result Members
unfolding run_reader reader_statements
deserialize bs n is_action fields buf =
    run_reader bs n (reader_statements is_action fields) (pos 0, buf, [])
