-- ===== src/Codegen.antt =====
-- codegen.cpp: the generator of the structs that travel in the replicated log. This file has the
-- kinds of fields and the statements of the generated reader and writer, with the text of each.
pub mod Output
pub mod Meaning
pub mod Actions
pub mod Replies
use distributed_systems_chub.Prelude.{
  Bool, List, [], ◌∷◌, ◌++◌, map, Text, codes, ℕ, if◌then◌else◌, ◌==◌, ℕ_eq, text_eq,
}
use distributed_systems_chub.Exec.{Result, ok, fault, aborted}

-- google::protobuf::FieldDescriptor::Type, as far as the generator tells the types apart.
pub data FieldType : Type 0 where
  type_int64 type_int32 type_string : FieldType
  other_type : ℕ → FieldType

-- The members of BaseType: the C++ type, the field's name, and the suffix of NuRaft's methods.
pub record Names : Type 0 where
  pub type_name : Text
  pub name : Text
  pub nuname : Text

-- BaseType and its subclass StringType.
pub data BaseType : Type 0 where
  base_type string_type : Names → BaseType

abbrev pub names : BaseType → Names
names (base_type n) = n
names (string_type n) = n

unfoldable pub gen_decl : BaseType → Text
gen_decl f = (names f).type_name ++ (codes " " ++ (names f).name)

-- The virtual method of the two classes.
unfoldable pub gen_size : BaseType → Text
gen_size (base_type n) = codes "sizeof(" ++ (n.type_name ++ codes ")")
gen_size (string_type n) =
    codes "sizeof(" ++ (n.name ++ (codes ".size()) + " ++ (n.name ++ codes ".size()")))

-- A type of another kind ends the generator.
unfoldable pub factory : FieldType → Text → Result BaseType
factory type_int64 name =
    ok (base_type (record { type_name = codes "int64_t"; name = name; nuname = codes "i64" }))
factory type_int32 name =
    ok (base_type (record { type_name = codes "int32_t"; name = name; nuname = codes "i32" }))
factory type_string name =
    ok (string_type (record { type_name = codes "std::string"; name = name; nuname = codes "str" }))
factory (other_type n) name = fault aborted

-- The statements that gen_code prints into the reader and the writer of a struct.
pub data Statement : Type 0 where
  read_action check_action write_action : Statement
  read_field write_field : BaseType → Statement

abbrev pub newline : Text
newline = 10 ∷ []

unfoldable pub print_statement : Statement → Text
print_statement read_action = codes "auto action_num = bs.get_i8();" ++ newline
print_statement check_action =
    codes "assert(action_num == static_cast<int8_t>(action_name));" ++ newline
print_statement write_action = codes "bs.put_u8(static_cast<uint8_t>(action_name));" ++ newline
print_statement (read_field f) =
    (names f).name ++ (codes " = bs.get_" ++ ((names f).nuname ++ (codes "();" ++ newline)))
print_statement (write_field f) =
    codes "bs.put_"
    ++ ((names f).nuname ++ (codes "(" ++ ((names f).name ++ (codes ");" ++ newline))))

unfoldable pub reader_statements : Bool → List BaseType → List Statement
reader_statements is_action fields =
    (if is_action then read_action ∷ check_action ∷ [] else []) ++ map read_field fields

unfoldable pub writer_statements : Bool → List BaseType → List Statement
writer_statements is_action fields =
    (if is_action then write_action ∷ [] else []) ++ map write_field fields
