-- ===== src/Codegen/Output.antt =====
-- codegen.cpp: the text that the generator prints, for the messages of a protobuf file.
use distributed_systems_chub.Prelude.{
  Bool, List, [], ◌∷◌, ◌++◌, map, Text, codes, if◌then◌else◌, is_empty, ◌==◌, ◌||◌, text_eq,
}
use distributed_systems_chub.Exec.{Result, ok, fault}
use distributed_systems_chub.Codegen.{
  BaseType, FieldType, names, gen_decl, gen_size, factory, print_statement, newline,
  reader_statements, writer_statements,
}

unfoldable pub texts : List Text → Text
texts [] = []
texts (t ∷ ts) = t ++ texts ts

-- A line that `puts` prints.
abbrev line : Text → Text
line t = t ++ newline

-- The texts with commas between them.
unfoldable pub commas : List Text → Text
commas [] = []
commas (t ∷ []) = t
commas (t ∷ u ∷ ts) = t ++ (codes "," ++ commas (u ∷ ts))

unfoldable pub is_suffix : Text → Text → Bool
is_suffix p [] = is_empty p
is_suffix p (c ∷ s) = p == c ∷ s || is_suffix p s

-- `action_name.ends_with("Action")`
unfoldable pub ends_with_action : Text → Bool
unfolding is_suffix
ends_with_action name = is_suffix (codes "Action") name

-- The constructor from the values of the fields, for a message that has fields.
unfoldable pub gen_constructor : Text → List BaseType → Text
unfolding gen_decl commas
gen_constructor name [] = []
gen_constructor name (f ∷ fields) =
    name
    ++ (codes "("
        ++ (commas (map gen_decl (f ∷ fields))
            ++ (codes "):"
                ++ (commas (
                      map (λ g. (names g).name ++ (codes "(" ++ ((names g).name ++ codes ")")))
                        (f ∷ fields))
                    ++ line (codes "{}")))))

unfoldable pub gen_copy : BaseType → Text
gen_copy f = (names f).name ++ (codes " = t->" ++ ((names f).name ++ line (codes "();")))

-- gen_code
unfoldable pub gen_code : Text → List BaseType → Text
unfolding texts ends_with_action gen_decl gen_size gen_constructor gen_copy print_statement
    reader_statements writer_statements
gen_code name fields =
    let is_action = ends_with_action name in
    texts (
      line (codes "struct " ++ (name ++ codes " {"))
      ∷ (if is_action
          then codes "const static ActionName action_name = ActionName::" ++ (name ++ codes ";")
          else [])
      ∷ texts (map (λ f. gen_decl f ++ line (codes ";")) fields)
      ∷ line (name ++ codes "() {}")
      ∷ gen_constructor name fields
      ∷ line (codes "template <typename T>")
      ∷ line (name ++ codes "(const T* t) {")
      ∷ texts (map gen_copy fields)
      ∷ line (codes "}")
      ∷ line (name ++ codes "(nuraft::buffer &data) {")
      ∷ line (codes "nuraft::buffer_serializer bs(data);")
      ∷ texts (map print_statement (reader_statements is_action fields))
      ∷ line (codes "}")
      ∷ line (codes "nuraft::ptr<nuraft::buffer> serialize() const {")
      ∷ codes "nuraft::ptr<nuraft::buffer> buf = nuraft::buffer::alloc("
      ∷ (if is_action then codes "sizeof(int8_t)" else codes "0")
      ∷ texts (map (λ f. codes "+" ++ gen_size f) fields)
      ∷ line (codes ");")
      ∷ line (codes "nuraft::buffer_serializer bs(buf);")
      ∷ texts (map print_statement (writer_statements is_action fields))
      ∷ line (codes "return buf;")
      ∷ line (line (codes "}};"))
      ∷ [])

-- A message of the file, with the names and types of its fields in order.
pub record Message : Type 0 where
  pub name : Text
  pub fields : List (FieldType × Text)

-- The next field before the others.
abbrev both : Result BaseType → Result (List BaseType) → Result (List BaseType)
both (ok f) (ok fs) = ok (f ∷ fs)
both (ok f) (fault e) = fault e
both (fault e) fs = fault e

-- The loop over the fields of a message.
unfoldable pub make_fields : List (FieldType × Text) → Result (List BaseType)
unfolding factory
make_fields [] = ok []
make_fields ((type_enum, name) ∷ fields) = both (factory type_enum name) (make_fields fields)

-- The messages that are actions, in the order of the enumeration.
unfoldable pub actions : List Message → List Text
unfolding ends_with_action
actions [] = []
actions (m ∷ ms) = let rest = actions ms in if ends_with_action m.name then m.name ∷ rest else rest

-- enum class ActionName
unfoldable pub gen_enum : List Message → Text
unfolding actions commas
gen_enum ms = codes "enum class ActionName { " ++ (commas (actions ms) ++ line (codes "};"))

-- create_action_from_buf, and the end of the namespace
unfoldable pub gen_dispatch : List Message → Text
unfolding actions commas texts
gen_dispatch ms = texts (
    codes "std::variant<"
    ∷ commas (actions ms)
    ∷ line (codes "> create_action_from_buf(nuraft::buffer &data) {")
    ∷ line (codes "nuraft::buffer_serializer bs(data);")
    ∷ line (codes "switch (static_cast<ActionName>(bs.get_i8())) {")
    ∷ texts (
        map
          (λ s.
            line (codes "case ActionName::" ++ (s ++ codes ":"))
            ++ (codes "return " ++ (s ++ codes "(data);")))
          (actions ms))
    ∷ line (codes "default:")
    ∷ line (codes "assert(0);")
    ∷ line (codes "std::terminate();")
    ∷ line (codes "}}};")
    ∷ [])

-- The struct of one message before those of the others.
unfoldable after : Text → Result (List BaseType) → Result Text → Result Text
unfolding gen_code
after name (ok fields) (ok rest) = ok (gen_code name fields ++ rest)
after name (ok fields) (fault e) = fault e
after name (fault e) rest = fault e

-- The loop of `main` over the messages.
unfoldable pub gen_structs : List Message → Result Text
unfolding after make_fields
gen_structs [] = ok []
gen_structs (m ∷ ms) = after m.name (make_fields m.fields) (gen_structs ms)

abbrev include : Text → Text
include header = line (codes "#include " ++ header)

-- What `main` prints first.
abbrev pub headers : Text
headers = texts (
    include (codes "<cstdint>")
    ∷ include (codes "<memory>")
    ∷ include (codes "<string>")
    ∷ line (include (codes "<variant>"))
    ∷ include (codes "\"libnuraft/buffer.hxx\"")
    ∷ include (codes "\"libnuraft/buffer_serializer.hxx\"")
    ∷ line (include (codes "\"libnuraft/nuraft.hxx\""))
    ∷ line (line (line (codes "namespace action {")))
    ∷ [])

abbrev with_structs : List Message → Result Text → Result Text
with_structs ms (fault e) = fault e
with_structs ms (ok structs) = ok (headers ++ (gen_enum ms ++ (structs ++ gen_dispatch ms)))

-- main, for the messages of the file.
unfoldable pub generate : List Message → Result Text
unfolding gen_structs
generate ms = with_structs ms (gen_structs ms)
