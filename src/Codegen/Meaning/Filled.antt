-- ===== src/Codegen/Meaning/Filled.antt =====
-- codegen.cpp: the fields that Type::factory makes of each known type.
use distributed_systems_chub.Prelude.{◌≡◌, refl, some, Text, codes, ℤ, text_eq, ℕ_eq}
use distributed_systems_chub.Dict.{get}
use distributed_systems_chub.Codegen.{
  string_type, base_type, type_int64, type_int32, type_string, BaseType, factory,
}
use distributed_systems_chub.Codegen.Meaning.{
  Members, IsInt32, IsInt64, IsShort, int_value, string_value,
}
use distributed_systems_chub.Codegen.Meaning.RoundTrip.{IsFilled}

abbrev pub i64 : Text → BaseType
i64 name = base_type (record { type_name = codes "int64_t"; name = name; nuname = codes "i64" })

abbrev pub i32 : Text → BaseType
i32 name = base_type (record { type_name = codes "int32_t"; name = name; nuname = codes "i32" })

abbrev pub str : Text → BaseType
str name =
    string_type (record { type_name = codes "std::string"; name = name; nuname = codes "str" })

pub i64-IsFilled :
    (m : Members) (name : Text) (i : ℤ)
    → get m name ≡ some (int_value i)
    → IsInt64 i
    → IsFilled m (i64 name)
unfolding factory
i64-IsFilled m name i held typed = record {
  type_enum = type_int64;
  made = refl;
  value = int_value i;
  held = held;
  typed = typed;
}

pub i32-IsFilled :
    (m : Members) (name : Text) (i : ℤ)
    → get m name ≡ some (int_value i)
    → IsInt32 i
    → IsFilled m (i32 name)
unfolding factory
i32-IsFilled m name i held typed = record {
  type_enum = type_int32;
  made = refl;
  value = int_value i;
  held = held;
  typed = typed;
}

pub str-IsFilled :
    (m : Members) (name t : Text)
    → get m name ≡ some (string_value t)
    → IsShort t
    → IsFilled m (str name)
unfolding factory
str-IsFilled m name t held typed = record {
  type_enum = type_string;
  made = refl;
  value = string_value t;
  held = held;
  typed = typed;
}
