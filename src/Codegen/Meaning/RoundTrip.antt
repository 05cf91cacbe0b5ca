-- ===== src/Codegen/Meaning/RoundTrip.antt =====
-- codegen.cpp: the generated writer against the generated reader and the size that is allocated.
use distributed_systems_chub.Prelude.{
  length-append, ap, sym, map, Bool, true, false, ℕ, ℤ, pos, ◌+◌, eq_true, leb, ◌-◌, ◌<◌, ◌∙◌, inr,
  inl, ◌≢◌, subst, ◌≤◌, ◌≡◌, ◌⊎◌, refl, List, [], ◌∷◌, ◌++◌, some, Text, ℤ_eq, text_eq, ℕ_eq,
  length, arith,
}
use mathlib.Core.List.{append_assoc}
use distributed_systems_chub.Exec.{ok}
use distributed_systems_chub.Dict.{get-put_self, get-put_other, put, get}
use distributed_systems_chub.Codegen.{
  reader_statements, writer_statements, read_field, write_field, other_type, FieldType, type_int64,
  type_int32, type_string, BaseType, names, factory,
}
use distributed_systems_chub.Codegen.Meaning.{
  true, serialize, deserialize, alloc_size, fill, run_reader, run_statement, sizes, ℤ, put_member,
  run_writer, Value, int_value, string_value, Members, BufferSerializer, IsSerializer, IsInt32,
  IsInt64, IsShort, put_value, get_value, size_of,
}

-- The value belongs to a field of the type.
abbrev pub HasType : FieldType → Value → Type 0
HasType type_int64 (int_value i) = IsInt64 i
HasType type_int32 (int_value i) = IsInt32 i
HasType type_string (string_value t) = IsShort t
HasType _ _ = ⊥

-- The field is one that the generator makes, and the members hold a value of its type.
pub record IsFilled (m : Members) (f : BaseType) : Type 0 where
  pub type_enum : FieldType
  pub made : factory type_enum (names f).name ≡ ok f
  pub value : Value
  pub held : get m (names f).name ≡ some value
  pub typed : HasType type_enum value

abbrev pub AllFilled : Members → List BaseType → Type 0
AllFilled m [] = Unit
AllFilled m (f ∷ fields) = IsFilled m f × AllFilled m fields

-- The name is that of one of the fields.
abbrev pub Names : Text → List BaseType → Type 0
Names k [] = ⊥
Names k (f ∷ fields) = ((names f).name ≡ k) ⊎ Names k fields

ok-inj : {A : Type 0} {a b : A} → ok a ≡ ok b → a ≡ b
ok-inj p = cc

-- A field's value is written to bytes within the field's size, which are read back.
abbrev FieldTrip : BufferSerializer → Members → BaseType → Value → Type 0
FieldTrip bs m f v =
    (bytes : Text) × (put_value bs (names f).nuname v ≡ some bytes)
    × (length bytes ≤ size_of m f)
    × ((rest : Text) → get_value bs (names f).nuname (bytes ++ rest) ≡ some (v, rest))

made-FieldTrip :
    (bs : BufferSerializer) (m : Members) (t : FieldType) (name : Text) (f : BaseType) (v : Value)
    → IsSerializer bs
    → factory t name ≡ ok f
    → get m name ≡ some v
    → HasType t v
    → FieldTrip bs m f v
unfolding factory put_value get_value size_of text_eq
made-FieldTrip bs m type_int64 name f (int_value i) law made held typed =
    subst (λ g. FieldTrip bs m g (int_value i)) (ok-inj made)
      (bs.put_i64 i, refl, omega (arith, law.length_i64 i), λ rest. rw (law.i64_i64 i rest typed))
made-FieldTrip bs m type_int32 name f (int_value i) law made held typed =
    subst (λ g. FieldTrip bs m g (int_value i)) (ok-inj made)
      (bs.put_i32 i, refl, omega (arith, law.length_i32 i), λ rest. rw (law.i32_i32 i rest typed))
made-FieldTrip bs m type_string name f (string_value s) law made held typed =
    subst (λ g. FieldTrip bs m g (string_value s)) (ok-inj made)
      (bs.put_str s, refl, rw held (law.length_str s), λ rest. rw (law.str_str s rest typed))
made-FieldTrip bs m type_int64 name f (string_value s) law made held typed = absurd typed
made-FieldTrip bs m type_int32 name f (string_value s) law made held typed = absurd typed
made-FieldTrip bs m type_string name f (int_value i) law made held typed = absurd typed
made-FieldTrip bs m (other_type n) name f v law made held typed = absurd typed

-- The reader's members agree with those that were written, on every name that was read.
abbrev pub ReadsBack : BufferSerializer → ℕ → Members → List BaseType → Text → Type 0
ReadsBack bs n m fields bytes =
    (rest : Text) (i : ℤ) (acc : Members)
    → (m' : Members) × (run_reader bs n (map read_field fields) (i, bytes ++ rest, acc) ≡ ok m')
      × ((k : Text) → (get acc k ≡ get m k) ⊎ Names k fields → get m' k ≡ get m k)

agree-put :
    (m acc : Members) (f : BaseType) (fields : List BaseType) (v : Value) (k : Text)
    → get m (names f).name ≡ some v
    → (get acc k ≡ get m k) ⊎ Names k (f ∷ fields)
    → (get (put acc (names f).name v) k ≡ get m k) ⊎ Names k fields
agree-put m acc f fields v k held h = elim (text_eq.dec (names f).name k) [
  | yes p ↦
      inl (
        ap (get (put acc (names f).name v)) (sym p)
        ∙ get-put_self acc _ v
        ∙ sym held
        ∙ ap (get m) p)
  | no q ↦ other q h
]
  where
    other :
        ((names f).name ≢ k)
        → (get acc k ≡ get m k) ⊎ Names k (f ∷ fields)
        → (get (put acc (names f).name v) k ≡ get m k) ⊎ Names k fields
    other q (inl e) = inl (get-put_other acc _ k v q ∙ e)
    other q (inr (inl e)) = absurd (q e)
    other q (inr (inr r)) = inr r

abbrev pub FieldsTrip : BufferSerializer → ℕ → Members → List BaseType → Type 0
FieldsTrip bs n m fields =
    (bytes : Text) × (run_writer bs n m (map write_field fields) ≡ some bytes)
    × (length bytes ≤ sizes m fields)
    × ReadsBack bs n m fields bytes

pub fields-Trip :
    (bs : BufferSerializer) (n : ℕ) (m : Members) (fields : List BaseType)
    → IsSerializer bs
    → AllFilled m fields
    → FieldsTrip bs n m fields
unfolding run_writer put_member run_reader run_statement sizes
fields-Trip bs n m [] law filled =
    ([], refl, omega arith, λ rest i acc. (acc, refl, λ k. elim [ inl e ↦ e | inr x ↦ absurd x ]))
fields-Trip bs n m (f ∷ fields) law (one, others) =
    let (b, wrote, fits, reads) =
      made-FieldTrip bs m one.type_enum (names f).name f one.value law one.made one.held
        one.typed in
    let (bytes, wrote_all, fits_all, reads_all) = fields-Trip bs n m fields law others in
    (
      b ++ bytes,
      rw (one.held, wrote, wrote_all),
      omega (arith, length-append b bytes),
      λ rest i acc.
          let (m', r, agree) = reads_all rest i (put acc (names f).name one.value) in
          (
            m',
            rw (append_assoc b bytes rest, reads (bytes ++ rest)) r,
            λ k h. agree k (agree-put m acc f fields one.value k one.held h),
          ),
    )

abbrev pub SerializeOutcome : BufferSerializer → ℕ → Bool → List BaseType → Members → Type 0
SerializeOutcome bs n is_action fields m =
    (buf : Text) × (m' : Members) × (serialize bs n is_action fields m ≡ ok buf)
    × (deserialize bs n is_action fields buf ≡ ok m')
    × ((k : Text) → Names k fields → get m' k ≡ get m k)

fill-fits :
    (bs : BufferSerializer) (size : ℕ) (bytes : Text)
    → length bytes ≤ size
    → (slack : Text) × (fill bs size (some bytes) ≡ ok (bytes ++ slack))
unfolding fill
fill-fits bs size bytes h =
    let fits : leb (length bytes) size ≡ true = ground arith in
    (bs.fresh (size - length bytes), rw fits)

-- For every list of fields that the generator makes, with a value of its type for each: serialising
-- stays within the bytes that the generated code allocates, and reading the buffer back, for an
-- action by the number that its name has among the first 128, restores the value of every field.
pub serialize_outcome :
    (bs : BufferSerializer) (n : ℕ) (is_action : Bool) (fields : List BaseType) (m : Members)
    → IsSerializer bs
    → n < 128
    → AllFilled m fields
    → SerializeOutcome bs n is_action fields m
unfolding serialize deserialize run_writer run_reader run_statement alloc_size writer_statements
    reader_statements ℤ_eq
serialize_outcome bs n false fields m law small filled =
    let (bytes, wrote, fits, reads) = fields-Trip bs n m fields law filled in
    let (slack, filled_up) = fill-fits bs (0 + sizes m fields) bytes (omega arith) in
    let (m', r, agree) = reads slack (pos 0) [] in
    (bytes ++ slack, m', rw wrote filled_up, r, λ k h. agree k (inr h))
serialize_outcome bs n true fields m law small filled =
    let (bytes, wrote, fits, reads) = fields-Trip bs n m fields law filled in
    let (slack, filled_up) =
      fill-fits bs (1 + sizes m fields) (bs.put_u8 n ++ bytes)
        (omega (arith, length-append (bs.put_u8 n) bytes, law.length_u8 n)) in
    let (m', r, agree) = reads slack (pos n) [] in
    (
      (bs.put_u8 n ++ bytes) ++ slack,
      m',
      rw wrote filled_up,
      rw
          (
            append_assoc (bs.put_u8 n) bytes slack,
            law.i8_u8 n (bytes ++ slack) small,
            eq_true {a = pos n} refl,
          )
          r,
      λ k h. agree k (inr h),
    )
