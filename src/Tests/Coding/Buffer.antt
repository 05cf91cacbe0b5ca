-- ===== src/Tests/Coding/Buffer.antt =====
-- A concrete serializer: integers in two's complement with the lowest byte first, and a string as
-- its length and its bytes.
use distributed_systems_chub.Prelude.{
  ℕ, zero, suc, ◌+◌, ◌-◌, ◌*◌, ◌^◌, ◌<◌, ◌≡◌, refl, [], ◌∷◌, ◌++◌, Option, none, some, Text, ℤ, pos,
  negsuc, if◌then◌else◌, ltb, length, arith, ◌≤ℤ◌, length-append,
}
use Prim.Native.Nat.{◌%◌, ◌/◌}
use mathlib.Core.List.{append_assoc}
use distributed_systems_chub.StateMachine.EndReply.Reading.{IsPrefixed}
use distributed_systems_chub.Codegen.Meaning.{BufferSerializer, IsSerializer, IsShort}

-- The lowest `k` bytes of a number.
unfoldable bytes : ℕ → ℕ → Text
bytes zero n = []
bytes (suc k) n = n % 256 ∷ bytes k (n / 256)

abbrev under : ℕ → Option (ℕ × Text) → Option (ℕ × Text)
under c none = none
under c (some (n, rest)) = some (c + 256 * n, rest)

unfoldable unbytes : ℕ → Text → Option (ℕ × Text)
unbytes zero buf = some (0, buf)
unbytes (suc k) [] = none
unbytes (suc k) (c ∷ buf) = under c (unbytes k buf)

unbytes-bytes :
    (k n : ℕ) (rest : Text) → n < 256 ^ k → unbytes k (bytes k n ++ rest) ≡ some (n, rest)
unfolding bytes unbytes
unbytes-bytes zero n rest h = ground arith
unbytes-bytes (suc k) n rest h = ground (arith, unbytes-bytes k (n / 256) rest (omega arith))

length-bytes : (k n : ℕ) → length (bytes k n) ≡ k
unfolding bytes
length-bytes zero n = refl
length-bytes (suc k) n = omega (arith, length-bytes k (n / 256))

-- Two's complement with the highest power of two `half`.
abbrev to_bits : ℕ → ℤ → ℕ
to_bits half (pos n) = n
to_bits half (negsuc n) = half + half - 1 - n

abbrev of_bits : ℕ → Option (ℕ × Text) → Option (ℤ × Text)
of_bits half none = none
of_bits half (some (n, rest)) =
    if ltb n half then some (pos n, rest) else some (negsuc (half + half - 1 - n), rest)

abbrev before : ℕ → Option (Text × Text) → Option (Text × Text)
before c none = none
before c (some (t, rest)) = some (c ∷ t, rest)

unfoldable take_exact : ℕ → Text → Option (Text × Text)
take_exact zero buf = some ([], buf)
take_exact (suc n) [] = none
take_exact (suc n) (c ∷ buf) = before c (take_exact n buf)

take_exact-length : (t rest : Text) → take_exact (length t) (t ++ rest) ≡ some (t, rest)
unfolding take_exact
take_exact-length [] rest = refl
take_exact-length (c ∷ t) rest = rw (take_exact-length t rest)

abbrev with_length : Option (ℕ × Text) → Option (Text × Text)
with_length none = none
with_length (some (n, rest)) = take_exact n rest

unfoldable zeros : ℕ → Text
zeros zero = []
zeros (suc n) = 0 ∷ zeros n

unfoldable pub buffer : BufferSerializer
unfolding bytes unbytes take_exact zeros
buffer = record {
  put_u8 = λ n. bytes 1 n;
  put_i32 = λ i. bytes 4 (to_bits 0x8000_0000 i);
  put_i64 = λ i. bytes 8 (to_bits 0x8000_0000_0000_0000 i);
  put_str = λ t. bytes 4 (length t) ++ t;
  get_i8 = λ buf. of_bits 128 (unbytes 1 buf);
  get_i32 = λ buf. of_bits 0x8000_0000 (unbytes 4 buf);
  get_i64 = λ buf. of_bits 0x8000_0000_0000_0000 (unbytes 8 buf);
  get_str = λ buf. with_length (unbytes 4 buf);
  fresh = zeros;
}

-- A number in range comes back from its bits.
of_bits-to_bits :
    (half : ℕ) (i : ℤ) (rest : Text)
    → 0 < half
    → negsuc (half - 1) ≤ℤ i
    → i ≤ℤ pos (half - 1)
    → (to_bits half i < half + half) × (of_bits half (some (to_bits half i, rest)) ≡ some (i, rest))
of_bits-to_bits half (pos n) rest some_bits low high = (omega arith, ground arith)
of_bits-to_bits half (negsuc n) rest some_bits low high = (omega arith, ground arith)

coded_int :
    (k half : ℕ) (i : ℤ) (rest : Text)
    → 256 ^ k ≡ half + half
    → 0 < half
    → negsuc (half - 1) ≤ℤ i
    → i ≤ℤ pos (half - 1)
    → of_bits half (unbytes k (bytes k (to_bits half i) ++ rest)) ≡ some (i, rest)
coded_int k half i rest whole some_bits low high =
    let (small, back) = of_bits-to_bits half i rest some_bits low high in
    rw (unbytes-bytes k (to_bits half i) rest (omega arith)) back

str_back :
    (t rest : Text)
    → IsShort t
    → with_length (unbytes 4 ((bytes 4 (length t) ++ t) ++ rest)) ≡ some (t, rest)
str_back t rest h =
    rw
      (
        append_assoc (bytes 4 (length t)) t rest,
        unbytes-bytes 4 (length t) (t ++ rest) (omega arith),
      )
      (take_exact-length t rest)

pub buffer-IsSerializer : IsSerializer buffer
unfolding buffer
buffer-IsSerializer = record {
  i8_u8 = λ n rest h.
      coded_int 1 128 (pos n) rest (omega arith) (omega arith) (omega arith) (omega arith);
  i32_i32 = λ i rest h. coded_int 4 0x8000_0000 i rest (omega arith) (omega arith) h.0 h.1;
  i64_i64 =
      λ i rest h. coded_int 8 0x8000_0000_0000_0000 i rest (omega arith) (omega arith) h.0 h.1;
  str_str = str_back;
  length_u8 = λ n. length-bytes 1 n;
  length_i32 = λ i. length-bytes 4 (to_bits 0x8000_0000 i);
  length_i64 = λ i. length-bytes 8 (to_bits 0x8000_0000_0000_0000 i);
  length_str = λ t. omega (arith, length-append (bytes 4 (length t)) t, length-bytes 4 (length t));
}

pub buffer-IsPrefixed : IsPrefixed buffer
unfolding buffer
buffer-IsPrefixed t = omega (arith, length-append (bytes 4 (length t)) t, length-bytes 4 (length t))
