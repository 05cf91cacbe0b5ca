-- ===== src/Decimal.antt =====
-- std::to_string and std::stoi, by which a server names the leader to a client.
use Prim.Native.Nat.{◌/◌, ◌%◌}
use distributed_systems_chub.Prelude.{
  refl, minus_one, Bool-cases, inl, inr, ap, sym, ◌∙◌, ◌||◌, not, ℕ, zero, suc, ◌+◌, ◌*◌, ◌-◌, ◌<◌,
  ◌≤◌, ◌≡◌, Bool, true, false, ◌&&◌, Option, none, some, [], ◌∷◌, Text, ℤ, pos, negsuc, ltb, leb,
  ◌==◌, ℕ_eq, if◌then◌else◌, arith, int_max,
}

-- The decimal digits of `n` before those of `rest`: as much fuel as `n + 1` is enough.
unfoldable pub digits : ℕ → ℕ → Text → Text
digits zero n rest = rest
digits (suc fuel) n rest =
    let more = digits fuel (n / 10) ((48 + n % 10) ∷ rest) in
    if ltb n 10 then (48 + n) ∷ rest else more

unfoldable pub to_string : ℤ → Text
unfolding digits
to_string (pos n) = digits (suc n) n []
to_string (negsuc n) = b'-' ∷ digits (suc (suc n)) (suc n) []

abbrev pub is_digit : ℕ → Bool
is_digit c = leb 48 c && leb c 57

-- The number in the digits at the front, after those that make up `n`.
unfoldable pub read_digits : ℕ → Text → ℕ
read_digits n [] = n
read_digits n (c ∷ s) =
    let more = read_digits (10 * n + (c - 48)) s in if is_digit c then more else n

abbrev is_space : ℕ → Bool
is_space c = leb 9 c && leb c 13 || c == 32

skip_space : Text → Text
skip_space [] = []
skip_space (c ∷ s) = let rest = skip_space s in if is_space c then rest else c ∷ s

-- An `int`, or std::out_of_range.
abbrev in_range : ℕ → ℤ → Option ℤ
in_range bound i = if leb bound int_max then some i else none

-- At least one digit, or std::invalid_argument.
unfoldable pub unsigned : Bool → Text → Option ℤ
unfolding read_digits
unsigned minus [] = none
unsigned minus (c ∷ s) =
    let n = read_digits 0 (c ∷ s) in
    if not (is_digit c)
    then none
    else if minus
    then (if n == 0 then some (pos 0) else in_range (n - 1) (negsuc (n - 1)))
    else in_range n (pos n)

unfoldable pub signed : Text → Option ℤ
unfolding unsigned
signed [] = none
signed (c ∷ s) =
    if c == b'-'
    then unsigned true s
    else if c == b'+'
    then unsigned false s
    else unsigned false (c ∷ s)

-- The number at the front of a text; an exception is `none`.
unfoldable pub stoi : Text → Option ℤ
unfolding skip_space signed ℕ_eq
stoi s = signed (skip_space s)

read_digits-digit :
    (m d : ℕ) (rest : Text)
    → d < 10
    → read_digits m ((48 + d) ∷ rest) ≡ read_digits (10 * m + d) rest
unfolding read_digits
read_digits-digit m d rest h =
    let p : (leb 48 (48 + d) && leb (48 + d) 57) ≡ true = ground arith in
    let q : (10 * m + (48 + d - 48)) ≡ 10 * m + d = omega arith in rw (p, q)

read_digits-digits :
    (fuel n : ℕ) (rest : Text) → n < fuel → read_digits 0 (digits fuel n rest) ≡ read_digits n rest
unfolding digits
read_digits-digits zero n rest h = absurd (omega arith)
read_digits-digits (suc fuel) n rest h = elim (Bool-cases (ltb n 10)) [
  | inl small ↦
      let zero_digit : 10 * 0 + n ≡ n = omega arith in
      rw small (
        read_digits-digit 0 n rest (ground (arith, small))
        ∙ ap (λ i. read_digits i rest) zero_digit)
  | inr large ↦
      let big : 10 ≤ n = ground (arith, large) in
      let q : 10 * (n / 10) + n % 10 ≡ n = omega arith in
      rw large (
        read_digits-digits fuel (n / 10) ((48 + n % 10) ∷ rest) (omega arith)
        ∙ read_digits-digit (n / 10) (n % 10) rest (omega arith)
        ∙ ap (λ i. read_digits i rest) q)
]

digits-head :
    (fuel n : ℕ) (rest : Text)
    → n < fuel
    → (d : ℕ) × (more : Text) × (d < 10) × (digits fuel n rest ≡ (48 + d) ∷ more)
unfolding digits
digits-head zero n rest h = absurd (omega arith)
digits-head (suc fuel) n rest h = elim (Bool-cases (ltb n 10)) [
  | inl small ↦ (n, rest, ground (arith, small), rw small)
  | inr large ↦
      let big : 10 ≤ n = ground (arith, large) in
      let (d, more, lt, e) = digits-head fuel (n / 10) ((48 + n % 10) ∷ rest) (omega arith) in
      (d, more, lt, rw large e)
]

stoi-digit :
    (d : ℕ) (more : Text)
    → d < 10
    → stoi ((48 + d) ∷ more)
      ≡ in_range (read_digits 0 ((48 + d) ∷ more)) (pos (read_digits 0 ((48 + d) ∷ more)))
unfolding stoi
stoi-digit d more h =
    let no_space : is_space (48 + d) ≡ false = ground arith in
    let no_minus : ((48 + d) == b'-') ≡ false = ground arith in
    let no_plus : ((48 + d) == b'+') ≡ false = ground arith in
    let digit : is_digit (48 + d) ≡ true = ground arith in rw (no_space, no_minus, no_plus, digit)

-- A number of type `int` that is not negative is read back from its digits.
pub stoi-to_string : (n : ℕ) → n ≤ int_max → stoi (to_string (pos n)) ≡ some (pos n)
unfolding to_string read_digits
stoi-to_string n h =
    let (d, more, lt, e) = digits-head (suc n) n [] (omega arith) in
    let value : read_digits 0 ((48 + d) ∷ more) ≡ n =
      ap (read_digits 0) (sym e) ∙ read_digits-digits (suc n) n [] (omega arith) in
    let small : leb n int_max ≡ true = ground arith in
    rw e (stoi-digit d more lt ∙ rw (value, small))

-- -1, which stands for a leader that is not known
pub stoi-minus_one : stoi (to_string minus_one) ≡ some minus_one
unfolding stoi to_string
stoi-minus_one = refl
