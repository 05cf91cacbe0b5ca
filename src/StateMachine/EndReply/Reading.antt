-- ===== src/StateMachine/EndReply/Reading.antt =====
-- The reply to the end of a session against the buffer that StateMachine.cpp allocates for it, and
-- against what SkinnyImpl.cpp reads.
use distributed_systems_chub.Prelude.{
  ℤ, ℕ, ◌+◌, ◌*◌, ◌-◌, ◌≤◌, ◌≡◌, ◌⊎◌, inl, inr, arith, refl, Bool-cases, List, [], ◌∷◌, ◌++◌, Text,
  pos, length, length-append, leb, int_max,
}
use mathlib.Core.List.{append_assoc}
use distributed_systems_chub.Exec.{ok, fault, library_error}
use distributed_systems_chub.Action.{EndSessionAction, end_session_return}
use distributed_systems_chub.Codegen.Meaning.{BufferSerializer, IsSerializer, IsShort, fill}
use distributed_systems_chub.StateMachine.State.{State, ok_text}
use distributed_systems_chub.StateMachine.Close.{end_session}
use distributed_systems_chub.StateMachine.EndReply.{
  put_paths, end_bytes, serialize_end, get_paths, read_paths,
}
use distributed_systems_chub.StateMachine.EndReply.Size.{triangle, counted, end_session-IsCounted}

-- NuRaft writes a string's length in four bytes, and then its bytes.
abbrev pub IsPrefixed : BufferSerializer → Type 0
IsPrefixed bs = (t : Text) → length (bs.put_str t) ≡ 4 + length t

abbrev pub AllShort : List Text → Type 0
AllShort [] = Unit
AllShort (p ∷ paths) = IsShort p × AllShort paths

-- The bytes of all paths.
abbrev pub total : List Text → ℕ
total [] = 0
total (p ∷ paths) = length p + total paths

module _ (bs : BufferSerializer) (law : IsSerializer bs) where
  length-put_paths :
      (paths : List Text)
      → IsPrefixed bs
      → length (put_paths bs paths) ≡ 4 * length paths + total paths
  unfolding put_paths
  length-put_paths [] prefixed = refl
  length-put_paths (p ∷ paths) prefixed = omega (
    arith,
    length-append (bs.put_str p) (put_paths bs paths),
    prefixed p,
    length-put_paths paths prefixed,
  )

  length-end_bytes :
      (paths : List Text)
      → IsPrefixed bs
      → length (end_bytes bs paths) ≡ 14 + 4 * length paths + total paths
  unfolding end_bytes
  length-end_bytes paths prefixed =
      let number = bs.put_i32 (pos (length paths)) in
      omega (
        arith,
        length-append (bs.put_i32 (pos 0)) (bs.put_str ok_text ++ (number ++ put_paths bs paths)),
        length-append (bs.put_str ok_text) (number ++ put_paths bs paths),
        length-append number (put_paths bs paths),
        law.length_i32 (pos 0),
        law.length_i32 (pos (length paths)),
        prefixed ok_text,
        length-put_paths paths prefixed,
      )

  get_paths-put_paths :
      (paths : List Text) (rest : Text)
      → AllShort paths
      → get_paths bs (length paths) (put_paths bs paths ++ rest) ≡ ok paths
  unfolding get_paths put_paths
  get_paths-put_paths [] rest short = refl
  get_paths-put_paths (p ∷ paths) rest (one, others) = rw (
    append_assoc (bs.put_str p) (put_paths bs paths) rest,
    law.str_str p (put_paths bs paths ++ rest) one,
    get_paths-put_paths paths rest others,
  )

  read_paths-end_bytes :
      (paths : List Text) (rest : Text)
      → length paths ≤ int_max
      → AllShort paths
      → read_paths bs (end_bytes bs paths ++ rest) ≡ ok paths
  unfolding read_paths end_bytes
  read_paths-end_bytes paths rest few short =
      let number = bs.put_i32 (pos (length paths)) in
      let last = put_paths bs paths ++ rest in
      rw
        (
          append_assoc (bs.put_i32 (pos 0)) (bs.put_str ok_text ++ (number ++ put_paths bs paths))
              rest,
          append_assoc (bs.put_str ok_text) (number ++ put_paths bs paths) rest,
          append_assoc number (put_paths bs paths) rest,
          law.i32_i32 (pos 0) (bs.put_str ok_text ++ (number ++ last)) (omega arith, omega arith),
          law.str_str ok_text (number ++ last) (omega arith),
          law.i32_i32 (pos (length paths)) last (omega arith, omega arith),
        )
        (get_paths-put_paths paths rest short)

-- The paths take no more bytes than the size has for them.
abbrev pub Fits : List Text → Type 0
Fits paths = total paths ≤ 4 + 4 * length paths + triangle (length paths)

abbrev pub EndReplyOutcome : BufferSerializer → ℤ → List Text → Type 0
EndReplyOutcome bs size paths =
    (Fits paths
      × (buf : Text) × (serialize_end bs size paths ≡ ok buf)
      × (read_paths bs buf ≡ ok paths))
    ⊎ ((¬ Fits paths) × (serialize_end bs size paths ≡ fault library_error))

-- When a session ends, and the size that is counted for the reply, which is
-- 18 + 8 n + n (n + 1) / 2 for n directories that changed, does not overflow an `int`: the directories
-- reach the server that asked for the end exactly when their paths take at most
-- 4 + 4 n + n (n + 1) / 2 bytes; longer paths do not fit the buffer, and the handler stops with
-- NuRaft's exception. The serializer reads back what it wrote and writes a text's length in four
-- bytes, and no path is too long for that.
pub end_reply_outcome :
    (bs : BufferSerializer) (a : EndSessionAction) (s : State) (size : ℤ) (paths : List Text)
    → IsSerializer bs
    → IsPrefixed bs
    → (end_session a s).0 ≡ ok (end_session_return size paths)
    → counted paths ≤ int_max
    → AllShort paths
    → EndReplyOutcome bs size paths
unfolding serialize_end fill
end_reply_outcome bs a s size paths law prefixed replied small short =
    let sized = end_session-IsCounted a s size paths replied small in
    let bytes = length-end_bytes bs law paths prefixed in
    let few : length paths ≤ int_max = omega (arith, small) in
    rw sized (elim (Bool-cases (leb (length (end_bytes bs paths)) (counted paths))) [
      | inl fits ↦ inl (
        ground arith,
        end_bytes bs paths ++ bs.fresh (counted paths - length (end_bytes bs paths)),
        rw fits,
        read_paths-end_bytes bs law paths _ few short,
      )
      | inr over ↦ inr (λ fit. ground arith, rw over)
    ])
