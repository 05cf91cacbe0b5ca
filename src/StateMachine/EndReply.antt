-- ===== src/StateMachine/EndReply.antt =====
-- The reply to the end of a session: the buffer that StateMachine.cpp allocates and fills by hand,
-- and the loop that reads it in SkinnyImpl.cpp and in server.cpp.
pub mod Size
pub mod Reading
use distributed_systems_chub.Prelude.{
  ℕ, zero, suc, ◌+◌, Option, none, some, List, [], ◌∷◌, ◌++◌, Text, ℤ, pos, negsuc, length,
}
use distributed_systems_chub.Exec.{Result, ok, fault, chain, library_error}
use distributed_systems_chub.Codegen.Meaning.{BufferSerializer, fill}
use distributed_systems_chub.StateMachine.State.{ok_text}

-- The loop that puts the paths.
unfoldable pub put_paths : BufferSerializer → List Text → Text
put_paths bs [] = []
put_paths bs (p ∷ paths) = bs.put_str p ++ put_paths bs paths

-- What is put into the buffer.
unfoldable pub end_bytes : BufferSerializer → List Text → Text
unfolding put_paths
end_bytes bs paths =
    bs.put_i32 (pos 0)
    ++ (bs.put_str ok_text ++ (bs.put_i32 (pos (length paths)) ++ put_paths bs paths))

-- The buffer has the size that was counted; what does not fit is NuRaft's exception, and so is a
-- negative size, as which buffer::alloc takes a size_t of 2 ^ 63 or more.
unfoldable pub serialize_end : BufferSerializer → ℤ → List Text → Result Text
unfolding end_bytes fill
serialize_end bs (pos size) paths = fill bs size (some (end_bytes bs paths))
serialize_end bs (negsuc n) paths = fault library_error

-- What is read, and what is left of the buffer.
abbrev pub got : {A : Type 0} → Option (A × Text) → Result (A × Text)
got none = fault library_error
got (some r) = ok r

-- The loop over the number of the paths.
unfoldable pub get_paths : BufferSerializer → ℕ → Text → Result (List Text)
get_paths bs zero buf = ok []
get_paths bs (suc n) buf =
    chain (got (bs.get_str buf)) λ (p, rest). chain (get_paths bs n rest) λ paths. ok (p ∷ paths)

-- A negative number of paths is none.
abbrev pub count : ℤ → ℕ
count (pos n) = n
count (negsuc n) = 0

unfoldable pub read_paths : BufferSerializer → Text → Result (List Text)
unfolding get_paths
read_paths bs buf = chain (got (bs.get_i32 buf)) λ (res, buf1).
    chain (got (bs.get_str buf1))
      λ (msg, buf2). chain (got (bs.get_i32 buf2)) λ (size, rest). get_paths bs (count size) rest
