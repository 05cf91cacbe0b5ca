-- ===== src/FilePath.antt =====
-- std::filesystem::path on a POSIX system: the parts of a path that StateMachine.cpp and
-- SkinnyImpl.cpp use, over the bytes of the path.
pub mod Laws
use distributed_systems_chub.Prelude.{
  Bool, not, ◌&&◌, [], ◌∷◌, Text, ◌==◌, ℕ_eq, contains, is_empty, if◌then◌else◌, ℕ,
}

abbrev pub slash : ℕ
slash = b'/'

-- What follows the last slash.
unfoldable pub filename : Text → Text
unfolding contains
filename [] = []
filename (c ∷ p) =
    let rest = filename p in if contains p slash then rest else if c == slash then p else c ∷ p

-- The path up to its last slash, which is included.
pub before_name : Text → Text
before_name [] = []
before_name (c ∷ p) =
    let rest = before_name p in
    if contains p slash then c ∷ rest else if c == slash then c ∷ [] else []

-- The path without its trailing slashes.
pub strip : Text → Text
strip [] = []
strip (c ∷ p) = let rest = strip p in if c == slash && is_empty rest then [] else c ∷ rest

or_root : Text → Text → Text
or_root root [] = root
or_root root (c ∷ p) = c ∷ p

-- `path == "/"` compares the elements of two paths, so that repeated slashes are one.
unfoldable pub is_root : Text → Bool
unfolding strip
is_root p = not (is_empty p) && is_empty (strip p)

-- The root directory of a path is its first slash, whatever slashes follow it.
pub first_slash : Text → Text
first_slash [] = []
first_slash (c ∷ p) = c ∷ []

-- The parent of the root, and of every path of slashes alone, is the path itself.
unfoldable pub parent_path : Text → Text
unfolding or_root before_name strip first_slash is_root contains
parent_path p =
    if is_root p then p else or_root (first_slash (before_name p)) (strip (before_name p))
