-- ===== src/Directory.antt =====
-- The content of a directory: for each file a zero byte and the file's name. StateMachine.cpp
-- appends an entry in the open handler, and cuts one out in the close and delete handlers, by
-- `find` and `erase` of std::string.
pub mod Entries
use mathlib.Core.Option
use distributed_systems_chub.Prelude.{
  ℕ, zero, suc, ◌+◌, Bool, true, false, ◌&&◌, Option, none, some, List, [], ◌∷◌, ◌++◌, Text, ◌==◌,
  ℕ_eq, length, drop, is_empty, if◌then◌else◌,
}

unfoldable pub is_prefix : Text → Text → Bool
is_prefix [] s = true
is_prefix (c ∷ p) [] = false
is_prefix (c ∷ p) (d ∷ s) = c == d && is_prefix p s

-- s.find(t): the first position at which `t` stands; `none` is std::string::npos.
unfoldable pub find : Text → Text → Option ℕ
find [] t = if is_empty t then some 0 else none
find (c ∷ s) t = if is_prefix t (c ∷ s) then some 0 else Option.map suc (find s t)

-- s.erase(pos, n)
unfoldable pub erase_range : Text → ℕ → ℕ → Text
erase_range s zero n = drop n s
erase_range [] (suc pos) n = []
erase_range (c ∷ s) (suc pos) n = c ∷ erase_range s pos n

-- std::string(1, '\0') + name
abbrev pub entry : Text → Text
entry name = 0 ∷ name

-- parent_content += entry(name)
unfoldable pub add_entry : Text → Text → Text
add_entry content name = content ++ entry name

-- pos = parent_content.find(entry(name)); `none` where the entry is not found, and otherwise
-- parent_content after erase(pos, name.length() + 1).
unfoldable pub cut_entry : Text → Text → Option Text
cut_entry content name =
    Option.map (λ pos. erase_range content pos (length name + 1)) (find content (entry name))
