-- ===== src/FilePath/Laws.antt =====
-- A path below a directory has that directory for its parent, and its last part for its name.
use distributed_systems_chub.Prelude.{
  ◌≡◌, refl, true, false, [], ◌∷◌, ◌++◌, arith, Text, contains, ℕ_eq, text_eq, codes, is_empty, ◌∙◌,
  ◌==◌, ap,
}
use distributed_systems_chub.FilePath.{
  ℕ, slash, filename, before_name, strip, or_root, first_slash, parent_path, is_root,
}

contains-append_slash : (d name : Text) → contains (d ++ slash ∷ name) slash ≡ true
unfolding contains
contains-append_slash [] name = ground arith
contains-append_slash (c ∷ d) name = ground (arith, contains-append_slash d name)

pub filename-child :
    (d name : Text) → contains name slash ≡ false → filename (d ++ slash ∷ name) ≡ name
unfolding filename
filename-child [] name h = ground arith
filename-child (c ∷ d) name h =
    ground (arith, contains-append_slash d name, filename-child d name h)

before_name-child :
    (d name : Text)
    → contains name slash ≡ false
    → before_name (d ++ slash ∷ name) ≡ d ++ slash ∷ []
unfolding before_name
before_name-child [] name h = ground arith
before_name-child (c ∷ d) name h =
    ground (arith, contains-append_slash d name, before_name-child d name h)

strip-append_slash : (d : Text) → strip (d ++ slash ∷ []) ≡ strip d
unfolding strip
strip-append_slash [] = ground arith
strip-append_slash (c ∷ d) = ground (arith, strip-append_slash d)

-- A directory's path: it has a name, and no slash at its end.
pub record IsDirPath (d : Text) : Type 0 where
  pub stripped : strip d ≡ d
  pub named : is_empty d ≡ false

or_root-named : (r d : Text) → is_empty d ≡ false → or_root r d ≡ d
unfolding or_root
or_root-named r [] h = ground arith
or_root-named r (c ∷ d) h = refl

-- A path with a part that is no slash keeps it.
strip-append : (d r : Text) → is_empty (strip d) ≡ false → is_empty (strip (d ++ r)) ≡ false
unfolding strip
strip-append [] r h = ground arith
strip-append (c ∷ d) r h = ground (arith, strip-append d r)

stripped-top :
    (c : ℕ) (name : Text) → (c == slash) ≡ false → is_empty (strip (slash ∷ c ∷ name)) ≡ false
unfolding strip
stripped-top c name h = rw h (ground arith)

parent_path-below :
    (p : Text)
    → is_empty (strip p) ≡ false
    → parent_path p ≡ or_root (first_slash (before_name p)) (strip (before_name p))
unfolding parent_path is_root
parent_path-below p h = ground (arith, h)

-- The parent of `d/name` is `d`, for every directory path `d` and every name without a slash.
pub parent_path-child :
    (d name : Text)
    → IsDirPath d
    → contains name slash ≡ false
    → parent_path (d ++ slash ∷ name) ≡ d
unfolding parent_path is_root
parent_path-child d name dir h =
    let inner = strip-append_slash d ∙ dir.stripped in
    let named = strip-append d (slash ∷ name) (ap is_empty dir.stripped ∙ dir.named) in
    parent_path-below (d ++ slash ∷ name) named
    ∙ ap (λ b. or_root (first_slash b) (strip b)) (before_name-child d name h)
    ∙ ap (or_root (first_slash (d ++ slash ∷ []))) inner
    ∙ or_root-named _ d dir.named

-- The parent of a name below the root is the root.
pub parent_path-top :
    (name : Text) → contains name slash ≡ false → parent_path (slash ∷ name) ≡ slash ∷ []
unfolding parent_path strip contains
parent_path-top [] h = ground arith
parent_path-top (c ∷ name) h =
    parent_path-below (slash ∷ c ∷ name) (stripped-top c name (ground (arith, h)))
    ∙ ap (λ b. or_root (first_slash b) (strip b)) (before_name-child [] (c ∷ name) h)
    ∙ ground arith

parent_slashes : parent_path (codes "//a") ≡ codes "/"
unfolding parent_path ℕ_eq
parent_slashes = refl

parent_deep : parent_path (codes "/a//b") ≡ codes "/a"
unfolding parent_path ℕ_eq
parent_deep = refl

parent_root : parent_path (codes "/") ≡ codes "/"
unfolding parent_path ℕ_eq
parent_root = refl

parent_relative : parent_path (codes "a") ≡ []
unfolding parent_path ℕ_eq
parent_relative = refl

filename_deep : filename (codes "/a/bc") ≡ codes "bc"
unfolding filename contains ℕ_eq
filename_deep = refl

root_twice : is_root (codes "//") ≡ true
unfolding is_root ℕ_eq
root_twice = refl
