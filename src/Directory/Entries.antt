-- ===== src/Directory/Entries.antt =====
-- What appending and cutting an entry do to the list of names that a directory shows.
use mathlib.Core.Option
use mathlib.Core.List.{append_assoc, append-nil}
use native.Mathlib.Numerals.{add-one}
use distributed_systems_chub.Prelude.{
  ℕ, ◌≡◌, refl, ap, sym, ◌∙◌, true, false, Option, none, some, List, [], ◌∷◌, ◌++◌, arith, Text,
  ℕ_eq, text_eq, length, drop, contains, if◌then◌else◌, Bool-cases, inl, inr,
}
use distributed_systems_chub.Directory.{is_prefix, find, erase_range, entry, add_entry, cut_entry}

-- The content of a directory that holds these names, oldest first.
abbrev pub render : List Text → Text
render [] = []
render (x ∷ xs) = 0 ∷ x ++ render xs

abbrev pub AllNamed : List Text → Type 0
AllNamed [] = Unit {0}
AllNamed (x ∷ xs) = (contains x 0 ≡ false) × AllNamed xs

-- What is left after `name` is cut: the bytes of the first entry that begins with `name` go as
-- far as `name` reaches.
unfoldable pub cut : List Text → Text → Option Text
cut [] name = none
cut (x ∷ xs) name =
    if is_prefix name x
    then some (drop (length name) x ++ render xs)
    else Option.map (λ rest. 0 ∷ x ++ rest) (cut xs name)

pub render-append : (xs ys : List Text) → render (xs ++ ys) ≡ render xs ++ render ys
render-append [] ys = refl
render-append (x ∷ xs) ys =
    ap (λ r. 0 ∷ x ++ r) (render-append xs ys)
    ∙ ap (λ r. 0 ∷ r) (sym (append_assoc x (render xs) (render ys)))

-- Opening a new file adds its name at the end.
pub add_entry-render :
    (xs : List Text) (name : Text) → add_entry (render xs) name ≡ render (xs ++ name ∷ [])
unfolding add_entry
add_entry-render xs name =
    ap (λ r. render xs ++ 0 ∷ r) (sym (append-nil name)) ∙ sym (render-append xs (name ∷ []))

cut_entry-cons :
    (c : ℕ) (s name : Text)
    → cut_entry (c ∷ s) name ≡ (
        if is_prefix (entry name) (c ∷ s)
        then some (drop (length name) s)
        else Option.map (λ rest. c ∷ rest) (cut_entry s name))
unfolding cut_entry find erase_range
cut_entry-cons c s name = rw (add-one (length name)) (ground arith)

cut_entry-nil : (name : Text) → cut_entry [] name ≡ none
unfolding cut_entry find
cut_entry-nil name = refl

cut_entry-skip :
    (x s name : Text)
    → contains x 0 ≡ false
    → cut_entry (x ++ s) name ≡ Option.map (λ rest. x ++ rest) (cut_entry s name)
unfolding contains is_prefix
cut_entry-skip [] s name h = ground arith
cut_entry-skip (c ∷ x) s name h =
    ground (arith, cut_entry-cons c (x ++ s) name, cut_entry-skip x s name)

is_prefix-render :
    (name x : Text) (xs : List Text)
    → contains name 0 ≡ false
    → is_prefix name (x ++ render xs) ≡ is_prefix name x
unfolding contains is_prefix
is_prefix-render [] x xs h = refl
is_prefix-render (c ∷ name) [] [] h = refl
is_prefix-render (c ∷ name) [] (y ∷ ys) h = ground arith
is_prefix-render (c ∷ name) (d ∷ x) xs h = ground (arith, is_prefix-render name x xs)

drop-append_of_prefix :
    (name x r : Text)
    → is_prefix name x ≡ true
    → drop (length name) (x ++ r) ≡ drop (length name) x ++ r
unfolding is_prefix
drop-append_of_prefix [] x r h = refl
drop-append_of_prefix (c ∷ name) [] r h = ground arith
drop-append_of_prefix (c ∷ name) (d ∷ x) r h = ground (arith, drop-append_of_prefix name x r)

-- What the search for an entry and the cut of its bytes do to a directory, for every list of names
-- without a zero byte: the first entry that begins with `name` loses that many bytes.
pub cut_entry-render :
    (xs : List Text) (name : Text)
    → contains name 0 ≡ false
    → AllNamed xs
    → cut_entry (render xs) name ≡ cut xs name
unfolding cut is_prefix
cut_entry-render [] name h all = cut_entry-nil name
cut_entry-render (x ∷ xs) name h all = elim (Bool-cases (is_prefix name x)) [
  | inl hit ↦ ground (
    arith,
    cut_entry-cons 0 (x ++ render xs) name,
    is_prefix-render name x xs h,
    drop-append_of_prefix name x (render xs) hit,
  )
  | inr miss ↦ ground (
    arith,
    cut_entry-cons 0 (x ++ render xs) name,
    is_prefix-render name x xs h,
    cut_entry-skip x (render xs) name all.0,
    cut_entry-render xs name h all.1,
  )
]

-- No file of `xs` has a name that begins with `name`.
abbrev pub NoneBegins : Text → List Text → Type 0
NoneBegins name [] = Unit {0}
NoneBegins name (x ∷ xs) = (is_prefix name x ≡ false) × NoneBegins name xs

is_prefix-append : (p s : Text) → is_prefix p (p ++ s) ≡ true
unfolding is_prefix
is_prefix-append [] s = refl
is_prefix-append (c ∷ p) s = ground (arith, is_prefix-append p s)

drop-append : (p s : Text) → drop (length p) (p ++ s) ≡ s
drop-append [] s = refl
drop-append (c ∷ p) s = drop-append p s

cut-longer :
    (xs ys : List Text) (name rest : Text)
    → NoneBegins name xs
    → cut (xs ++ (name ++ rest) ∷ ys) name ≡ some (render xs ++ (rest ++ render ys))
unfolding cut
cut-longer [] ys name rest h = rw (is_prefix-append name rest, drop-append name rest)
cut-longer (x ∷ xs) ys name rest h =
    rw (h.0, cut-longer xs ys name rest h.1)
      (ap some (ap (λ r. 0 ∷ r) (sym (append_assoc x (render xs) (rest ++ render ys)))))

AllNamed-append : (xs ys : List Text) → AllNamed xs → AllNamed ys → AllNamed (xs ++ ys)
AllNamed-append [] ys h k = k
AllNamed-append (x ∷ xs) ys h k = (h.0, AllNamed-append xs ys h.1 k)

-- Where no older file has a name that begins with `name`, the cut takes the entry of `name` out
-- and leaves every other entry as it was.
pub cut_entry-removes :
    (xs ys : List Text) (name : Text)
    → contains name 0 ≡ false
    → AllNamed xs
    → AllNamed ys
    → NoneBegins name xs
    → cut_entry (render (xs ++ name ∷ ys)) name ≡ some (render (xs ++ ys))
cut_entry-removes xs ys name h all_xs all_ys none_begins =
    ap (λ n. cut_entry (render (xs ++ n ∷ ys)) name) (sym (append-nil name))
    ∙ cut_entry-render (xs ++ (name ++ []) ∷ ys) name h
        (AllNamed-append xs _ all_xs (rw append-nil h, all_ys))
    ∙ cut-longer xs ys name [] none_begins
    ∙ ap some (sym (render-append xs ys))

-- Where an older file's name is longer and begins with `name`, the cut destroys the entry of that
-- file: its zero byte and the common part go, and the rest is joined to the entry before it.
pub cut_entry-corrupts :
    (xs ys : List Text) (name rest : Text)
    → contains name 0 ≡ false
    → AllNamed xs
    → contains (name ++ rest) 0 ≡ false
    → AllNamed ys
    → NoneBegins name xs
    → cut_entry (render (xs ++ (name ++ rest) ∷ ys)) name ≡ some (render xs ++ (rest ++ render ys))
cut_entry-corrupts xs ys name rest h all_xs longer all_ys none_begins =
    cut_entry-render (xs ++ (name ++ rest) ∷ ys) name h
      (AllNamed-append xs _ all_xs (longer, all_ys))
    ∙ cut-longer xs ys name rest none_begins
