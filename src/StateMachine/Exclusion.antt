-- ===== src/StateMachine/Exclusion.antt =====
-- Mutual exclusion of lock owners, over every log.
use distributed_systems_chub.Prelude.{
  subst, ◌≤◌, ◌≡◌, refl, true, not, ◌||◌, Option, none, some, List, [], ◌∷◌, Text, ℤ, ℤ_eq, text_eq,
  arith, contains, insert, length, length-erase, is_empty,
}
use distributed_systems_chub.Dict.{get}
use distributed_systems_chub.Store.{File}
use distributed_systems_chub.Action.{Action}
use distributed_systems_chub.Server.{initial}
use distributed_systems_chub.StateMachine.{run}
use distributed_systems_chub.StateMachine.Locks.{take_exclusive, take_shared}
use distributed_systems_chub.StateMachine.Open.{mark_opened, subscribe}
use distributed_systems_chub.StateMachine.Contents.{delete_instance}
use distributed_systems_chub.StateMachine.Files.{FileInv}
use distributed_systems_chub.StateMachine.Files.Runs.{initial-Files, run-Files}

-- A lock in the exclusive mode has one owner at most.
abbrev IsExclusive : Text → Option File → Type 0
IsExclusive p none = Unit {0}
IsExclusive p (some f) = f.is_locked_ex ≡ true → length f.lock_owners ≤ 1

taken_shared-IsExclusive :
    (id : ℤ) (p : Text) (f : File) (owners : List ℤ)
    → f.lock_owners ≡ owners
    → (is_empty f.lock_owners || not f.is_locked_ex) ≡ true
    → IsExclusive p (some f)
    → IsExclusive p (some (record f { meta = take_shared id f.meta }))
unfolding take_shared
taken_shared-IsExclusive id p f owners e h k = ground arith

length-insert_of_empty :
    (id : ℤ) (owners : List ℤ) → is_empty owners ≡ true → length (insert id owners) ≤ 1
unfolding insert contains
length-insert_of_empty id [] h = omega arith
length-insert_of_empty id (x ∷ owners) h = cc

IsExclusive-inv : FileInv IsExclusive
unfolding mark_opened subscribe take_exclusive delete_instance insert
IsExclusive-inv = record {
  fresh = λ p h e. omega arith;
  opened = λ a p f h. h;
  subscribed = λ id fh p f h. h;
  written = λ content p f h. h;
  taken_exclusive = λ id p f free h e. length-insert_of_empty id f.lock_owners free;
  taken_shared = λ id p f free h. taken_shared-IsExclusive id p f _ refl free h;
  released = λ id p f h e. omega (arith, length-erase id f.lock_owners, h e);
  unsubscribed = λ id p f h. h;
  vanished = λ p f h. h;
  deleted = λ p f h. h;
  unlocked = λ p f h e. omega arith;
}

one_owner :
    (owners : List ℤ) (a b : ℤ)
    → length owners ≤ 1
    → contains owners a ≡ true
    → contains owners b ≡ true
    → a ≡ b
unfolding contains
one_owner [] a b h p q = cc
one_owner (x ∷ []) a b h p q = ground arith
one_owner (x ∷ y ∷ owners) a b h p q = absurd (omega arith)

-- After every log, a lock in the exclusive mode has no two owners.
pub mutual_exclusion :
    (log : List Action) (p : Text) (f : File) (a b : ℤ)
    → get (run log initial).ds p ≡ some f
    → f.is_locked_ex ≡ true
    → contains f.lock_owners a ≡ true
    → contains f.lock_owners b ≡ true
    → a ≡ b
mutual_exclusion log p f a b found ex held_a held_b =
    let all = run-Files IsExclusive-inv log initial (initial-Files (λ e. omega arith) (λ p. tt)) in
    one_owner f.lock_owners a b (subst (IsExclusive p) found (all.at p) ex) held_a held_b
