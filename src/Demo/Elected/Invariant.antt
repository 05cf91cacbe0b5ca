-- ===== src/Demo/Elected/Invariant.antt =====
-- demo/demo3.cpp: what holds between the calls of the contenders.
use distributed_systems_chub.Prelude.{
  sym, get_elem?-set_other, subst, ◌∙◌, get_elem?-set_cases, ℕ, ◌≡◌, ◌≢◌, inl, inr, ap, true, none,
  some, List, [], Text, text_eq, ℤ_eq, ℕ_eq, to_int, get_elem?, set,
}
use distributed_systems_chub.Dict.{get}
use distributed_systems_chub.Session.{Entry, handle_inum}
use distributed_systems_chub.Store.{File}
use distributed_systems_chub.StateMachine.State.{State}
use distributed_systems_chub.StateMachine.LockReplies.{Handle}
use distributed_systems_chub.Skinny.Notified.{Known}
use distributed_systems_chub.Client.Calls.{cached}
use distributed_systems_chub.Demo.{elected, beaten, follows}
use distributed_systems_chub.Demo.Elected.{Contender, Phase, reading, trying, writing, over}

-- How far the election has come: nobody has the lock through it, the contender `i` has it, or the
-- contender `i` has also written its name.
pub data Stage : Type 0 where
  contested : Stage
  winning decided : ℕ → Stage

-- The contender's handle of the file.
abbrev pub HasFile : State → Text → File → Contender → Type 0
HasFile s key file k =
    (e : Entry) × Handle s (to_int k.client.session_id) k.fh e key file
    × (handle_inum e k.fh ≡ some file.instance_num)

-- What the phase of the contender at the index `j` goes with.
abbrev pub Fits : Stage → File → ℕ → Contender → Phase → Type 0
Fits stage file j k reading = cached k.client k.fh ≡ none
Fits stage file j k trying = Unit
Fits stage file j k writing = stage ≡ winning j
Fits stage file j k (over elected) = (stage ≡ decided j) × (file.content ≡ k.hostname)
Fits stage file j k (over beaten) = Unit
Fits stage file j k (over (follows p)) = (i : ℕ) × (stage ≡ decided i) × (file.content ≡ p)

-- What the file is like at each stage.
abbrev pub Holds : Stage → State → File → List Contender → Type 0
Holds contested s file ks = (file.content ≡ []) × Known s file.subscribers
Holds (winning i) s file ks =
    (file.content ≡ []) × Known s file.subscribers × (file.lock_owners ≢ [])
Holds (decided i) s file ks =
    (file.lock_owners ≢ [])
    × (k : Contender) × (get_elem? ks i ≡ some k)
    × (k.phase ≡ over elected)
    × (file.content ≡ k.hostname)

pub record Inv (key : Text) (ks : List Contender) (s : State) : Type 0 where
  pub file : File
  pub stage : Stage
  pub there : file.file_exists ≡ true
  pub holds : get s.ds key ≡ some file
  pub has : (j : ℕ) (k : Contender) → get_elem? ks j ≡ some k → HasFile s key file k
  pub fits : (j : ℕ) (k : Contender) → get_elem? ks j ≡ some k → Fits stage file j k k.phase
  pub at_stage : Holds stage s file ks

-- The invariant again when the contender `i` has become `k'`, with the same handle.
pub renewed :
    (key : Text) (ks : List Contender) (i : ℕ) (k k' : Contender) (t : State) (file' : File)
    (stage' : Stage)
    → get_elem? ks i ≡ some k
    → (k'.client.session_id ≡ k.client.session_id) × (k'.fh ≡ k.fh)
    → file'.file_exists ≡ true
    → get t.ds key ≡ some file'
    → ((j : ℕ) (l : Contender) → get_elem? ks j ≡ some l → HasFile t key file' l)
    → ((j : ℕ) (l : Contender) → j ≢ i → get_elem? ks j ≡ some l → Fits stage' file' j l l.phase)
    → Fits stage' file' i k' k'.phase
    → Holds stage' t file' (set ks i k')
    → Inv key (set ks i k') t
renewed key ks i k k' t file' stage' at_i (id, fh) there holds has others self at_stage = record {
  file = file';
  stage = stage';
  there = there;
  holds = holds;
  has = λ j l h. elim (get_elem?-set_cases ks i j k' l h) [
    | inl (_, p) ↦ subst (HasFile t key file') p (moved_handle (has i k at_i))
    | inr (_, old) ↦ has j l old
  ];
  fits = λ j l h. elim (get_elem?-set_cases ks i j k' l h) [
    | inl (q, p) ↦
        subst (λ x. Fits stage' file' j x x.phase) p
          (subst (λ x. Fits stage' file' x k' k'.phase) (sym q) self)
    | inr (n, old) ↦ others j l n old
  ];
  at_stage = at_stage;
}
  where
    moved_handle : HasFile t key file' k → HasFile t key file' k'
    moved_handle (e, h, n) = (e, rw (id, fh) h, rw fh n)

same_elem :
    (ks : List Contender) (w i : ℕ) (k l : Contender)
    → get_elem? ks i ≡ some k
    → get_elem? ks w ≡ some l
    → w ≡ i
    → k ≡ l
same_elem ks w i k l at_i at_w p =
    let e : some k ≡ some l = sym at_i ∙ ap (get_elem? ks) (sym p) ∙ at_w in cc

-- The winner stays where it is when another contender moves.
pub Holds-set :
    (stage : Stage) (s : State) (file : File) (ks : List Contender) (i : ℕ) (k k' : Contender)
    → get_elem? ks i ≡ some k
    → k.phase ≢ over elected
    → Holds stage s file ks
    → Holds stage s file (set ks i k')
Holds-set contested s file ks i k k' at_i n h = h
Holds-set (winning w) s file ks i k k' at_i n h = h
Holds-set (decided w) s file ks i k k' at_i n (held, l, at_w, won, named) =
    let apart : w ≢ i = λ p. n (ap Contender.phase (same_elem ks w i k l at_i at_w p) ∙ won) in
    (held, l, get_elem?-set_other ks i w k' apart ∙ at_w, won, named)
