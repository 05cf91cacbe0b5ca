-- ===== src/Demo/Elected/OnePrimary.antt =====
-- demo/demo3.cpp: whatever the order of the calls, at most one contender wins, and the others that
-- have found a primary have found that one.
use distributed_systems_chub.Prelude.{
  ℕ, zero, suc, ◌+◌, ◌≡◌, ◌∙◌, sym, refl, true, Option, none, some, Option-cases, inl, inr, List,
  [], ◌∷◌, Text, text_eq, get_elem?, arith, ap, subst,
}
use distributed_systems_chub.Exec.{ok}
use distributed_systems_chub.Dict.{get}
use distributed_systems_chub.Store.{File}
use distributed_systems_chub.StateMachine.State.{State}
use distributed_systems_chub.Skinny.{Server}
use distributed_systems_chub.Skinny.AtOnce.{AtOnce}
use distributed_systems_chub.Skinny.Notified.{Known}
use distributed_systems_chub.Client.Calls.{cached}
use distributed_systems_chub.Demo.{elected, beaten, follows}
use distributed_systems_chub.Demo.Elected.{
  Contender, Phase, reading, trying, writing, over, turn, run_turns,
}
use distributed_systems_chub.Demo.Elected.Invariant.{
  Stage, contested, winning, decided, HasFile, Fits, Holds, Inv,
}
use distributed_systems_chub.Demo.Elected.Turns.{make_call-Inv}

-- Before the election: every contender has the file open at its instance, has not read it yet, and
-- has no content of it in its cache.
abbrev pub AllReady : State → Text → File → List Contender → Type 0
AllReady s key file [] = Unit
AllReady s key file (k ∷ ks) =
    (k.phase ≡ reading)
    × (cached k.client k.fh ≡ none)
    × HasFile s key file k
    × AllReady s key file ks

-- What the contender `j` has become, where `winner` is the index of the one that has the lock.
abbrev pub Role : Option ℕ → List Contender → ℕ → Phase → Type 0
Role winner ks j reading = Unit
Role winner ks j trying = Unit
Role winner ks j writing = winner ≡ some j
Role winner ks j (over elected) = winner ≡ some j
Role winner ks j (over beaten) = Unit
Role winner ks j (over (follows primary)) =
    (i : ℕ) × (l : Contender) × (winner ≡ some i)
    × (get_elem? ks i ≡ some l)
    × (l.phase ≡ over elected)
    × (l.hostname ≡ primary)

abbrev pub AllRoles : Option ℕ → List Contender → ℕ → List Contender → Type 0
AllRoles winner all j [] = Unit
AllRoles winner all j (k ∷ ks) = Role winner all j k.phase × AllRoles winner all (j + 1) ks

ready_at :
    (s : State) (key : Text) (file : File) (ks : List Contender) (j : ℕ) (k : Contender)
    → AllReady s key file ks
    → get_elem? ks j ≡ some k
    → (k.phase ≡ reading) × (cached k.client k.fh ≡ none) × HasFile s key file k
ready_at s key file [] j k r h = cc
ready_at s key file (x ∷ ks) zero k (p, c, f, r) h =
    let e : x ≡ k = cc in
    subst (λ l. (l.phase ≡ reading) × (cached l.client l.fh ≡ none) × HasFile s key file l) e
      (p, c, f)
ready_at s key file (x ∷ ks) (suc j) k (_, _, _, r) h = ready_at s key file ks j k r h

AllReady-Inv :
    (s : State) (key : Text) (file : File) (ks : List Contender)
    → get s.ds key ≡ some file
    → file.file_exists ≡ true
    → file.content ≡ []
    → Known s file.subscribers
    → AllReady s key file ks
    → Inv key ks s
AllReady-Inv s key file ks holds there empty known ready = record {
  file = file;
  stage = contested;
  there = there;
  holds = holds;
  has = λ j k h. (ready_at s key file ks j k ready h).2;
  fits = λ j k h. let (p, c, _) = ready_at s key file ks j k ready h in rw p c;
  at_stage = (empty, known);
}

run_turns-Inv :
    (server : Server)
    → AtOnce server
    → server.is_leader ≡ true
    → (key : Text) (turns : List ℕ) (ks : List Contender) (s : State) → Inv key ks s
    → (ks' : List Contender) × (t : State) × (run_turns server turns ks s ≡ (ok ks', t))
      × Inv key ks' t
unfolding run_turns turn
run_turns-Inv server once leader key [] ks s v = (ks, s, refl, v)
run_turns-Inv server once leader key (i ∷ turns) ks s v = elim (Option-cases (get_elem? ks i)) [
  | inl out ↦
      let (ks', t, ran, v') = run_turns-Inv server once leader key turns ks s v in
      (ks', t, rw out ran, v')
  | inr (k, at_i) ↦
      let (k', u, called, w) = make_call-Inv server once leader key ks s v i k at_i in
      let (ks', t, ran, v') = run_turns-Inv server once leader key turns _ u w in
      (ks', t, rw (at_i, called) ran, v')
]

abbrev winner_of : Stage → Option ℕ
winner_of contested = none
winner_of (winning i) = some i
winner_of (decided i) = some i

Fits-Role :
    (stage : Stage) (s : State) (file : File) (ks : List Contender) (j : ℕ) (k : Contender)
    (phase : Phase)
    → Holds stage s file ks
    → Fits stage file j k phase
    → Role (winner_of stage) ks j phase
Fits-Role stage s file ks j k reading h f = tt
Fits-Role stage s file ks j k trying h f = tt
Fits-Role stage s file ks j k writing h f = ap winner_of f
Fits-Role stage s file ks j k (over elected) h f = ap winner_of f.0
Fits-Role stage s file ks j k (over beaten) h f = tt
Fits-Role stage s file ks j k (over (follows primary)) h (i, e, q) =
    let g : Holds (decided i) s file ks = subst (λ x. Holds x s file ks) e h in
    (i, g.1, ap winner_of e, g.2, g.3, sym g.4 ∙ q)

all_roles :
    (winner : Option ℕ) (all ks : List Contender) (i : ℕ)
    → ((j n : ℕ) (k : Contender) → n ≡ i + j → get_elem? ks j ≡ some k → Role winner all n k.phase)
    → AllRoles winner all i ks
all_roles winner all [] i h = tt
all_roles winner all (k ∷ ks) i h = (
  h 0 i k (omega arith) refl,
  all_roles winner all ks (i + 1) (λ j n l e q. h (suc j) n l (omega arith) q),
)

-- Contenders for a file that exists and is empty, on a leader whose log answers at once, and whose
-- subscribers have handles that their sessions know: whatever the order in which the contenders
-- make their calls, and however far they come, every call returns, at most one of them is about to
-- write its name or has written it, and a contender that has found a primary has found the name
-- that this one has written.
pub run_turns_outcome :
    (server : Server) (s : State) (key : Text) (file : File) (ks : List Contender) (turns : List ℕ)
    → AtOnce server
    → server.is_leader ≡ true
    → get s.ds key ≡ some file
    → file.file_exists ≡ true
    → file.content ≡ []
    → Known s file.subscribers
    → AllReady s key file ks
    → (ks' : List Contender) × (t : State) × (winner : Option ℕ) × (run_turns server turns ks s
        ≡ (ok ks', t))
      × AllRoles winner ks' 0 ks'
run_turns_outcome server s key file ks turns once leader holds there empty known ready =
    let (ks', t, ran, v) =
      run_turns-Inv server once leader key turns ks s
        (AllReady-Inv s key file ks holds there empty known ready) in
    (
      ks',
      t,
      winner_of v.stage,
      ran,
      all_roles (winner_of v.stage) ks' ks' 0 (λ j n k e h.
          let same : n ≡ j = omega arith in
          Fits-Role v.stage t v.file ks' n k k.phase v.at_stage (v.fits n k (rw same h))),
    )
