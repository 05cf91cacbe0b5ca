-- ===== src/StateMachine/Files/Rules.antt =====
-- The rules for the accesses to the store and to the sessions, over any property of the files and of
-- the entries.
use mathlib.Core.Logic.{ite}
use distributed_systems_chub.Prelude.{
  refl, ℤ_eq, ◌≡◌, Bool, true, false, Option, none, some, Text, ℤ, text_eq, subst, if◌then◌else◌,
  Option-cases, inl, inr,
}
use distributed_systems_chub.Exec.{
  throw, pure, Exec, ok, out_of_range, Result, fault, lift, gets, aborted, ◌>>=◌,
}
use distributed_systems_chub.Exec.Keeps.{
  Keeps-if, Keeps, Any, Keeps-bind, Keeps-read, Keeps-write, Keeps-pure, Keeps-throw,
}
use distributed_systems_chub.Dict.{get, put, get-put, get-put_cases}
use distributed_systems_chub.Store.{File, new_file, touch}
use distributed_systems_chub.Session.{Entry}
use distributed_systems_chub.Session
use distributed_systems_chub.StateMachine.State.{
  at, find_file, find_session, State, file_at, write_file, touch_file, write_session, assert,
}
use distributed_systems_chub.StateMachine.Files.{FileInv, Files, Kept}

module _ {Good : Text → Option File → Type 0} where
  put-Files :
      (s : State) (p : Text) (f : File)
      → Good p (some f)
      → Files Good s
      → Files Good (record s { ds = put s.ds p f })
  put-Files s p f g h = record { at = λ j. rw (get-put s.ds p j f) (split j (text_eq.dec p j)) }
    where
      split :
          (j : Text) (d : Dec (p ≡ j)) → Good j (if ite d true false then some f else get s.ds j)
      split j (yes e) = subst (λ q. Good q (some f)) e g
      split j (no n) = h.at j

-- The steps that change nothing, over any invariant.
module _ {P : State → Type 0} where
  pub Keeps-gets : {A : Type 0} (f : State → A) → Keeps P Any (gets f)
  unfolding gets
  Keeps-gets f = record { state = λ s h. h; result = λ s h. tt }

  pub Keeps-lift : {A : Type 0} (r : Result A) → Keeps P Any (lift r)
  unfolding lift pure throw
  Keeps-lift (ok a) = Keeps-pure a tt
  Keeps-lift (fault e) = Keeps-throw e

  pub Keeps-assert : (b : Bool) → Keeps P Any (assert b)
  unfolding assert
  Keeps-assert true = Keeps-pure tt tt
  Keeps-assert false = Keeps-throw aborted

  pub Keeps-find_session : (id : ℤ) → Keeps P Any (find_session id)
  unfolding find_session
  Keeps-find_session id = record { state = λ s h. h; result = λ s h. tt }

  pub Keeps-find_file : (p : Text) → Keeps P Any (find_file p)
  unfolding find_file
  Keeps-find_file p = record { state = λ s h. h; result = λ s h. tt }

  pub Keeps-file_at : (p : Text) → Keeps P Any (file_at p)
  unfolding file_at
  Keeps-file_at p = Keeps-read out_of_range (λ s. get s.ds p) (λ s f h e. tt)

  -- A step whose result is not needed.
  pub Keeps-then :
      {A B : Type 0} (m : Exec State A) (f : A → Exec State B)
      → Keeps P Any m
      → ((a : A) → Keeps P Any (f a))
      → Keeps P Any (m >>= f)
  Keeps-then m f km kf = Keeps-bind Any m f km (λ a _. kf a)

  -- A partial method of an entry, of whose answer the rest may use where it comes from.
  pub Keeps-with_at :
      {A B : Type 0} (o : Option A) (f : A → Exec State B)
      → ((a : A) → o ≡ some a → Keeps P Any (f a))
      → Keeps P Any (at o >>= f)
  unfolding at lift throw pure ◌>>=◌
  Keeps-with_at none f kf = Keeps-throw out_of_range
  Keeps-with_at (some a) f kf = record {
    state = λ s h. (kf a refl).state s h;
    result = λ s h. (kf a refl).result s h;
  }

  pub Keeps-return : {A : Type 0} (a : A) → Keeps P Any (pure a)
  Keeps-return a = Keeps-pure a tt

-- What is known of an entry that was looked up.
abbrev pub Looked : (ℤ → Entry → Type 0) → ℤ → Option Entry → Type 0
Looked Fine id none = Unit
Looked Fine id (some e) = Fine id e

pub option-Looked :
    (Fine : ℤ → Entry → Type 0) (id : ℤ) (o : Option Entry)
    → ((e : Entry) → o ≡ some e → Fine id e)
    → Looked Fine id o
option-Looked Fine id none k = tt
option-Looked Fine id (some e) k = k e refl

module _ {Good : Text → Option File → Type 0} {Fine : ℤ → Entry → Type 0} {next : ℤ} where
  pub Keeps-write_file :
      (p : Text) (f : File) → Good p (some f) → Keeps (Kept Good Fine next) Any (write_file p f)
  unfolding write_file
  Keeps-write_file p f g =
      Keeps-write tt _ tt λ s h. record {
        files = put-Files s p f g h.files;
        entries = h.entries;
        counter = h.counter;
      }

  pub Keeps-write_session :
      (id : ℤ) (e : Entry) → Fine id e → Keeps (Kept Good Fine next) Any (write_session id e)
  unfolding write_session Session.update_session Session.find_session
  Keeps-write_session id e fine = Keeps-write tt _ tt λ s h. record {
    files = record { at = h.files.at };
    entries = λ j f found. elim (get-put_cases s.sdb.session_db id j e f found) [
      | inl (q, r) ↦ subst (λ k. Fine k f) q (subst (Fine id) r fine)
      | inr before ↦ h.entries j f before
    ];
    counter = h.counter;
  }

  -- A step that reads a file, of which the rest may use that it is good.
  pub Keeps-with_file :
      {B : Type 0} (p : Text) (f : File → Exec State B)
      → ((a : File) → Good p (some a) → Keeps (Kept Good Fine next) Any (f a))
      → Keeps (Kept Good Fine next) Any (file_at p >>= f)
  unfolding file_at
  Keeps-with_file p f kf =
      Keeps-bind (λ a. Good p (some a)) (file_at p) f
        (Keeps-read out_of_range (λ s. get s.ds p) (λ s f h e. subst (Good p) e (h.files.at p))) kf

  -- A step that looks a session up, of which the rest may use that its entry is fine.
  pub Keeps-with_session :
      {B : Type 0} (id : ℤ) (f : Option Entry → Exec State B)
      → ((o : Option Entry) → Looked Fine id o → Keeps (Kept Good Fine next) Any (f o))
      → Keeps (Kept Good Fine next) Any (find_session id >>= f)
  unfolding find_session
  Keeps-with_session id f kf =
      Keeps-bind (Looked Fine id) (find_session id) f
        (record {
          state = λ s h. h;
          result = λ s h. option-Looked Fine id (Session.find_session s.sdb id) (h.entries id);
        })
        kf

module _ {Good : Text → Option File → Type 0} {Fine : ℤ → Entry → Type 0} {next : ℤ}
    (inv : FileInv Good) where
  pub Keeps-touch_file : (p : Text) → Keeps (Kept Good Fine next) Any (touch_file p)
  unfolding touch_file touch
  Keeps-touch_file p = Keeps-write tt _ tt λ s h. elim (Option-cases (get s.ds p)) [
    | inl e ↦
        rw (e, touch)
          (record {
            files = put-Files s p new_file (inv.fresh p (subst (Good p) e (h.files.at p))) h.files;
            entries = h.entries;
            counter = h.counter;
          })
    | inr (f, e) ↦ rw (e, touch) h
  ]

pub ruleset file_rules = (
  Keeps-return, Keeps-throw, Keeps-if, Keeps-then, Keeps-with_file, Keeps-with_session,
  Keeps-with_at, Keeps-write_file, Keeps-write_session, Keeps-gets, Keeps-lift, Keeps-assert,
  Keeps-find_session, Keeps-find_file, Keeps-file_at,
)
