-- ===== src/StateMachine/Sessions.antt =====
-- The sessions of the state machine (StateMachine.cpp, Session.cpp): their numbers, and what their
-- handles name.

pub mod Touched
pub mod Runs
pub mod Resolved
pub mod Answers
use distributed_systems_chub.Prelude.{
  ℕ, ◌<◌, ◌≡◌, ◌∙◌, ap, arith, inl, inr, Option, none, some, Text, ℤ, ℤ_eq, pos, text_eq, length,
  get_elem?, length-append, sym, get_elem?-append_one, length-set_int, minus_one, subst, ◌∷◌, [],
}
use distributed_systems_chub.Dict.{get}
use distributed_systems_chub.Store.{File}
use distributed_systems_chub.Session.{Entry, add_new_handle, close_handle, enqueue_event}
use distributed_systems_chub.Session
use distributed_systems_chub.StateMachine.State.{State}
use distributed_systems_chub.StateMachine.Kept.{enqueue_event-handles}
use distributed_systems_chub.StateMachine.Files.{FileInv, EntryInv}

-- The entry under `id`, in a database that has given out the numbers under `m` to its sessions, where
-- `Present` holds of the paths in the store.
pub record IsAligned (Present : Text → Type 0) (m : ℕ) (id : ℤ) (e : Entry) : Type 0 where
  pub number : e.id ≡ id
  pub old : (n : ℕ) × (id ≡ pos n) × (n < m)
  pub numbered : length e.inum ≡ length e.v
  pub named : (i : ℕ) (key : Text) → get_elem? e.v i ≡ some key → Present key

abbrev pub InStore : State → Text → Type 0
InStore s p = (f : File) × (get s.ds p ≡ some f)

pub record SessionsOk (m : ℕ) (s : State) : Type 0 where
  pub counter : s.sdb.next_id ≡ pos m
  pub entry :
      (id : ℤ) (e : Entry) → Session.find_session s.sdb id ≡ some e → IsAligned (InStore s) m id e

-- A file that is there stays.
abbrev Stays : (Text → Type 0) → Text → Option File → Type 0
Stays Present p none = ¬ Present p
Stays Present p (some f) = Unit {0}

same-IsAligned :
    {Present : Text → Type 0} {m : ℕ} {id : ℤ} (e e' : Entry)
    → (e'.id ≡ e.id) × (e'.v ≡ e.v) × (length e'.inum ≡ length e.inum)
    → IsAligned Present m id e
    → IsAligned Present m id e'
same-IsAligned e e' (number, paths, size) h = record {
  number = number ∙ h.number;
  old = h.old;
  numbered = size ∙ h.numbered ∙ ap length (sym paths);
  named = λ i key found. h.named i key (rw (sym paths) found);
}

close_handle-same :
    (e after : Entry) (fh : ℤ)
    → close_handle e fh ≡ some after
    → (after.id ≡ e.id) × (after.v ≡ e.v) × (length after.inum ≡ length e.inum)
unfolding close_handle
close_handle-same e after fh h = ground (arith, length-set_int e.inum fh minus_one)

module _ {Present : Text → Type 0} where
  Stays-inv : FileInv (Stays Present)
  Stays-inv = record {
    fresh = λ p h. tt;
    opened = λ a p f h. tt;
    subscribed = λ id fh p f h. tt;
    written = λ content p f h. tt;
    taken_exclusive = λ id p f free h. tt;
    taken_shared = λ id p f free h. tt;
    released = λ id p f h. tt;
    unsubscribed = λ id p f h. tt;
    vanished = λ p f h. tt;
    deleted = λ p f h. tt;
    unlocked = λ p f h. tt;
  }

  IsAligned-inv : (m : ℕ) → EntryInv (IsAligned Present m)
  IsAligned-inv m = record {
    closed = λ id fh e after h. same-IsAligned e after (close_handle-same e after fh h);
    enqueued = λ id fh e.
        let (v, inum, number) = enqueue_event-handles e fh in
        same-IsAligned e (enqueue_event e fh).0 (number, v, ap length inum);
  }

  IsAligned-added :
      (m : ℕ) (path : Text) (id inum : ℤ) (e : Entry)
      → Present path
      → IsAligned Present m id e
      → IsAligned Present m id (add_new_handle e path inum).0
  unfolding add_new_handle
  IsAligned-added m path id inum e there h = record {
    number = h.number;
    old = h.old;
    numbered =
        omega (arith, length-append e.inum (inum ∷ []), length-append e.v (path ∷ []), h.numbered);
    named = λ i key found. elim (get_elem?-append_one e.v path key i found) [
      | inl before ↦ h.named i key before
      | inr q ↦ subst Present q there
    ];
  }
