-- ===== src/StateMachine/LockReplies.antt =====
-- What the lock handlers answer and change, on every branch that a live session reaches.
use distributed_systems_chub.Prelude.{
  erase, Bool-cases, ◌∙◌, ◌≡◌, ◌≢◌, refl, Bool, true, false, ◌||◌, ◌⊎◌, inl, inr, some, List, [],
  ◌∷◌, Text, ℤ, ℤ_eq, text_eq, pos, negsuc, int_succ, minus_one, arith, contains, contains-insert,
  contains-erase, to_bool, to_int, ◌==◌, if◌then◌else◌, is_empty,
}
use distributed_systems_chub.Exec.{ok}
use distributed_systems_chub.Dict.{get, put}
use distributed_systems_chub.Store.{File, FileMetaData, notified}
use distributed_systems_chub.Session.{Entry, fh_to_key}
use distributed_systems_chub.Session
use distributed_systems_chub.Action.{AcqAction}
use distributed_systems_chub.StateMachine.State.{State, find_session}
use distributed_systems_chub.StateMachine.Locks.{
  release_session, acquire_session, acquire, acquired, not_acquired, acquire_file, take_exclusive,
  take_shared, release_lock,
}

-- The session with the number `id` is live, and its handle `fh` names `key`, at which `file` stands.
pub record Handle (s : State) (id fh : ℤ) (e : Entry) (key : Text) (file : File) : Type 0 where
  pub live : Session.find_session s.sdb id ≡ some e
  pub names : fh_to_key e fh ≡ some key
  pub holds : get s.ds key ≡ some file

-- The lock can be had: it has no owner, or it is shared and asked for in the shared mode.
abbrev pub IsFree : Bool → FileMetaData → Type 0
IsFree ex m = (m.lock_owners ≡ []) ⊎ ((ex ≡ false) × (m.is_locked_ex ≡ false))

-- `after` is `before` with one owner more, in the mode that was asked for.
pub record Taken (ex : Bool) (id : ℤ) (before after : FileMetaData) : Type 0 where
  pub owners : (x : ℤ) → contains after.lock_owners x ≡ (id == x || contains before.lock_owners x)
  pub mode : after.is_locked_ex ≡ ex
  pub exists : after.file_exists ≡ before.file_exists
  pub subscribed : after.subscribers ≡ before.subscribers
  pub instance_kept : after.instance_num ≡ before.instance_num
  pub content_kept : after.content_gen_num ≡ before.content_gen_num
  pub kind_kept : after.is_directory ≡ before.is_directory
  pub ephemeral_kept : after.is_ephemeral ≡ before.is_ephemeral
  pub cv_kept : after.cv ≡ before.cv
  -- the first owner counts a new generation
  pub generation :
      after.lock_gen_num
      ≡ (if is_empty before.lock_owners then int_succ before.lock_gen_num else before.lock_gen_num)

abbrev pub took : Bool → ℤ → FileMetaData → FileMetaData
took true = take_exclusive
took false = take_shared

take_exclusive-Taken :
    (id : ℤ) (m : FileMetaData) → m.lock_owners ≡ [] → Taken true id m (take_exclusive id m)
unfolding take_exclusive
take_exclusive-Taken id m h = record {
  owners = λ x. contains-insert id x m.lock_owners;
  mode = refl;
  exists = refl;
  subscribed = refl;
  instance_kept = refl;
  content_kept = refl;
  kind_kept = refl;
  ephemeral_kept = refl;
  cv_kept = refl;
  generation = rw h;
}

take_shared-Taken :
    (id : ℤ) (m : FileMetaData) → IsFree false m → Taken false id m (take_shared id m)
unfolding take_shared
take_shared-Taken id m h = record {
  owners = λ x. contains-insert id x m.lock_owners;
  mode = ground arith;
  exists = refl;
  subscribed = refl;
  instance_kept = refl;
  content_kept = refl;
  kind_kept = refl;
  ephemeral_kept = refl;
  cv_kept = refl;
  generation = refl;
}

is_empty-cases :
    (owners : List ℤ)
    → ((owners ≡ []) × (is_empty owners ≡ true)) ⊎ ((owners ≢ []) × (is_empty owners ≡ false))
is_empty-cases [] = inl (refl, refl)
is_empty-cases (x ∷ owners) = inr (λ e. cc, refl)

acquire_file-cases :
    (ex : Bool) (key : Text) (id : ℤ) (file : File) (s : State)
    → (IsFree ex file.meta
        × (acquire_file ex key id file s ≡ (
          ok acquired,
          record s { ds = put s.ds key (record file { meta = took ex id file.meta }) },
        )))
      ⊎ ((¬ IsFree ex file.meta) × (acquire_file ex key id file s ≡ (ok not_acquired, s)))
unfolding acquire_file find_session
acquire_file-cases true key id file s = elim (is_empty-cases file.lock_owners) [
  | inl (e, t) ↦ inl (inl e, rw t)
  | inr (n, t) ↦ inr (elim [ inl e ↦ n e | inr (e, _) ↦ cc ], rw t)
]
acquire_file-cases false key id file s = elim (is_empty-cases file.lock_owners) [
  | inl (e, t) ↦ inl (inl e, rw t)
  | inr (n, t) ↦ elim (Bool-cases file.is_locked_ex) [
    | inl ex ↦ inr (elim [ inl e ↦ n e | inr (_, e) ↦ cc ], rw (t, ex))
    | inr sh ↦ inl (inr (refl, sh), rw (t, sh))
  ]
]

-- A lock that is free is taken as it is asked for.
took-Taken : (ex : Bool) (id : ℤ) (m : FileMetaData) → IsFree ex m → Taken ex id m (took ex id m)
took-Taken true id m (inl e) = take_exclusive-Taken id m e
took-Taken true id m (inr (e, _)) = cc
took-Taken false id m h = take_shared-Taken id m h

acquire-at :
    {s : State} {e : Entry} {key : Text} {file : File} (a : AcqAction)
    → Handle s (to_int a.session_id) a.fh e key file
    → acquire a s ≡ acquire_file (to_bool a.ex) key e.id file s
unfolding acquire find_session
acquire-at a h = rw (h.live, acquire_session, h.names, h.holds)

-- The answers to a request for a lock, and what they go with.
abbrev pub AcquireOutcome : AcqAction → State → Entry → Text → File → Type 0
AcquireOutcome a s e key file =
    (IsFree (to_bool a.ex) file.meta
      × (m : FileMetaData) × Taken (to_bool a.ex) e.id file.meta m
      × (acquire a s ≡ (ok acquired, record s { ds = put s.ds key (record file { meta = m }) })))
    ⊎ ((¬ IsFree (to_bool a.ex) file.meta) × (acquire a s ≡ (ok not_acquired, s)))

-- For a live session with a handle whose file the store holds, the lock is taken exactly when it
-- has no owner or is shared and asked for in the shared mode: then the session joins the owners,
-- the mode is the one asked for, and whether the file exists, its subscribers, its instance and
-- its content stay. Otherwise the reply is 1 and nothing changes.
pub acquire_outcome :
    {s : State} {e : Entry} {key : Text} {file : File} (a : AcqAction)
    → Handle s (to_int a.session_id) a.fh e key file
    → AcquireOutcome a s e key file
acquire_outcome {s} {e} {key} {file} a h =
    elim (acquire_file-cases (to_bool a.ex) key e.id file s) [
      | inl (free, r) ↦
          inl
            (free, took (to_bool a.ex) e.id file.meta, took-Taken _ e.id _ free, acquire-at a h ∙ r)
      | inr (taken, r) ↦ inr (taken, acquire-at a h ∙ r)
    ]

-- The answers to a release, and what they go with.
abbrev pub ReleaseOutcome : ℤ → ℤ → State → Text → File → Type 0
ReleaseOutcome id fh s key file =
    ((file.file_exists ≡ false) × (release_lock id fh s ≡ (ok (negsuc 1), s)))
    ⊎ ((file.file_exists ≡ true)
        × (owners : List ℤ) × ((x : ℤ)
            → contains owners x ≡ (if id == x then false else contains file.lock_owners x))
        × (release_lock id fh s ≡ (
          ok (if contains file.lock_owners id then pos 0 else minus_one),
          record s {
            ds = put s.ds key (record file {
              meta = record file.meta {
                lock_owners = owners;
                cv = notified (is_empty owners) file.cv;
              };
            });
          },
        )))

-- Releasing a lock, through a handle of a live session: where the file does not exist the answer is
-- -2 and nothing changes, not even the owners; otherwise the session is no owner any more, the
-- other owners stay, and the answer is 0 if it was an owner and -1 if not.
pub release_lock_outcome :
    {s : State} {e : Entry} {key : Text} {file : File} (id fh : ℤ)
    → Handle s id fh e key file
    → ReleaseOutcome id fh s key file
unfolding release_lock find_session
release_lock_outcome {s} {e} {key} {file} id fh h = elim (Bool-cases file.file_exists) [
  | inl there ↦ inr (
    there,
    erase id file.lock_owners,
    λ x. contains-erase id x file.lock_owners,
    rw (h.live, release_session, h.names, h.holds, there),
  )
  | inr gone ↦ inl (gone, rw (h.live, release_session, h.names, h.holds, gone))
]
