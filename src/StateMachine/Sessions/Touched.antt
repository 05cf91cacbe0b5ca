-- ===== src/StateMachine/Sessions/Touched.antt =====
-- The sessions after ds_->operator[] of StateMachine.cpp's handler that opens a file.
use distributed_systems_chub.Prelude.{
  ℕ, ◌≤◌, ◌≡◌, ◌∙◌, inl, inr, arith, none, some, Option-cases, Text, ℤ, ℤ_eq, text_eq,
}
use distributed_systems_chub.Dict.{get, put, get-put_self, get-put_other}
use distributed_systems_chub.Store.{File, touch, new_file}
use distributed_systems_chub.Session.{Entry}
use distributed_systems_chub.StateMachine.State.{State}
use distributed_systems_chub.StateMachine.Sessions.{IsAligned, InStore, SessionsOk}

pub map-IsAligned :
    {P Q : Text → Type 0} {m k : ℕ} (id : ℤ) (e : Entry)
    → ((p : Text) → P p → Q p)
    → m ≤ k
    → IsAligned P m id e
    → IsAligned Q k id e
map-IsAligned id e f le h =
    let (n, is, lt) = h.old in
    record {
      number = h.number;
      old = (n, is, omega arith);
      numbered = h.numbered;
      named = λ i key found. f key (h.named i key found);
    }

touch_missing : (s : State) (p : Text) → get s.ds p ≡ none → touch s.ds p ≡ put s.ds p new_file
unfolding touch
touch_missing s p e = rw (touch, e)

touch_present : (s : State) (p : Text) (f : File) → get s.ds p ≡ some f → touch s.ds p ≡ s.ds
unfolding touch
touch_present s p f e = rw (touch, e)

-- ds_->operator[](path), as a state.
abbrev pub touched : State → Text → State
touched s p = record s { ds = touch s.ds p }

pub touched-InStore : (s : State) (p : Text) → InStore (touched s p) p
touched-InStore s p = elim (Option-cases (get s.ds p)) [
  | inl e ↦ (new_file, rw (touch_missing s p e) (get-put_self s.ds p new_file))
  | inr (f, e) ↦ (f, rw (touch_present s p f e) e)
]

pub touched_before : (s : State) (p q : Text) → InStore s q → InStore (touched s p) q
touched_before s p q (g, there) = elim (Option-cases (get s.ds p)) [
  | inl e ↦ elim (text_eq.dec p q) [
    | yes same ↦ cc
    | no n ↦ (g, rw (touch_missing s p e) (get-put_other s.ds p q new_file n ∙ there))
  ]
  | inr (f, e) ↦ (g, rw (touch_present s p f e) there)
]

pub touch_twice : (s : State) (p : Text) → touch (touch s.ds p) p ≡ touch s.ds p
touch_twice s p = let (f, there) = touched-InStore s p in touch_present (touched s p) p f there

pub touched-SessionsOk :
    (m : ℕ) (s : State) (p : Text) → SessionsOk m s → SessionsOk m (touched s p)
touched-SessionsOk m s p h = record {
  counter = h.counter;
  entry = λ id e found. map-IsAligned id e (touched_before s p) (omega arith) (h.entry id e found);
}
