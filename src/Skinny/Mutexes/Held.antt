-- ===== src/Skinny/Mutexes/Held.antt =====
-- A call that holds the mutex for which the first entry of the log waits, as Skinny/Mutexes has them:
-- it goes on to hold it.
use mathlib.Core.List.{append_assoc, append-nil}
use distributed_systems_chub.Prelude.{
  ℕ, ℕ_eq, ◌≡◌, inl, inr, refl, sym, ap, subst, ◌∙◌, true, none, some, List, [], ◌∷◌, ◌++◌, Text,
  text_eq, ℤ_eq, contains, arith,
}
use distributed_systems_chub.Dict.{Dict, get, put, remove, get-put_other, get-remove}
use distributed_systems_chub.Action.{Action}
use distributed_systems_chub.Skinny.Mutexes.{
  Threads, Waits, AllFree, Step, append, lock, append_under, applied, unlock, Reach, here, next,
  locks,
}

-- The first entry needs the mutex of the file, which a call holds whose own entry stands behind it.
pub record IsBlocked (w : Threads) (call : ℕ) (key : Text) : Type 0 where
  pub first : ℕ
  pub action : Action
  pub rest : List (ℕ × Action)
  pub pending : w.pending ≡ (first, action) ∷ rest
  pub needs : contains (locks action w.state) key ≡ true
  pub waits : Waits call rest
  pub holds : get w.held key ≡ some call

Waits-append :
    (call : ℕ) (pending more : List (ℕ × Action))
    → Waits call pending
    → Waits call (pending ++ more)
Waits-append call [] more h = absurd h
Waits-append call ((c, a) ∷ pending) more (inl p) = inl p
Waits-append call ((c, a) ∷ pending) more (inr h) = inr (Waits-append call pending more h)

AllFree-held :
    (held : Dict Text ℕ) (keys : List Text) (key : Text) (call : ℕ)
    → contains keys key ≡ true
    → get held key ≡ some call
    → AllFree held keys
    → ⊥
unfolding contains
AllFree-held held [] key call h k free = cc
AllFree-held held (x ∷ keys) key call h k (none_held, free) = elim (text_eq.dec x key) [
  | yes p ↦ let e : get held key ≡ none = rw (← p) none_held in cc
  | no n ↦ AllFree-held held keys key call (ground (arith, h)) k free
]

-- The state is the old one, and no entry has left the log.
abbrev Stands : Threads → Threads → Type 0
Stands w v = (v.state ≡ w.state) × (more : List (ℕ × Action)) × (v.pending ≡ w.pending ++ more)

-- What each step leaves.
abbrev StillBlocked : Threads → ℕ → Text → Threads → Type 0
StillBlocked w call key v = IsBlocked v call key × Stands w v

-- Nothing is appended, and the mutex stays with the call.
same_log :
    {w : Threads} {call : ℕ} {key : Text} (held : Dict Text ℕ)
    → IsBlocked w call key
    → get held key ≡ some call
    → StillBlocked w call key (record w { held = held })
same_log {w} held b mine = (
  record {
    first = b.first;
    action = b.action;
    rest = b.rest;
    pending = b.pending;
    needs = b.needs;
    waits = b.waits;
    holds = mine;
  },
  (refl, [], sym (append-nil w.pending)),
)

-- More is appended, and the mutex stays with the call.
longer :
    {w : Threads} {call : ℕ} {key : Text} (entry : ℕ × Action)
    → IsBlocked w call key
    → StillBlocked w call key (record w { pending = w.pending ++ entry ∷ [] })
longer {w} {call} entry b = (
  record {
    first = b.first;
    action = b.action;
    rest = b.rest ++ entry ∷ [];
    pending = ap (λ l. l ++ entry ∷ []) b.pending;
    needs = b.needs;
    waits = Waits-append call b.rest (entry ∷ []) b.waits;
    holds = b.holds;
  },
  (refl, entry ∷ [], refl),
)

other_mutex :
    {call : ℕ} (held : Dict Text ℕ) (key : Text) (c : ℕ) (k : Text)
    → get held key ≡ some call
    → get held k ≡ none
    → get (put held k c) key ≡ some call
other_mutex held key c k mine free =
    get-put_other held k key c (λ p. let e : get held key ≡ none = rw (← p) free in cc) ∙ mine

kept_mutex :
    {call : ℕ} {key : Text} (w : Threads) (c : ℕ) (k : Text)
    → IsBlocked w call key
    → get w.held k ≡ some c
    → ¬ Waits c w.pending
    → get (remove w.held k) key ≡ some call
kept_mutex {call} {key} w c k b theirs done = elim (text_eq.dec k key) [
  | yes p ↦
      let same : some c ≡ some call = sym theirs ∙ rw p b.holds in
      let e : c ≡ call = cc in
      absurd (done (subst (λ x. Waits x w.pending) (sym e) (rw b.pending (inr b.waits))))
  | no n ↦ get-remove w.held k key ∙ ground (arith, b.holds)
]

Step-IsBlocked :
    {w v : Threads} {call : ℕ} {key : Text}
    → Step w v
    → IsBlocked w call key
    → StillBlocked w call key v
Step-IsBlocked (append w c a _) b = longer (c, a) b
Step-IsBlocked {key} (lock w c _ _ _ k _ _ free) b =
    same_log (put w.held k c) b (other_mutex w.held key c k b.holds free)
Step-IsBlocked (append_under w c a k _ _) b = longer (c, a) b
Step-IsBlocked {call} {key} (applied w c a rest p free) b =
    let e : a ≡ b.action = cc in
    absurd (AllFree-held w.held (locks a w.state) key call (rw e b.needs) b.holds free)
Step-IsBlocked (unlock w c k theirs done) b =
    same_log (remove w.held k) b (kept_mutex w c k b theirs done)

pub Reach-IsBlocked :
    {w v : Threads} {call : ℕ} {key : Text}
    → IsBlocked w call key
    → Reach w v
    → StillBlocked w call key v
Reach-IsBlocked {w} b here = (b, (refl, [], sym (append-nil w.pending)))
Reach-IsBlocked {w} b (next r st) =
    let (b', (same, more, p)) = Reach-IsBlocked b r in
    let (b'', (same', more', p')) = Step-IsBlocked st b' in
    (
      b'',
      (
        same' ∙ same,
        more ++ more',
        p' ∙ ap (λ l. l ++ more') p ∙ append_assoc w.pending more more',
      ),
    )
