-- ===== src/Demo/Elected/Turns.antt =====
-- demo/demo3.cpp: every call of a contender keeps the invariant.
use distributed_systems_chub.Skinny.AtOnce.{AtOnce}
use distributed_systems_chub.Skinny.{Server}
use distributed_systems_chub.Prelude.{
  eq_true, at_int, set-get_elem?, get_elem?-set_self, contains, sym, subst, ◌∙◌, ℕ, ◌≡◌, ◌≢◌, inl,
  inr, refl, ap, true, none, some, List, [], ◌∷◌, Text, text_eq, ℤ_eq, ℕ_eq, to_int, get_elem?, set,
}
use distributed_systems_chub.Dict.{get-put_self, put}
use distributed_systems_chub.Session.{Entry, handle_inum}
use distributed_systems_chub.Store.{FileMetaData, File}
use distributed_systems_chub.StateMachine.State.{State}
use distributed_systems_chub.StateMachine.LockReplies.{Taken, Handle}
use distributed_systems_chub.Client.Calls.{cached, remember}
use distributed_systems_chub.Skinny.Notified.{Known-Notified, with_subscribers}
use distributed_systems_chub.Skinny.ReadBack.{with_content}
use distributed_systems_chub.StateMachine.Kept.{SameHandles-refl}
use distributed_systems_chub.StateMachine.Instances.{same_key}
use distributed_systems_chub.Client.Answering.{set_content-at, try_acquire-at, get_content-at}
use distributed_systems_chub.Demo.{false, Bool, Outcome, ℤ, elected, beaten, follows}
use distributed_systems_chub.Demo.Elected.{
  ok, make_call, after_read, Contender, Phase, reading, trying, writing, over,
}
use distributed_systems_chub.Demo.Elected.Invariant.{
  Stage, contested, winning, decided, Fits, Holds, Inv, renewed, Holds-set,
}

-- A step of the contender `i` from `k`.
abbrev pub Steps : Server → Text → List Contender → ℕ → Contender → State → Type 0
Steps server key ks i k s =
    (k' : Contender) × (t : State) × (make_call server k k.phase s ≡ (ok k', t))
    × Inv key (set ks i k') t

owned : {ex : Bool} (id : ℤ) (before m : FileMetaData) → Taken ex id before m → m.lock_owners ≢ []
unfolding contains
owned id before m taken free =
    let e : true ≡ contains m.lock_owners id = rw (taken.owners id, eq_true {a = id} refl) refl in
    let n : contains m.lock_owners id ≡ false = rw free refl in cc

handle_inum-kept : (e e' : Entry) (fh : ℤ) → e'.inum ≡ e.inum → handle_inum e' fh ≡ handle_inum e fh
unfolding handle_inum
handle_inum-kept e e' fh p = ap (λ l. at_int l fh) p

module _ (server : Server) (once : AtOnce server) (leader : server.is_leader ≡ true) (key : Text)
    (ks : List Contender) (s : State) (v : Inv key ks s) (i : ℕ) (k : Contender)
    (at_i : get_elem? ks i ≡ some k) where
  -- Nothing but the contender's own client and phase changes.
  only_itself :
      (k' : Contender)
      → (k'.client.session_id ≡ k.client.session_id) × (k'.fh ≡ k.fh)
      → k.phase ≢ over elected
      → Fits v.stage v.file i k' k'.phase
      → Inv key (set ks i k') s
  only_itself k' same n self =
      renewed key ks i k k' s v.file v.stage at_i same v.there v.holds v.has
        (λ j l _ h. v.fits j l h) self (Holds-set v.stage s v.file ks i k k' at_i n v.at_stage)

  read-Fits :
      (stage : Stage) (content : Text) (k' : Contender)
      → v.file.content ≡ content
      → Holds stage s v.file ks
      → Fits stage v.file i k' (after_read content)
  read-Fits stage [] k' p h = tt
  read-Fits contested (c ∷ content) k' p h = let e = h.0 in cc
  read-Fits (winning w) (c ∷ content) k' p h = let e = h.0 in cc
  read-Fits (decided w) (c ∷ content) k' p h = (w, refl, p)

  read_step : k.phase ≡ reading → Steps server key ks i k s
  unfolding make_call remember
  read_step p =
      let (e, h, _) = v.has i k at_i in
      let uncached : cached k.client k.fh ≡ none =
        subst (Fits v.stage v.file i k) p (v.fits i k at_i) in
      let k' : Contender = record k {
        client = remember k.client k.fh v.file.content;
        phase = after_read v.file.content;
      } in
      (
        k',
        s,
        rw (p, get_content-at server k.client k.fh h leader uncached) refl,
        only_itself k' (refl, refl) (λ q. cc) (read-Fits v.stage v.file.content k' refl v.at_stage),
      )

  -- The lock was free, so nobody had won.
  free_contested :
      (stage : Stage) → v.file.lock_owners ≡ [] → Holds stage s v.file ks → stage ≡ contested
  free_contested contested free h = refl
  free_contested (winning w) free h = absurd (h.2 free)
  free_contested (decided w) free h = absurd (h.0 free)

  -- Nobody else has won, so what fits a contested election fits after the win too.
  winning-Fits :
      (file' : File) (j : ℕ) (l : Contender) (phase : Phase)
      → Fits contested v.file j l phase
      → Fits (winning i) file' j l phase
  winning-Fits file' j l reading h = h
  winning-Fits file' j l trying h = tt
  winning-Fits file' j l writing h = cc
  winning-Fits file' j l (over elected) h = let e = h.0 in cc
  winning-Fits file' j l (over beaten) h = tt
  winning-Fits file' j l (over (follows p)) h = let e = h.1 in cc

  win :
      (e : Entry) (m : FileMetaData)
      → Handle s (to_int k.client.session_id) k.fh e key v.file
      → v.file.lock_owners ≡ []
      → Taken true e.id v.file.meta m
      → Inv key
          (set ks i (record k { phase = writing }))
          (record s { ds = put s.ds key (record v.file { meta = m }) })
  win e m h free taken =
      let c = free_contested v.stage free v.at_stage in
      let before : Holds contested s v.file ks = subst (λ x. Holds x s v.file ks) c v.at_stage in
      let file' : File = record v.file { meta = m } in
      let t : State = record s { ds = put s.ds key file' } in
      renewed key ks i k (record k { phase = writing }) t file' (winning i) at_i (refl, refl)
        (taken.exists ∙ v.there) (get-put_self s.ds key file')
        (λ j l at_j.
          let (f, g, n) = v.has j l at_j in
          (
            f,
            record { live = g.live; names = g.names; holds = get-put_self s.ds key file' },
            n ∙ ap some (sym taken.instance_kept),
          ))
        (λ j l _ at_j.
          winning-Fits file' j l l.phase
            (subst (λ x. Fits x v.file j l l.phase) c (v.fits j l at_j)))
        refl
        (
          before.0,
          rw taken.subscribed (
              Known-Notified {s = s} {t = t} v.file.subscribers
                (record { at = (SameHandles-refl s).at }) before.1),
          owned e.id v.file.meta m taken,
        )

  try_step : k.phase ≡ trying → Steps server key ks i k s
  unfolding make_call
  try_step p =
      let (e, h, at_inum) = v.has i k at_i in
      elim (try_acquire-at server k.client k.fh h once at_inum v.there) [
        | inl (free, m, taken, ran) ↦ (_, _, rw (p, ran) refl, win e m h free taken)
        | inr (held, ran) ↦ (
          record k { phase = over beaten },
          s,
          rw (p, ran) refl,
          only_itself (record k { phase = over beaten }) (refl, refl) (λ q. cc) tt,
        )
      ]

  -- After the write nobody else can have won either.
  decided-Fits :
      (file' : File) (j : ℕ) (l : Contender) (phase : Phase)
      → j ≢ i
      → Fits (winning i) v.file j l phase
      → Fits (decided i) file' j l phase
  decided-Fits file' j l reading n h = h
  decided-Fits file' j l trying n h = tt
  decided-Fits file' j l writing n h = absurd (n (cc))
  decided-Fits file' j l (over elected) n h = let e = h.0 in cc
  decided-Fits file' j l (over beaten) n h = tt
  decided-Fits file' j l (over (follows p)) n h = let e = h.1 in cc

  write_step : k.phase ≡ writing → Steps server key ks i k s
  unfolding make_call
  write_step p =
      let (e, h, at_inum) = v.has i k at_i in
      let won : v.stage ≡ winning i = subst (Fits v.stage v.file i k) p (v.fits i k at_i) in
      let before : Holds (winning i) s v.file ks =
        subst (λ x. Holds x s v.file ks) won v.at_stage in
      let (t, ran, n) =
        set_content-at server k.client k.fh h k.hostname once at_inum v.there before.1 in
      let k' : Contender = record k { phase = over elected } in
      let (subscribers, found) =
        n.files key (with_content v.file k.hostname) (get-put_self s.ds key _) in
      let file' : File = with_subscribers (with_content v.file k.hostname) subscribers in
      (
        k',
        t,
        rw (p, ran) refl,
        renewed key ks i k k' t file' (decided i) at_i (refl, refl) v.there found
            (λ j l at_j.
              let (f, g, m) = v.has j l at_j in
              let (f', live, same_v, same_inum, _) =
                n.kept.at (to_int l.client.session_id) f g.live in
              (
                f',
                record { live = live; names = same_key f f' l.fh same_v ∙ g.names; holds = found },
                handle_inum-kept f f' l.fh same_inum ∙ m,
              ))
            (λ j l apart at_j.
              decided-Fits file' j l l.phase apart
                (subst (λ x. Fits x v.file j l l.phase) won (v.fits j l at_j)))
            (refl, refl) (before.2, k', get_elem?-set_self ks i k' k at_i, refl, refl),
      )

  over_step : (outcome : Outcome) → k.phase ≡ over outcome → Steps server key ks i k s
  unfolding make_call
  over_step outcome p = (k, s, rw p, subst (λ l. Inv key l s) (sym (set-get_elem? ks i k at_i)) v)

  step_of : (phase : Phase) → k.phase ≡ phase → Steps server key ks i k s
  step_of reading p = read_step p
  step_of trying p = try_step p
  step_of writing p = write_step p
  step_of (over outcome) p = over_step outcome p

  pub make_call-Inv : Steps server key ks i k s
  make_call-Inv = step_of k.phase refl
