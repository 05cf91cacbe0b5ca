-- ===== src/Demo.antt =====
-- demo/demo2.cpp and demo/demo3.cpp: the members of a service, and the election of a primary.
pub mod Elected
pub mod Alone
use distributed_systems_chub.Prelude.{
  ℕ, Bool, true, false, List, [], ◌∷◌, ◌++◌, Text, codes, ℤ, ℕ_eq, map, is_empty, ◌==◌,
  if◌then◌else◌,
}
use distributed_systems_chub.Exec.{Exec, pure, ◌>>=◌, ◌>>◌}
use distributed_systems_chub.Skinny.{Server}
use distributed_systems_chub.Client.Remote
use distributed_systems_chub.Client.Remote.{Remote}

-- demo2.cpp, what the callback prints of the directory: each zero byte is the end of a line.
unfoldable pub membership : Text → Text
membership content = map (λ c. if c == 0 then 10 else c) content

-- The end of an election, as one contender sees it.
pub data Outcome : Type 0 where
  -- it has the lock, and has written its name
  elected : Outcome
  -- another contender has the lock
  beaten : Outcome
  -- the primary's name was there already
  follows : Text → Outcome

module _ (server : Server) where
  -- demo2.cpp, main: the directory is watched, and this host is a member until its session ends.
  unfoldable pub join_service : Text → Remote ℤ
  join_service hostname = do
    fh ← Remote.open_dir server (codes "/service") true false
    Remote.open_file server (codes "/service/" ++ hostname) false true
    pure fh

  -- demo3.cpp, main, after the file is open
  unfoldable pub stand_for : ℤ → Text → Bool → Remote Outcome
  stand_for fh hostname acq_success =
      if acq_success then (do Remote.set_content server fh hostname; pure elected) else pure beaten

  unfoldable pub contend : ℤ → Text → Text → Remote Outcome
  unfolding stand_for
  contend fh hostname primary =
      if is_empty primary
      then (do acq_success ← Remote.try_acquire server fh true; stand_for fh hostname acq_success)
      else pure (follows primary)

  -- demo3.cpp, main
  unfoldable pub run_election : Text → Remote Outcome
  unfolding contend
  run_election hostname = do
    fh ← Remote.open_file server (codes "/primary") true false
    primary ← Remote.get_content server fh
    contend fh hostname primary
