-- ===== src/Client/Python.antt =====
-- pyclientlib.cpp: the Python class SkinnyClient. The interpreter's lock is no part of the model.
use distributed_systems_chub.Prelude.{Bool, true, false, Option, none, some, Text, ℤ, if◌then◌else◌}
use distributed_systems_chub.Exec.{pure, ◌>>=◌, ◌>>◌}
use distributed_systems_chub.Skinny.{Server}
use distributed_systems_chub.Client.Remote
use distributed_systems_chub.Client.Remote.{Remote}

-- The arguments of Open and OpenDir, of which all but the path have a default.
pub record OpenArgs : Type 0 where
  pub path : Text
  pub has_cb : Option Bool
  pub is_ephemeral : Option Bool

abbrev pub or_false : Option Bool → Bool
or_false none = false
or_false (some b) = b

-- The methods, with their arguments.
pub data Method : Type 0 where
  open_file open_dir : OpenArgs → Method
  close get_content release delete : ℤ → Method
  set_content : ℤ → Text → Method
  try_acquire acquire : ℤ → Bool → Method

-- What comes back to Python.
pub data Value : Type 0 where
  nothing : Value
  int : ℤ → Value
  bytes : Text → Value
  bool : Bool → Value

module _ (server : Server) where
  unfoldable pub py_open : OpenArgs → Remote ℤ
  py_open args =
      if or_false args.has_cb
      then Remote.open_file server args.path true (or_false args.is_ephemeral)
      else Remote.open_file server args.path false (or_false args.is_ephemeral)

  unfoldable pub py_open_dir : OpenArgs → Remote ℤ
  py_open_dir args =
      if or_false args.has_cb
      then Remote.open_dir server args.path true (or_false args.is_ephemeral)
      else Remote.open_dir server args.path false (or_false args.is_ephemeral)

  unfoldable pub py_call : Method → Remote Value
  unfolding py_open py_open_dir
  py_call (open_file args) = do fh ← py_open args; pure (int fh)
  py_call (open_dir args) = do fh ← py_open_dir args; pure (int fh)
  py_call (close fh) = do Remote.close server fh; pure nothing
  py_call (set_content fh content) = do Remote.set_content server fh content; pure nothing
  py_call (get_content fh) = do content ← Remote.get_content server fh; pure (bytes content)
  py_call (try_acquire fh ex) = do got ← Remote.try_acquire server fh ex; pure (bool got)
  py_call (acquire fh ex) = do got ← Remote.wait_acquire server fh ex; pure (bool got)
  py_call (release fh) = do Remote.release server fh; pure nothing
  py_call (delete fh) = do Remote.delete server fh; pure nothing
