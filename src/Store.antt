-- ===== src/Store.antt =====
-- utils.h: the file store, a map from paths to a file's metadata and content.
use distributed_systems_chub.Prelude.{
  ℕ, ◌+◌, Bool, true, false, none, some, List, [], Text, text_eq, ℤ, pos, codes,
}
use distributed_systems_chub.Dict.{Dict, get, put}

-- The mutex is not part of the state: see Skinny/Mutexes for who holds it. `cv` counts how often all
-- waiters of the condition variable were notified: see Skinny/Locks for who waits.
-- `is_locked_ex` and `is_ephemeral`, which the constructor leaves indeterminate, are false here;
-- both are written before they are first read.
pub record FileMetaData : Type 0 where
  pub lock_owners : List ℤ
  pub is_locked_ex : Bool
  pub subscribers : Dict ℤ ℤ
  pub file_exists : Bool
  pub instance_num : ℤ
  pub content_gen_num : ℤ
  pub lock_gen_num : ℤ
  pub is_directory : Bool
  pub is_ephemeral : Bool
  pub cv : ℕ

abbrev pub new_meta : FileMetaData
new_meta = record {
  lock_owners = [];
  is_locked_ex = false;
  subscribers = [];
  file_exists = false;
  instance_num = pos 0;
  content_gen_num = pos 0;
  lock_gen_num = pos 0;
  is_directory = false;
  is_ephemeral = false;
  cv = 0;
}

-- meta.cv.notify_all(), where the test says so.
unfoldable pub notified : Bool → ℕ → ℕ
notified true cv = cv + 1
notified false cv = cv

-- std::pair<FileMetaData, std::string>
pub record File : Type 0 where
  pub meta : FileMetaData
  pub open meta use *
  pub content : Text

abbrev pub new_file : File
new_file = record { meta = new_meta; content = [] }

abbrev pub DataStore : Type 0
DataStore = Dict Text File

-- ds->operator[](path): a missing file is created.
unfoldable pub touch : DataStore → Text → DataStore
touch ds path = elim (get ds path) [ none ↦ put ds path new_file | some f ↦ ds ]

abbrev pub session_not_found : Text
session_not_found = codes "Session Not Found"
