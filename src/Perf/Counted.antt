-- ===== src/Perf/Counted.antt =====
-- perf/perf_client.cpp, the start of a measurement: what the nodes count in the directory of the
-- clients.
use distributed_systems_chub.Prelude.{
  ◌+◌, ◌≡◌, ◌≢◌, ◌∙◌, refl, ap, true, false, none, some, List, [], ◌∷◌, ◌++◌, Text, text_eq, ℕ_eq,
  ℤ, pos, to_int, length, contains, arith,
}
use distributed_systems_chub.Exec.{ok}
use distributed_systems_chub.FilePath.{filename, parent_path, is_root}
use distributed_systems_chub.Directory.{add_entry}
use distributed_systems_chub.Directory.Entries.{render, AllNamed}
use distributed_systems_chub.Store.{File}
use distributed_systems_chub.Session.{Entry}
use distributed_systems_chub.Session
use distributed_systems_chub.StateMachine.State.{State}
use distributed_systems_chub.StateMachine.LockReplies.{Handle}
use distributed_systems_chub.StateMachine.Opening.{Found}
use distributed_systems_chub.Skinny.{Server}
use distributed_systems_chub.Skinny.AtOnce.{AtOnce}
use distributed_systems_chub.Skinny.Notified.{Known}
use distributed_systems_chub.Skinny.Opened.{rpc_open-add_entry}
use distributed_systems_chub.Client.{Client, invoke_rpc}
use distributed_systems_chub.Client.Calls.{client_open, cached, remember}
use distributed_systems_chub.Client.Answering.{get_content-at}
use distributed_systems_chub.Client.Remote.{open_file, get_content, open_request}
use distributed_systems_chub.Perf.{file_count}

pub file_count-append : (xs ys : Text) → file_count (xs ++ ys) ≡ file_count xs + file_count ys
unfolding file_count
file_count-append [] ys = omega arith
file_count-append (c ∷ xs) ys = omega (arith, file_count-append xs ys)

pub file_count_name : (name : Text) → contains name 0 ≡ false → file_count name ≡ 0
unfolding file_count contains
file_count_name [] h = refl
file_count_name (c ∷ name) h = ground (arith, file_count_name name)

file_count-add_entry :
    (content name : Text)
    → contains name 0 ≡ false
    → file_count (add_entry content name) ≡ file_count content + 1
unfolding add_entry file_count
file_count-add_entry content name h =
    file_count-append content (0 ∷ name) ∙ ground (arith, file_count_name name h)

-- The count is the number of the directory's entries.
pub file_count-render :
    (names : List Text) → AllNamed names → file_count (render names) ≡ length names
unfolding file_count
file_count-render [] h = refl
file_count-render (name ∷ names) h = ground (
  arith,
  file_count-append name (render names),
  file_count_name name h.0,
  file_count-render names h.1,
)

-- A node that enters itself as a new file raises by one what every node counts, which has the
-- directory open and does not have its content in the cache: on a leader whose log answers at
-- once, if the directory's subscribers have handles that their sessions know, both the call that
-- opens the file and the read return.
pub open_file-counted :
    {s : State} {e f : Entry} {file parent : File} (server : Server) (node reader : Client)
    (path : Text) (dirfh : ℤ)
    → AtOnce server
    → server.is_leader ≡ true
    → Session.find_session s.sdb (to_int node.session_id) ≡ some e
    → Found s.ds path file
    → file.file_exists ≡ false
    → is_root path ≡ false
    → parent_path path ≢ path
    → contains (filename path) 0 ≡ false
    → Handle s (to_int reader.session_id) dirfh f (parent_path path) parent
    → parent.is_directory ≡ true
    → Known s parent.subscribers
    → cached reader dirfh ≡ none
    → (t : State) × (content : Text) × (open_file server path false false (node, s)
        ≡ (ok (pos (length e.v)), (node, t)))
      × (get_content server dirfh (reader, t) ≡ (ok content, (remember reader dirfh content, t)))
      × (file_count content ≡ file_count parent.content + 1)
unfolding open_file client_open invoke_rpc
open_file-counted {s} {e} {f} {file} {parent} server node reader path dirfh once leader live found
      new root below named h dir known uncached =
    let (t, g, after, ran, k, same) =
      rpc_open-add_entry {s = s} {file = file} server (open_request node path false false)
        (to_int reader.session_id) dirfh once live found new root below h dir known in
    (
      t,
      after.content,
      rw ran refl,
      get_content-at server reader dirfh k leader uncached,
      ap file_count same ∙ file_count-add_entry parent.content (filename path) named,
    )
