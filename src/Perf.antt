-- ===== src/Perf.antt =====
-- perf/perf_client.cpp: the measurement of many clients on several nodes. Its clocks and its draws of
-- random numbers are inputs.
pub mod Counted
use distributed_systems_chub.Prelude.{
  ℕ, zero, suc, ◌+◌, Bool, true, false, Option, none, some, List, [], ◌∷◌, ◌++◌, Text, codes, ℤ,
  pos, ℕ_eq, length, get_elem?, ◌==◌, if◌then◌else◌,
}
use distributed_systems_chub.Decimal.{to_string}
use distributed_systems_chub.Exec.{
  Exec, out_of_range, waiting, some_or, pure, throw, lift, ◌>>=◌, ◌>>◌,
}
use distributed_systems_chub.Skinny.{Server}
use distributed_systems_chub.Client.Remote
use distributed_systems_chub.Client.Remote.{Remote}

abbrev pub num_file : ℕ
num_file = 10

abbrev pub dirname : Text
dirname = codes "/perf"

abbrev pub clientdir : Text
clientdir = dirname ++ codes "/client"

abbrev pub filename_prefix : Text
filename_prefix = codes "/file"

-- The number of zero bytes, of which each entry of a directory has one.
unfoldable pub file_count : Text → ℕ
file_count [] = 0
file_count (c ∷ content) = (if c == 0 then 1 else 0) + file_count content

-- One round of a thread: whether the clock has passed the deadline, whether the draw is for a
-- write, the text that is then written, and the file that is drawn.
pub record Draw : Type 0 where
  pub late : Bool
  pub is_write : Bool
  pub content : Text
  pub file : ℕ

-- The operations of a thread.
pub record Ops : Type 0 where
  pub read_ops : ℕ
  pub write_ops : ℕ

module _ (server : Server) where
  -- fh[i] = sc.Open(...), from the file `i` on.
  unfoldable pub open_files : ℕ → ℕ → Remote (List ℤ)
  open_files zero i = pure []
  open_files (suc n) i = do
    fh ← Remote.open_file server (dirname ++ filename_prefix ++ to_string (pos i)) false false
    fhs ← open_files n (i + 1)
    pure (fh ∷ fhs)

  -- fh[i] lies within the array for every draw of the program.
  unfoldable pub handle_at : List ℤ → ℕ → Remote ℤ
  handle_at fhs i = lift (some_or out_of_range (get_elem? fhs i))

  unfoldable pub work : List ℤ → Draw → Ops → Remote Ops
  unfolding handle_at
  work fhs draw ops =
      if draw.is_write
      then (do
        fh ← handle_at fhs draw.file
        Remote.set_content server fh draw.content
        pure (record ops { write_ops = ops.write_ops + 1 }))
      else (do
        fh ← handle_at fhs draw.file
        Remote.get_content server fh
        pure (record ops { read_ops = ops.read_ops + 1 }))

  -- The loop of a thread, with the rounds that are looked at.
  unfoldable pub work_until : List ℤ → List Draw → Ops → Remote Ops
  unfolding work
  work_until fhs [] ops = throw waiting
  work_until fhs (draw ∷ draws) ops =
      if draw.late then pure ops else (do ops' ← work fhs draw ops; work_until fhs draws ops')

  -- A thread, whose `SkinnyClient` has its own session.
  unfoldable pub run_thread : List Draw → Remote Ops
  unfolding open_files work_until
  run_thread draws = do
    fhs ← open_files num_file 0
    work_until fhs draws (record { read_ops = 0; write_ops = 0 })

  -- The node enters itself into the directory of the clients, and counts the nodes in it. What
  -- the callback counts later, each time that an event has come, is an input of the wait below.
  unfoldable pub enter : ℕ → Remote (ℤ × ℕ)
  unfolding file_count
  enter node_num = do
    clientdirfh ← Remote.open_dir server clientdir true false
    mynodefh ←
        Remote.open_file server (clientdir ++ codes "/node" ++ to_string (pos node_num)) false false
    content ← Remote.get_content server clientdirfh
    pure (mynodefh, file_count content)

-- The wait for all nodes over the counts that the loop meets: the number of its rounds, or `none`
-- while it goes on.
unfoldable pub wait_all : ℕ → List ℕ → Option ℕ
wait_all node_cnt [] = none
wait_all node_cnt (finished ∷ counts) =
    let rest = wait_all node_cnt counts in
    if finished == node_cnt then some 0 else elim rest [ none ↦ none | some n ↦ some (suc n) ]

-- The sums over the threads.
unfoldable pub sum_ops : List Ops → Ops
sum_ops [] = record { read_ops = 0; write_ops = 0 }
sum_ops (ops ∷ rest) = record {
  read_ops = ops.read_ops + (sum_ops rest).read_ops;
  write_ops = ops.write_ops + (sum_ops rest).write_ops;
}
