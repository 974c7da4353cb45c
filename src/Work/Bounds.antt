-- ===== src/Work/Bounds.antt =====
-- What `write` stores, and that `read` gives it back.
use lean_fm.Common.{◌≤◌, ◌<◌, String, ◌≡◌, ◌≢◌, true, some, arith, eq_iff, length, get_last?}
use lean_fm.Common.Table.{lookup, insert, lookup-insert, lookup-insert_self}
use lean_fm.Work.Types.{Disk, Job, World, job_file, oversized}
use lean_fm.Work.Action.{ok, rejected, ◌>>=◌}
use lean_fm.Work.Storage.{read, write, path, fit, max_state_bytes, is_id}
use lean_fm.Work.Fit.{fit-SameJob, length-fit, last-fit}

-- A job as `write` stored it.
pub record Stored (w : World) (job stored : Job) (d d' : Disk) : Type 0 where
  pub fitted : stored ≡ fit w job
  pub is_named : is_id stored.id ≡ true
  pub small : w.job_size stored ≤ max_state_bytes
  pub files : d'.files ≡ insert stored.id (job_file stored w.now) d.files
  pub active : d'.active ≡ d.active
  pub prompts : d'.prompts ≡ d.prompts

pub write-Stored :
    (w : World) (job stored : Job) (d d' : Disk)
    → write w job d ≡ (ok stored, d')
    → Stored w job stored d d'
unfolding write path ◌>>=◌
write-Stored w job stored d d' e = ground arith

pub write-ok :
    (w : World) (job stored : Job) (d : Disk)
    → (write w job d).0 ≡ ok stored
    → Stored w job stored d (write w job d).1
write-ok w job stored d e =
    write-Stored w job stored d (write w job d).1 (λ i. (e i, (write w job d).1))

-- What a returning `write` leaves in the directory: a job of at most 2 MiB with at most four
-- receipts, the newest one kept, under the job's own name; every other file is untouched.
pub write_bounds :
    (w : World) (job stored : Job) (d d' : Disk)
    → write w job d ≡ (ok stored, d')
    → (name : String) → name ≢ job.id
    → (w.job_size stored ≤ max_state_bytes)
      × (length stored.receipts ≤ 4)
      × (get_last? stored.receipts ≡ get_last? job.receipts)
      × (lookup job.id d'.files ≡ some (job_file stored w.now))
      × (lookup name d'.files ≡ lookup name d.files)
write_bounds w job stored d d' e name other =
    let s = write-Stored w job stored d d' e in
    let named : stored.id ≡ job.id = rw s.fitted (fit-SameJob w job).id in
    (
      s.small,
      rw s.fitted (length-fit w job),
      rw s.fitted (last-fit w job),
      cc (s.files, named, lookup-insert_self stored.id (job_file stored w.now) d.files),
      ground (
        arith,
        lookup-insert stored.id name (job_file stored w.now) d.files,
        eq_iff stored.id name,
      ),
    )

module _ (w w' : World) (job stored : Job) (d d' : Disk) (e : write w job d ≡ (ok stored, d')) where
  found : lookup stored.id d'.files ≡ some (job_file stored w.now)
  found =
      let s = write-Stored w job stored d d' e in
      cc (s.files, lookup-insert_self stored.id (job_file stored w.now) d.files)

  -- A job that was written is read back as it is, by any later call of the same store, as long as
  -- its JSON text is shorter than 2 MiB.
  pub read-write :
      w'.root_tag ≡ stored.root_tag
      → w'.job_size stored < max_state_bytes
      → read w' stored.id d' ≡ (ok stored, d')
  unfolding read ◌>>=◌
  read-write root small =
      let s = write-Stored w job stored d d' e in
      ground (arith, found, s.is_named, eq_iff stored.root_tag w'.root_tag)

  -- A job whose JSON text has exactly 2 MiB is written, and never read again: `write` measures the
  -- text, `read` the file, which is longer by its line feed.
  pub read-write_full :
      w'.job_size stored ≡ max_state_bytes → read w' stored.id d' ≡ (rejected oversized, d')
  unfolding read ◌>>=◌
  read-write_full full =
      let s = write-Stored w job stored d d' e in ground (arith, found, s.is_named)
