-- ===== src/FunctimeModule/Write/Errors.antt =====
-- Which failed copies a write reports.
use blackbox_profiling.Base.{◌≡◌, ◌↔◌, none, List, arith}
use blackbox_profiling.Linux.{Arch, Gup, Task, Action}
use blackbox_profiling.FunctimeModule.Write.{efault, memprofile_proc_write, UserCopy}

-- A write returns -EFAULT exactly if the copy of the structure itself fails: a failed copy of one
-- of its arrays is never reported.
pub memprofile_proc_write_efault :
    (arch : Arch) (gup : Gup) (u : UserCopy) (ts : List Task) (log : List Action)
    → (memprofile_proc_write arch gup u ts log ≡ efault) ↔ (u.params ≡ none)
unfolding memprofile_proc_write
memprofile_proc_write_efault arch gup u ts log = ground arith
