-- ===== src/System.antt =====
-- The profiler of functime_debugger/functime.c on top of the kernel module of
-- functime_debugger/kernel/both_multiple.c: the write to /proc/memprofile is served by
-- heap_proc_write.
pub mod Request
pub mod Ptraced
pub mod Timed
pub mod Files
use blackbox_profiling.Base.{
  if◌then◌else◌, ◌==◌, leb, length, take, ℕ, ◌+◌, Bool, true, Option, none, some, List, [], ◌∷◌,
}
use blackbox_profiling.BothMultiple.{HeapCopy, heap_proc_write}
use blackbox_profiling.Linux.{Task, Gup, Mm, Action, Arch}
use blackbox_profiling.FunctimeModule.Write.{written, efault, WriteResult, undefined}
use blackbox_profiling.Functime.Trace.{KernelParams, Ptrace}

-- The tracee under ptrace, and the kernel's side: the descriptors that the profiler has open, the
-- processes, and the actions of the module. `kernel_died` says that the kernel has died.
pub record Combined (T : Type 0) : Type 0 where
  pub tracee : T
  pub open_files : ℕ
  pub tasks : List Task
  pub log : List Action
  pub kernel_died : Bool

-- What the module copies of the profiler's structure and its buffer.
abbrev pub copy_of : KernelParams → HeapCopy
copy_of p = record {
  params = some (length p.buff, p.should_skip, p.pid);
  buff = λ n. some (take n p.buff);
}

module _ {T : Type 0} where
  -- What a request of ptrace to the tracee leads to.
  abbrev pub with_tracee : Combined T → Option T → Option (Combined T)
  with_tracee m none = none
  with_tracee m (some t) = some (record m { tracee = t })

  -- What a run of the tracee leads to.
  abbrev pub after_run : Combined T → Option (T × List Task) → Option (Combined T)
  after_run m none = none
  after_run m (some (t, ts)) = some (record m { tracee = t; tasks = ts })

module _ {T : Type 0} (arch : Arch) (gup : Gup) (limit : ℕ) where
  abbrev pub served : WriteResult → Combined T → Combined T
  served (written tasks log) m = record m { tasks = tasks; log = log }
  served efault m = m
  served undefined m = record m { kernel_died = true }

  -- open, and the write to what it gives. Where no descriptor is left, the write is made to -1, and
  -- nothing comes of it. The descriptor is never closed.
  unfoldable pub send_params : Combined T → KernelParams → Combined T
  send_params m p =
      if leb limit m.open_files
      then m
      else served (heap_proc_write arch gup (copy_of p) m.tasks m.log)
          (record m { open_files = m.open_files + 1 })

  -- ptrace on the machine, by that on the tracee. What a run of the tracee does, and how long it
  -- takes, depends on the page tables too, and it may change them: `run_on` takes the place of
  -- `os.cont`.
  abbrev pub on_machine : (T → List Task → Option (T × List Task)) → Ptrace T → Ptrace (Combined T)
  on_machine run_on os = record {
    peektext = λ m a. os.peektext m.tracee a;
    poketext = λ m a v. with_tracee m (os.poketext m.tracee a v);
    getregs = λ m. os.getregs m.tracee;
    setregs = λ m r. with_tracee m (os.setregs m.tracee r);
    cont = λ m. after_run m (run_on m.tracee m.tasks);
    timing = λ m. os.timing m.tracee;
    maps = λ m. os.maps m.tracee;
    proc_write = send_params;
  }

-- The entry of a process in its page table. `none` if there is no such process, or it has no
-- memory.
abbrev pub process_of : ℕ → List Task → Option Mm
process_of pid [] = none
process_of pid (t ∷ ts) = if t.pid == pid then t.mm else process_of pid ts

abbrev pub entry_in : ℕ → Option Mm → Option ℕ
entry_in a none = none
entry_in a (some mm) = some (mm.ptes a)

abbrev pub entry_of : ℕ → ℕ → List Task → Option ℕ
entry_of pid a tasks = entry_in a (process_of pid tasks)
