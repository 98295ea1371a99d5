-- ===== src/System/Request.antt =====
-- What a request does to the one process that it names.
use blackbox_profiling.Base.{
  found, ◌==◌, lt→leb, take-length, ℕ, ◌+◌, ◌<◌, ◌≡◌, refl, sym, true, some, List, [], ◌∷◌, ◌++◌,
}
use blackbox_profiling.BothMultiple.{find_heap, heap_proc_write, HeapRequest}
use blackbox_profiling.System.{send_params, process_of, Combined}
use blackbox_profiling.Linux.{Arch, Gup, Task, Mm}
use blackbox_profiling.BothMultiple.Tasks.{serve_tasks-one, Without}
use blackbox_profiling.FunctimeModule.Finder.{Found}
use blackbox_profiling.Functime.Trace.{KernelParams}

pub process_of-one :
    (pid : ℕ) (before : List Task) (t : Task) (after : List Task)
    → Without pid before
    → (t.pid == pid) ≡ true
    → process_of pid (before ++ (t ∷ after)) ≡ t.mm
process_of-one pid [] t after b here = rw here refl
process_of-one pid (u ∷ before) t after b here = rw b.0 (process_of-one pid before t after b.1 here)

-- A request that the profiler sends while it has a descriptor left.
pub send_params-one :
    {T : Type 0} (arch : Arch) (gup : Gup) (limit : ℕ) (m : Combined T) (p : KernelParams)
    (before : List Task) (t : Task) (after : List Task) (mm : Mm) (f : Found)
    → m.open_files < limit
    → m.tasks ≡ before ++ (t ∷ after)
    → Without p.pid before
    → t.pid ≡ p.pid
    → t.mm ≡ some mm
    → Without p.pid after
    → find_heap arch gup
        (record { buff = p.buff; should_skip = p.should_skip; pid = p.pid })
        mm
        mm.mmap
        m.log
      ≡ some f
    → send_params arch gup limit m p ≡ record m {
      open_files = m.open_files + 1;
      tasks =
          before ++ (record t { mm = some (record mm { mmap = f.areas; ptes = f.ptes }) } ∷ after);
      log = f.log;
    }
unfolding send_params heap_proc_write
send_params-one arch gup limit m p before t after mm f room split b here memory a found_it =
    let cp : HeapRequest = record { buff = p.buff; should_skip = p.should_skip; pid = p.pid } in
    rw
      (
        lt→leb m.open_files limit room,
        take-length p.buff,
        split,
        serve_tasks-one arch gup cp before t after mm m.log f b (found t.pid p.pid (sym here))
            memory a found_it,
        send_params,
        heap_proc_write,
      )
      refl
