-- ===== src/BothMultiple/Tasks.antt =====
-- The loop over the processes.
use blackbox_profiling.Base.{◌==◌, ℕ, ◌≡◌, refl, true, false, some, List, [], ◌∷◌, ◌++◌}
use blackbox_profiling.BothMultiple.{find_heap, HeapRequest, serve_tasks}
use blackbox_profiling.Linux.{Arch, Action, Gup, Task, Mm}
use blackbox_profiling.FunctimeModule.Finder.{Found}

-- No process of the list has the pid.
abbrev pub Without : ℕ → List Task → Type 0
Without pid [] = Unit {0}
Without pid (t ∷ ts) = ((t.pid == pid) ≡ false) × Without pid ts

module _ (arch : Arch) (gup : Gup) (cp : HeapRequest) where
  serve_tasks-Without :
      (ts : List Task) (log : List Action)
      → Without cp.pid ts
      → serve_tasks arch gup cp ts log ≡ some (ts, log)
  unfolding serve_tasks
  serve_tasks-Without [] log h = refl
  serve_tasks-Without (t ∷ ts) log h = rw (h.0, serve_tasks-Without ts log h.1, serve_tasks) refl

  -- The process gets the areas and entries that find_heap gives, and no other one changes.
  pub serve_tasks-one :
      (before : List Task) (t : Task) (after : List Task) (mm : Mm) (log : List Action) (f : Found)
      → Without cp.pid before
      → (t.pid == cp.pid) ≡ true
      → t.mm ≡ some mm
      → Without cp.pid after
      → find_heap arch gup cp mm mm.mmap log ≡ some f
      → serve_tasks arch gup cp (before ++ (t ∷ after)) log
        ≡ some (
          before ++ (record t { mm = some (record mm { mmap = f.areas; ptes = f.ptes }) } ∷ after),
          f.log,
        )
  unfolding serve_tasks
  serve_tasks-one [] t after mm log f b here memory a found_it =
      rw (here, memory, found_it, serve_tasks-Without after f.log a, serve_tasks) refl
  serve_tasks-one (u ∷ before) t after mm log f b here memory a found_it =
      rw (b.0, serve_tasks-one before t after mm log f b.1 here memory a found_it, serve_tasks) refl
