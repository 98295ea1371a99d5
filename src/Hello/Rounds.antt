-- ===== src/Hello/Rounds.antt =====
-- What the rounds leave behind in the page table.
use blackbox_profiling.Base.{ℕ, zero, suc, ◌+◌, ◌≡◌, true, some, List, ◌∷◌, ◌++◌}
use blackbox_profiling.SinglePage.{change_one, hello}
use blackbox_profiling.Linux.{Arch, ArchLaws, Vma, Task, Mm}
use blackbox_profiling.FunctimeModule.Modifier.{Walk}
use blackbox_profiling.Hello.{HelloState}
use blackbox_profiling.BothMultiple.Heap.{NoHeap}
use blackbox_profiling.Functime.Maps.{str_eq}

module _ (arch : Arch) (laws : ArchLaws arch) where
  -- The areas and entries after `n` requests from page `p` on.
  abbrev pub walks : ℕ → ℕ → Walk → Walk
  walks zero p w = w
  walks (suc n) p w = walks n (p + 1) (change_one arch p w.area w)

  module _ (cycles : HelloState → ℕ) (t : Task) (mm : Mm) (before after : List Vma)
      (is_hello : str_eq t.comm hello ≡ true) (no_heap : NoHeap mm.start_brk mm.brk before)
      (no_heap' : NoHeap mm.start_brk mm.brk after) where
    -- The process with the area and the entries of `w`.
    abbrev process : Walk → Task
    process w = record t {
      mm = some (record mm { mmap = before ++ (w.area ∷ after); ptes = w.ptes });
    }
