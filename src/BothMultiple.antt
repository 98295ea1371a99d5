-- ===== src/BothMultiple.antt =====
-- functime_debugger/kernel/both_multiple.c: the kernel module that functime.c talks to. It makes
-- chosen pages of the heap of a process noncacheable, or all others. Its functions
-- populate_vma_page_range, __mm_populate_mod, invalidate_page_l1 and invalidate_page_l2 are those
-- of functime_kernel_module.c, and are taken from there.
pub mod Agrees
pub mod Heap
pub mod Tasks
use blackbox_profiling.Base.{
  leb, if◌then◌else◌, ◌==◌, ◌>>=◌, sub_word, ℕ, Bool, true, false, ◌&&◌, Option, none, some, List,
  [], ◌∷◌, map,
}
use blackbox_profiling.Linux.{Arch, Mm, Action, Gup, Vma, Task}
use blackbox_profiling.FunctimeModule.Modifier.{skip_page, Walk, remap, walk_range}
use blackbox_profiling.FunctimeModule.Populate.{bug, out_of_fuel, mm_populate, finished}
use blackbox_profiling.FunctimeModule.Write.{written, efault, WriteResult, undefined}
use blackbox_profiling.FunctimeModule.Finder.{keep_area, Found, page_address}

-- The callback: the same choice as `cacheability_modifier`.
unfoldable pub print_mem : Arch → Bool → List ℕ → ℕ → Walk → Option Walk
print_mem arch should_skip page_addr addr w =
    if skip_page should_skip page_addr addr then some w else remap arch addr w

-- `struct params` with its buffer in the kernel; `size` is the length of the list.
pub record HeapRequest : Type 0 where
  pub buff : List ℕ
  pub should_skip : Bool
  pub pid : ℕ

-- What `copy_from_user` gives: the structure with its size, and the buffer at that size.
pub record HeapCopy : Type 0 where
  pub params : Option (ℕ × Bool × ℕ)
  pub buff : ℕ → Option (List ℕ)

-- An area that meets the range from start_brk to brk.
abbrev pub is_heap : ℕ → ℕ → Vma → Bool
is_heap start_brk brk v = leb v.vm_start brk && leb start_brk v.vm_end

module _ (arch : Arch) (gup : Gup) (cp : HeapRequest) where
  -- The heap is faulted in, whatever that returns, and its pages are walked.
  unfoldable pub change_heap : List Vma → Vma → (ℕ → ℕ) → List Action → Option Walk
  change_heap mmap v ptes log =
      let len = sub_word v.vm_end v.vm_start in
      let walk = λ (ptes' : ℕ → ℕ).
        walk_range (print_mem arch cp.should_skip (map (page_address v.vm_start) cp.buff))
          (arch.pte_walk v.vm_start len) (record { area = v; ptes = ptes'; log = log }) in
      elim (mm_populate gup mmap true v.vm_start len ptes) [
        | finished ret t ↦ walk t.ptes
        | bug ↦ none
        | out_of_fuel ↦ none
      ]

  -- The loop over the areas: it ends at the first that is heap.
  pub find_heap : Mm → List Vma → List Action → Option Found
  find_heap mm [] log = some (record { areas = []; ptes = mm.ptes; log = log })
  find_heap mm (v ∷ vs) log = elim (is_heap mm.start_brk mm.brk v) [
    | true ↦
        change_heap mm.mmap v mm.ptes log
        >>= (λ w. some (record { areas = w.area ∷ vs; ptes = w.ptes; log = w.log }))
    | false ↦ find_heap mm vs log >>= (λ f. some (keep_area v f))
  ]

  -- for_each_process.
  pub serve_tasks : List Task → List Action → Option (List Task × List Action)
  serve_tasks [] log = some ([], log)
  serve_tasks (t ∷ ts) log = elim (t.pid == cp.pid) [
    | false ↦ serve_tasks ts log >>= (λ r. some (t ∷ r.0, r.1))
    | true ↦ elim t.mm [
      | none ↦ none
      | some mm ↦ find_heap mm mm.mmap log >>= (λ f. serve_tasks ts f.log >>= (λ r.
          some (record t { mm = some (record mm { mmap = f.areas; ptes = f.ptes }) } ∷ r.0, r.1)))
    ]
  ]

-- Here both copies are checked. `undefined` is a fault of the kernel; a finished write returns 0.
unfoldable pub heap_proc_write : Arch → Gup → HeapCopy → List Task → List Action → WriteResult
heap_proc_write arch gup u tasks log = elim u.params [
  | none ↦ efault
  | some (size, should_skip, pid) ↦ elim (u.buff size) [
    | none ↦ efault
    | some buff ↦
        elim (serve_tasks arch gup (record { buff = buff; should_skip = should_skip; pid = pid })
          tasks log) [ none ↦ undefined | some (tasks', log') ↦ written tasks' log' ]
  ]
]
