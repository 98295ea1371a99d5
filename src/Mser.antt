-- ===== src/Mser.antt =====
-- cacheable_except_one/all_cacheable_except_one_sd_vbs.c and
-- noncacheable_except_one/all_noncacheable_except_one_sd_vbs.c: two kernel modules for the process
-- "mser", of which one makes a page of the heap noncacheable, and the other all pages but one.
-- `none` is a fault of the kernel. Their invalidate_page_l1 and invalidate_page_l2 are those of
-- functime_kernel_module.c, and their mm_exp_load is that of Loading.
pub mod Agrees
pub mod Tasks
use blackbox_profiling.Base.{
  ◌>>=◌, ℕ, ◌==◌, if◌then◌else◌, update, sub_word, true, false, Option, none, some, List, [], ◌∷◌,
  ◌++◌, Bool,
}
use blackbox_profiling.FunctimeModule.Write.{written, efault, WriteResult, undefined}
use blackbox_profiling.CacheLines.{invalidate_page_l1, invalidate_page_l2}
use blackbox_profiling.BothMultiple.{is_heap}
use blackbox_profiling.Linux.{set_pte, Mm, Action, Vma, flush_tlb, Arch, Task}
use blackbox_profiling.FunctimeModule.Modifier.{Walk, walk_range}
use blackbox_profiling.FunctimeModule.Finder.{Found, keep_area, page_address}
use blackbox_profiling.Functime.Maps.{str_eq}

-- The name of the task.
abbrev pub mser : List ℕ
mser = b'm' ∷ b's' ∷ b'e' ∷ b'r' ∷ []

-- The steps that make a page noncacheable, in both files. L1 is cleaned at the address that the
-- process has for the page.
unfoldable pub remap_user : Arch → ℕ → Walk → Option Walk
remap_user arch addr w =
    let prot = arch.pgprot_noncached w.area.vm_page_prot in
    let pte = w.ptes addr in
    let newpte = arch.pfn_pte (arch.pte_pfn pte) prot in
    do
      l1 ← invalidate_page_l1 addr
      l2 ← invalidate_page_l2 (arch.page_to_phys (arch.pte_page pte))
      some (record {
        area = record w.area { vm_page_prot = prot };
        ptes = update w.ptes addr newpte;
        log = w.log ++ (l1 ++ (l2 ++ (set_pte addr newpte ∷ flush_tlb addr ∷ [])));
      })

-- The callback of the second file: one page is passed over.
unfoldable pub skip_one : Arch → ℕ → ℕ → Walk → Option Walk
skip_one arch page_addr addr w = if addr == page_addr then some w else remap_user arch addr w

-- What is done to an area of the heap: to its page `p`, counted from 1, or to all but that one. The
-- first file walks the page tables by hand and looks at no result. `backed` is whether the walk
-- finds a table with the entry, and a page that can be cleaned at its address; otherwise the kernel
-- faults.
unfoldable pub change_page : Arch → (ℕ → Bool) → ℕ → Walk → Option Walk
change_page arch backed p w =
    let addr = page_address w.area.vm_start p in
    if backed addr then remap_user arch addr w else none

unfoldable pub change_others : Arch → ℕ → Walk → Option Walk
unfolding skip_one
change_others arch p w =
    let v = w.area in
    walk_range (skip_one arch (page_address v.vm_start p))
      (arch.pte_walk v.vm_start (sub_word v.vm_end v.vm_start)) w

-- The loop over the areas, in both files: each that meets the heap is changed.
unfoldable pub mser_heaps :
    (Walk → Option Walk) → ℕ → ℕ → List Vma → (ℕ → ℕ) → List Action → Option Found
mser_heaps change start_brk brk [] ptes log = some (record { areas = []; ptes = ptes; log = log })
mser_heaps change start_brk brk (v ∷ vs) ptes log = elim (is_heap start_brk brk v) [
  | true ↦ change (record { area = v; ptes = ptes; log = log }) >>= (λ w.
      mser_heaps change start_brk brk vs w.ptes w.log >>= (λ f. some (keep_area w.area f)))
  | false ↦ mser_heaps change start_brk brk vs ptes log >>= (λ f. some (keep_area v f))
]

-- for_each_process, in both files.
unfoldable pub mser_tasks :
    (Mm → List Action → Option Found) → List Task → List Action → Option (List Task × List Action)
mser_tasks visit [] log = some ([], log)
mser_tasks visit (t ∷ ts) log = elim (str_eq t.comm mser) [
  | false ↦ mser_tasks visit ts log >>= (λ r. some (t ∷ r.0, r.1))
  | true ↦ elim t.mm [
    | none ↦ none
    | some mm ↦ visit mm log >>= (λ f. mser_tasks visit ts f.log >>= (λ r.
        some (record t { mm = some (record mm { mmap = f.areas; ptes = f.ptes }) } ∷ r.0, r.1)))
  ]
]

-- print_mem of the first file.
abbrev pub visit_page : Arch → (Mm → ℕ → Bool) → ℕ → Mm → List Action → Option Found
visit_page arch backed p mm log =
    mser_heaps (change_page arch (backed mm) p) mm.start_brk mm.brk mm.mmap mm.ptes log

-- The second file reads the first area before its loop.
abbrev pub visit_others : Arch → ℕ → Mm → List Action → Option Found
visit_others arch p mm log = elim mm.mmap [
  | [] ↦ none
  | v ∷ vs ↦ mser_heaps (change_others arch p) mm.start_brk mm.brk (v ∷ vs) mm.ptes log
]

abbrev pub result_of : Option (List Task × List Action) → WriteResult
result_of none = undefined
result_of (some (tasks, log)) = written tasks log

-- memprofile_proc_write of the first file: the number 0 stands for the run in which every page is
-- cacheable.
unfoldable pub page_write :
    Arch → (Mm → ℕ → Bool) → Option ℕ → List Task → List Action → WriteResult
page_write arch backed none tasks log = efault
page_write arch backed (some p) tasks log =
    let visited = mser_tasks (visit_page arch backed p) tasks log in
    if p == 0 then written tasks log else result_of visited

-- memprofile_proc_write of the second file.
unfoldable pub others_write : Arch → Option ℕ → List Task → List Action → WriteResult
others_write arch none tasks log = efault
others_write arch (some p) tasks log = result_of (mser_tasks (visit_others arch p) tasks log)
