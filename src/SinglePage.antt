-- ===== src/SinglePage.antt =====
-- cacheable_except_one/all_cacheable_except_one.c: a kernel module that makes one page of the heap
-- of the process "hello" noncacheable. `none` is a fault of the kernel.
pub mod Page
use blackbox_profiling.Base.{
  ◌>>=◌, ℕ, if◌then◌else◌, update, true, false, Option, none, some, List, [], ◌∷◌, ◌++◌,
}
use blackbox_profiling.FunctimeModule.Write.{written, efault, WriteResult, undefined}
use blackbox_profiling.BothMultiple.{is_heap}
use blackbox_profiling.Linux.{Vma, Task, flush_tlb, set_pte, Arch, Action}
use blackbox_profiling.FunctimeModule.Modifier.{Walk}
use blackbox_profiling.FunctimeModule.Finder.{keep_area, page_address, Found}
use blackbox_profiling.Functime.Maps.{str_eq}

-- The task name that strncmp looks for.
abbrev pub hello : List ℕ
hello = b'h' ∷ b'e' ∷ b'l' ∷ b'l' ∷ b'o' ∷ []

-- The changes to one area: its protection, and the entry of its page `p`, counted from 1. The flush
-- is that of the first page of the area; no cache line is cleaned.
abbrev pub change_one : Arch → ℕ → Vma → Walk → Walk
change_one arch p v w =
    let prot = arch.pgprot_noncached v.vm_page_prot in
    let a = page_address v.vm_start p in
    let newpte = arch.pfn_pte (arch.pte_pfn (w.ptes a)) prot in
    record {
      area = record v { vm_page_prot = prot };
      ptes = update w.ptes a newpte;
      log = w.log ++ (set_pte a newpte ∷ flush_tlb v.vm_start ∷ []);
    }

-- print_mem: every area that meets the heap is changed.
pub change_heaps : Arch → ℕ → ℕ → ℕ → List Vma → (ℕ → ℕ) → List Action → Found
change_heaps arch p start_brk brk [] ptes log = record { areas = []; ptes = ptes; log = log }
change_heaps arch p start_brk brk (v ∷ vs) ptes log =
    let w = change_one arch p v (record { area = v; ptes = ptes; log = log }) in
    let changed = change_heaps arch p start_brk brk vs w.ptes w.log in
    let kept = change_heaps arch p start_brk brk vs ptes log in
    if is_heap start_brk brk v then keep_area w.area changed else keep_area v kept

-- for_each_process.
unfoldable pub change_tasks : Arch → ℕ → List Task → List Action → Option (List Task × List Action)
change_tasks arch p [] log = some ([], log)
change_tasks arch p (t ∷ ts) log = elim (str_eq t.comm hello) [
  | false ↦ change_tasks arch p ts log >>= (λ r. some (t ∷ r.0, r.1))
  | true ↦ elim t.mm [
    | none ↦ none
    | some mm ↦
        let f = change_heaps arch p mm.start_brk mm.brk mm.mmap mm.ptes log in
        change_tasks arch p ts f.log >>= (λ r.
          some (record t { mm = some (record mm { mmap = f.areas; ptes = f.ptes }) } ∷ r.0, r.1))
  ]
]

-- The page number is what is written to /proc/memprofile.
unfoldable pub page_proc_write : Arch → Option ℕ → List Task → List Action → WriteResult
page_proc_write arch p tasks log = elim p [
  | none ↦ efault
  | some p' ↦ elim (change_tasks arch p' tasks log) [
    | none ↦ undefined
    | some (tasks', log') ↦ written tasks' log'
  ]
]
