-- ===== src/AllButOne.antt =====
-- noncacheable_except_one/all_noncacheable_except_one.c: a kernel module that walks all pages of
-- the heap but one. What its callback would change is commented out: it prints. `none` is a fault
-- of the kernel.
pub mod Cover
use blackbox_profiling.Base.{
  ◌>>=◌, ℕ, ◌==◌, if◌then◌else◌, ltb, leb, add_word, page_size, mul_word, sub_word, ◌+◌, Bool,
  false, ◌&&◌, ◌||◌, List, [], ◌∷◌, true, Option, none, some, ◌++◌,
}
use blackbox_profiling.SinglePage.{hello}
use blackbox_profiling.BothMultiple.{is_heap}
use blackbox_profiling.Linux.{Vma, Mm, Task, Arch}
use blackbox_profiling.Functime.Maps.{str_eq}

-- The ranges, each a start and a length, that are handed to apply_to_page_range for the page number
-- p and an area, with the two numbers that have branches of their own.
unfoldable pub page_ranges : ℕ → ℕ → ℕ → List (ℕ × ℕ)
page_ranges p vm_start vm_end =
    let below = mul_word (sub_word p 1) page_size in
    let behind = add_word vm_start (mul_word p page_size) in
    if p == 1
    then (add_word vm_start page_size, sub_word vm_end behind) ∷ []
    else if p == 45
    then (vm_start, below) ∷ []
    else (vm_start, below) ∷ (behind, sub_word vm_end behind) ∷ []

-- Whether an address lies in one of the ranges.
abbrev pub in_ranges : ℕ → List (ℕ × ℕ) → Bool
in_ranges a [] = false
in_ranges a (r ∷ rs) = (leb r.0 a && ltb a (r.0 + r.1)) || in_ranges a rs

-- print_mem, the callback: it prints, and what stands behind it is commented out.
abbrev pub print_page : ℕ → List ℕ → List ℕ
print_page addr seen = seen ++ (addr ∷ [])

abbrev pub print_pages : List ℕ → List ℕ → List ℕ
print_pages [] seen = seen
print_pages (a ∷ addrs) seen = print_pages addrs (print_page a seen)

-- The pages that are printed, in order, for the ranges of an area. apply_to_page_range stops the
-- kernel (BUG_ON) where a range does not end behind its start.
abbrev pub walk_ranges : Arch → List (ℕ × ℕ) → List ℕ → Option (List ℕ)
walk_ranges arch [] seen = some seen
walk_ranges arch (r ∷ rs) seen =
    let rest = walk_ranges arch rs (print_pages (arch.pte_walk r.0 r.1) seen) in
    if ltb r.0 (add_word r.0 r.1) then rest else none

-- Every area that meets the heap is walked.
unfoldable pub walk_heaps : Arch → ℕ → ℕ → ℕ → List Vma → List ℕ → Option (List ℕ)
walk_heaps arch p start_brk brk [] seen = some seen
walk_heaps arch p start_brk brk (v ∷ vs) seen = elim (is_heap start_brk brk v) [
  | true ↦
      walk_ranges arch (page_ranges p v.vm_start v.vm_end) seen
      >>= walk_heaps arch p start_brk brk vs
  | false ↦ walk_heaps arch p start_brk brk vs seen
]

-- The first area is read before the loop, so that a process without areas is a fault.
abbrev pub walk_mm : Arch → ℕ → Mm → List ℕ → Option (List ℕ)
walk_mm arch p mm seen = elim mm.mmap [
  | [] ↦ none
  | v ∷ vs ↦ walk_heaps arch p mm.start_brk mm.brk (v ∷ vs) seen
]

-- for_each_process.
unfoldable pub walk_tasks : Arch → ℕ → List Task → List ℕ → Option (List ℕ)
walk_tasks arch p [] seen = some seen
walk_tasks arch p (t ∷ ts) seen = elim (str_eq t.comm hello) [
  | false ↦ walk_tasks arch p ts seen
  | true ↦ elim t.mm [ none ↦ none | some mm ↦ walk_mm arch p mm seen >>= walk_tasks arch p ts ]
]

-- -EFAULT, a fault of the kernel, or 0 with the pages that were printed.
pub data Printed : Type 0 where
  print_efault print_fault : Printed
  printed : List ℕ → Printed

unfoldable pub print_proc_write : Arch → Option ℕ → List Task → Printed
print_proc_write arch p tasks = elim p [
  | none ↦ print_efault
  | some p' ↦ elim (walk_tasks arch p' tasks []) [ none ↦ print_fault | some seen ↦ printed seen ]
]
