-- ===== src/FunctimeModule/Finder.antt =====
-- vma_finder and get_vma of functime_debugger/kernel/functime_kernel_module.c. `none` is a fault of
-- the kernel: a failed assertion, or a read through a null pointer. `kmalloc` is taken to succeed.
pub mod Area
pub mod Index
pub mod Tasks
use blackbox_profiling.Base.{
  ltb, ◌>>=◌, ◌==◌, if◌then◌else◌, page_size, add_word, mul_word, sub_word, ℕ, ◌+◌, Bool, true,
  false, Option, none, some, List, [], ◌∷◌, map,
}
use blackbox_profiling.Linux.{Arch, Vma, Mm, Task, Action, Gup}
use blackbox_profiling.FunctimeModule.Modifier.{Walk, walk_pages}
use blackbox_profiling.FunctimeModule.Populate.{out_of_fuel, finished, bug, mm_populate}

-- An entry of `vma_param`. The number of pages is sent along and not read.
pub record VmasParams : Type 0 where
  pub vma_index : ℕ
  pub vma_pages : ℕ

-- `struct params` once its arrays are in the kernel. `size[VMA_LIST]` and `size[PAGE_LIST]` are the
-- lengths of the two lists.
pub record Params : Type 0 where
  pub vma_param : List VmasParams
  pub page_addr : List ℕ
  pub should_skip : Bool
  pub pid : ℕ

-- vm_start + ((p - 1) * PAGE_SIZE), in unsigned arithmetic: pages are counted from 1.
abbrev pub page_address : ℕ → ℕ → ℕ
page_address vm_start p = add_word vm_start (mul_word (sub_word p 1) page_size)

-- The pages and the log of a process, with its areas from the current one on.
pub record Found : Type 0 where
  pub areas : List Vma
  pub ptes : ℕ → ℕ
  pub log : List Action

abbrev pub keep_area : Vma → Found → Found
keep_area v f = record f { areas = v ∷ f.areas }

module _ (arch : Arch) (gup : Gup) (should_skip : Bool) (page_addr : List ℕ) where
  -- The chosen area is faulted in, whatever that returns, and its pages are walked.
  unfoldable pub change_area : List Vma → Vma → (ℕ → ℕ) → List Action → Option Walk
  change_area mmap v ptes log =
      let len = sub_word v.vm_end v.vm_start in
      let walk = λ (ptes' : ℕ → ℕ).
        walk_pages arch should_skip (map (page_address v.vm_start) page_addr)
          (arch.pte_walk v.vm_start len) (record { area = v; ptes = ptes'; log = log }) in
      elim (mm_populate gup mmap true v.vm_start len ptes) [
        | finished ret t ↦ walk t.ptes
        | bug ↦ none
        | out_of_fuel ↦ none
      ]

  -- The two loops: `count` goes up with the current area, and is not reset for the next index.
  pub find_areas :
      List Vma → ℕ → ℕ → List VmasParams → List Vma → (ℕ → ℕ) → List Action → Option Found
  find_areas mmap map_count count [] vs ptes log =
      some (record { areas = vs; ptes = ptes; log = log })
  find_areas mmap map_count count (p ∷ ps) [] ptes log =
      if ltb count map_count then none else some (record { areas = []; ptes = ptes; log = log })
  find_areas mmap map_count count (p ∷ ps) (v ∷ vs) ptes log = elim (ltb count map_count) [
    | false ↦ some (record { areas = v ∷ vs; ptes = ptes; log = log })
    | true ↦ elim (count == p.vma_index) [
      | true ↦ change_area mmap v ptes log >>= (λ w.
          find_areas mmap map_count (count + 1) ps vs w.ptes w.log
          >>= (λ f. some (keep_area w.area f)))
      | false ↦
          find_areas mmap map_count (count + 1) (p ∷ ps) vs ptes log >>= (λ f. some (keep_area v f))
    ]
  ]

module _ (arch : Arch) (gup : Gup) (cp : Params) where
  pub finder_from : List Vma → Mm → List Action → Option (Mm × List Action)
  finder_from [] mm log = none
  finder_from (v ∷ vs) mm log =
      find_areas arch gup cp.should_skip cp.page_addr mm.mmap mm.map_count 0 cp.vma_param mm.mmap
        mm.ptes log
      >>= (λ f. some (record mm { mmap = f.areas; ptes = f.ptes }, f.log))

  -- The first line reads the first area, so a process without areas is a fault.
  pub vma_finder : Mm → List Action → Option (Mm × List Action)
  unfolding finder_from
  vma_finder mm log = finder_from mm.mmap mm log

  -- for_each_process: a kernel thread with the right pid is a read through a null `mm`.
  unfoldable pub get_vma : List Task → List Action → Option (List Task × List Action)
  get_vma [] log = some ([], log)
  get_vma (t ∷ ts) log = elim (t.pid == cp.pid) [
    | false ↦ get_vma ts log >>= (λ r. some (t ∷ r.0, r.1))
    | true ↦ elim t.mm [
      | none ↦ none
      | some mm ↦
          vma_finder mm log
          >>= (λ m. get_vma ts m.1 >>= (λ r. some (record t { mm = some m.0 } ∷ r.0, r.1)))
    ]
  ]
