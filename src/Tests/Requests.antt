-- ===== src/Tests/Requests.antt =====
-- The theorems on the requests to the kernel modules at concrete inputs.
use blackbox_profiling.Base.{
  ℕ, ◌≡◌, refl, true, none, some, [], ◌∷◌, arith, length, get_elem?, List,
}
use blackbox_profiling.BothMultiple.{find_heap, HeapRequest}
use blackbox_profiling.Tests.Machine.{
  toy_mm, toy_gup_laws, toy_task, toy_arch, heap_IsArea, text_area, toy_arch_laws, heap_area,
  other_task, toy_areas, toy_gup,
}
use blackbox_profiling.FunctimeModule.Modifier.{Walk}
use blackbox_profiling.FunctimeModule.Populate.{finished, mm_populate, Pop}
use blackbox_profiling.FunctimeModule.Finder.{VmasParams, vma_finder, Params, change_area, get_vma}
use blackbox_profiling.FunctimeModule.Finder.Index.{vma_finder_one}
use blackbox_profiling.FunctimeModule.Finder.Area.{change_area_page}
use blackbox_profiling.FunctimeModule.Modifier.Pages.{noncached_pte}
use blackbox_profiling.Linux.{Mm, Task}
use blackbox_profiling.FunctimeModule.Finder.Tasks.{get_vma_others}
use blackbox_profiling.BothMultiple.Heap.{find_heap_pages}

abbrev area_at : ℕ → VmasParams
area_at i = record { vma_index = i; vma_pages = 1 }

-- The second page of the second area.
abbrev heap_params : Params
heap_params = record { vma_param = area_at 1 ∷ []; page_addr = 2 ∷ []; should_skip = true; pid = 7 }

abbrev two_params : Params
two_params = record heap_params { vma_param = area_at 1 ∷ area_at 0 ∷ [] }

heap_changed :
    (w : Walk) × (change_area toy_arch toy_gup true (2 ∷ []) toy_mm.mmap heap_area toy_mm.ptes []
      ≡ some w)
heap_changed =
    let (_, w, _, changed, _, _) =
      change_area_page toy_arch toy_arch_laws toy_gup toy_gup_laws true (2 ∷ []) toy_mm.mmap
        toy_areas heap_area heap_IsArea toy_mm.ptes [] 1 (omega arith) (omega arith) in
    (w, changed)

abbrev changed_mm : Mm
changed_mm = record toy_mm {
  mmap = text_area ∷ heap_changed.0.area ∷ [];
  ptes = heap_changed.0.ptes;
}

vma_finder_one_example :
    vma_finder toy_arch toy_gup heap_params toy_mm [] ≡ some (changed_mm, heap_changed.0.log)
vma_finder_one_example =
    vma_finder_one toy_arch toy_gup heap_params toy_mm [] (area_at 1) heap_area heap_changed.0 refl
      refl refl heap_changed.1

abbrev tasks : List Task
tasks = other_task ∷ toy_task ∷ []

abbrev tasks_then : List Task
tasks_then = other_task ∷ record toy_task { mm = some changed_mm } ∷ []

tasks_served : get_vma toy_arch toy_gup heap_params tasks [] ≡ some (tasks_then, heap_changed.0.log)
unfolding get_vma
tasks_served = rw (
  vma_finder_one toy_arch toy_gup heap_params toy_mm [] (area_at 1) heap_area heap_changed.0 refl
      refl refl heap_changed.1,
  get_vma,
)

get_vma_others_example : (get_elem? tasks_then 0 ≡ some other_task) × (length tasks_then ≡ 2)
get_vma_others_example =
    get_vma_others toy_arch toy_gup heap_params tasks tasks_then [] heap_changed.0.log 0 other_task
      tasks_served refl (omega arith)

-- The second and the third page are asked for.
abbrev pages_request : HeapRequest
pages_request = record { buff = 2 ∷ 3 ∷ []; should_skip = true; pid = 7 }

find_heap_pages_example :
    (t : Pop) × (w : Walk) × (mm_populate toy_gup toy_mm.mmap true 12288 12288 toy_mm.ptes
      ≡ finished none t)
    × (find_heap toy_arch toy_gup pages_request toy_mm toy_mm.mmap []
        ≡ some (record { areas = text_area ∷ w.area ∷ []; ptes = w.ptes; log = w.log }))
    × (w.ptes 16384 ≡ noncached_pte toy_arch 0 (t.ptes 16384))
find_heap_pages_example =
    find_heap_pages toy_arch toy_arch_laws toy_gup toy_gup_laws pages_request toy_mm
      (text_area ∷ []) heap_area [] [] 1 toy_areas heap_IsArea refl (refl, tt) refl
      (omega arith, (omega arith, tt)) (omega arith)
