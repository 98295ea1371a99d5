-- ===== src/Tests/Earlier.antt =====
-- The theorems on the earlier modules, on those for the benchmark, and on hello.c, at concrete
-- inputs.
use blackbox_profiling.Base.{
  ◌/◌, ◌≡◌, refl, ◌↔◌, true, false, none, some, [], ◌∷◌, arith, ℕ, elem, inl, Bool,
}
use blackbox_profiling.SinglePage.{change_heaps, hello}
use blackbox_profiling.Linux.{flush_tlb, set_pte, Task}
use blackbox_profiling.Tests.Machine.{
  heap_IsArea, toy_arch, heap_area, toy_arch_laws, toy_mm, text_area, toy_gup, other_task,
}
use blackbox_profiling.FunctimeModule.Modifier.Pages.{noncached_pte}
use blackbox_profiling.SinglePage.Page.{change_heaps_page}
use blackbox_profiling.BothMultiple.{change_heap, HeapRequest}
use blackbox_profiling.Mser.{change_others, change_page, mser, page_write}
use blackbox_profiling.Mser.Agrees.{BothAlike, change_others-change_heap, change_page-change_heap}
use blackbox_profiling.FunctimeModule.Modifier.{Walk}
use blackbox_profiling.FunctimeModule.Populate.{
  populate_loop, Pop, mm_populate, populate_vma_page_range, visit_area, finished, after_fault,
  round,
}
use blackbox_profiling.Mser.Tasks.{page_write_lem}
use blackbox_profiling.FunctimeModule.Write.{efault, written}
use blackbox_profiling.TwoLoops.{loop}
use blackbox_profiling.HelloOnce.{OnceState, hello_once}
use blackbox_profiling.HelloOnce.Pages.{hello_once_lem, hello_once_last}
use blackbox_profiling.TwoLoops.Cells.{loop_lem}

abbrev page_number : ℕ
page_number = 2

change_heaps_page_example :
    let f =
      change_heaps toy_arch page_number 12288 20000 (text_area ∷ heap_area ∷ []) toy_mm.ptes [] in
    (f.ptes 16384 ≡ noncached_pte toy_arch 0 (toy_mm.ptes 16384))
    × (f.ptes 16384 / 2 ≡ toy_mm.ptes 16384 / 2)
    × (f.log ≡ set_pte 16384 (f.ptes 16384) ∷ flush_tlb 12288 ∷ [])
    × ((heap_area.vm_start ≡ 16384) ↔ (page_number ≡ 1))
change_heaps_page_example =
    change_heaps_page toy_arch toy_arch_laws page_number 1 12288 20000 (text_area ∷ []) heap_area []
      toy_mm.ptes [] 16384 (refl, tt) refl tt heap_IsArea (omega arith) refl

abbrev heap_request : HeapRequest
heap_request = record { buff = page_number ∷ []; should_skip = false; pid = 7 }

abbrev populated_once : Pop
populated_once = record { locked = true; vma = heap_area ∷ []; nstart = 24576; ptes = toy_mm.ptes }

toy_populated :
    mm_populate toy_gup toy_mm.mmap true 12288 12288 toy_mm.ptes ≡ finished none populated_once
unfolding mm_populate populate_loop visit_area round populate_vma_page_range after_fault
toy_populated = refl

change_others-change_heap_example :
    BothAlike
      (change_others toy_arch page_number
        (record { area = heap_area; ptes = toy_mm.ptes; log = [] }))
      (change_heap toy_arch toy_gup heap_request toy_mm.mmap heap_area toy_mm.ptes [])
change_others-change_heap_example =
    change_others-change_heap toy_arch toy_gup page_number 7 toy_mm.mmap heap_area toy_mm.ptes []
      none populated_once toy_populated refl

-- Every page can be reached.
abbrev everywhere : ℕ → Bool
everywhere a = true

change_page-change_heap_example :
    (w : Walk) × (u : Walk) × (change_page toy_arch everywhere page_number
        (record { area = heap_area; ptes = toy_mm.ptes; log = [] })
      ≡ some w)
    × (change_heap toy_arch toy_gup
          (record heap_request { should_skip = true })
          toy_mm.mmap
          heap_area
          toy_mm.ptes
          []
        ≡ some u)
    × (w.ptes 16384 ≡ u.ptes 16384)
change_page-change_heap_example =
    change_page-change_heap toy_arch toy_arch_laws toy_gup page_number 7 toy_mm.mmap heap_area
      toy_mm.ptes [] none populated_once everywhere 16384 refl refl toy_populated refl

abbrev mser_task : Task
mser_task = record { pid = 9; comm = mser; mm = some toy_mm }

page_write_lem_example :
    (w : Walk) × (page_write toy_arch
        (λ mm a. true)
        (some page_number)
        (other_task ∷ mser_task ∷ [])
        []
      ≡ written
          (other_task
            ∷ record mser_task {
              mm = some (record toy_mm { mmap = text_area ∷ w.area ∷ []; ptes = w.ptes });
            }
            ∷ [])
          w.log)
    × (w.ptes 16384 ≡ noncached_pte toy_arch 0 (toy_mm.ptes 16384))
    × (page_write toy_arch (λ mm a. true) none (other_task ∷ mser_task ∷ []) [] ≡ efault)
page_write_lem_example =
    page_write_lem toy_arch (λ mm a. true) page_number 16384 (other_task ∷ []) mser_task [] toy_mm
      (text_area ∷ []) heap_area [] [] (refl, tt) refl tt refl refl (refl, tt) refl tt

abbrev hello_task : Task
hello_task = record { pid = 8; comm = hello; mm = some toy_mm }

abbrev no_buffer : ℕ → ℕ
no_buffer = λ c. 0

hello_once_lem_example :
    (s : OnceState) × (hello_once toy_arch
        (λ arg. 2)
        (λ seen. 5)
        (hello ∷ [])
        (hello_task ∷ [])
        no_buffer
      ≡ some s)
    × (elem 16384 s.seen ≡ false)
    × (s.line.0 ≡ 2)
    × (s.buf 64 ≡ 243)
hello_once_lem_example =
    hello_once_lem toy_arch toy_arch_laws (λ arg. 2) (λ seen. 5) hello [] hello_task toy_mm
      (text_area ∷ []) heap_area [] no_buffer refl refl refl (refl, tt) refl tt 3 1 2 0 refl
      (omega arith) (omega arith) (inl (λ e. omega (arith, e), omega arith)) (omega arith)
      (omega arith)

hello_once_last_example :
    hello_once toy_arch (λ arg. 3) (λ seen. 5) (hello ∷ []) (hello_task ∷ []) no_buffer ≡ none
hello_once_last_example =
    hello_once_last toy_arch toy_arch_laws (λ arg. 3) (λ seen. 5) hello [] hello_task toy_mm
      (text_area ∷ []) heap_area [] no_buffer refl refl refl (refl, tt) refl tt refl (omega arith)
      (omega arith) (λ e. omega (arith, e))

loop_lem_example :
    ((loop no_buffer no_buffer).0 128 ≡ 232) × ((loop no_buffer no_buffer).1 128 ≡ 100)
loop_lem_example =
    loop_lem 2 0 no_buffer no_buffer (λ c. omega arith) (λ c. omega arith) (omega arith)
