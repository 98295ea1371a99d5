-- ===== src/BothMultiple/Heap.antt =====
-- Which area is the heap, and what becomes of its pages.
use blackbox_profiling.Base.{
  ◌==◌, if◌then◌else◌, page_size, ℕ, ◌+◌, ◌-◌, ◌*◌, ◌<◌, ◌≡◌, sym, ◌∙◌, subst, true, false, not,
  none, some, List, [], ◌∷◌, ◌++◌, arith, elem,
}
use blackbox_profiling.Linux.{Arch, AreasFrom, Gup, Vma, GupLaws, Mm, ArchLaws, Action}
use blackbox_profiling.BothMultiple.{change_heap, HeapRequest, find_heap, is_heap}
use blackbox_profiling.BothMultiple.Agrees.{change_heap-eq-change_area}
use blackbox_profiling.FunctimeModule.Modifier.{Walk}
use blackbox_profiling.FunctimeModule.Populate.{finished, mm_populate, Pop}
use blackbox_profiling.FunctimeModule.Finder.Area.{IsArea, change_area_page, AllBelow}
use blackbox_profiling.FunctimeModule.Modifier.Pages.{noncached_pte}

abbrev pub NoHeap : ℕ → ℕ → List Vma → Type 0
NoHeap start_brk brk [] = Unit {0}
NoHeap start_brk brk (v ∷ vs) = (is_heap start_brk brk v ≡ false) × NoHeap start_brk brk vs

module _ (arch : Arch) (gup : Gup) (cp : HeapRequest) (mm : Mm) where
  find_heap-from :
      (before : List Vma) (v : Vma) (after : List Vma) (log : List Action) (w : Walk)
      → NoHeap mm.start_brk mm.brk before
      → is_heap mm.start_brk mm.brk v ≡ true
      → change_heap arch gup cp mm.mmap v mm.ptes log ≡ some w
      → find_heap arch gup cp mm (before ++ (v ∷ after)) log
        ≡ some (record { areas = before ++ (w.area ∷ after); ptes = w.ptes; log = w.log })
  unfolding find_heap
  find_heap-from [] v after log w h e c = rw (e, c, find_heap)
  find_heap-from (u ∷ before) v after log w h e c =
      rw (h.0, find_heap-from before v after log w h.1 e c, find_heap)

-- Where the areas lie in order, the first one that meets the heap has whole pages, and the request
-- names only page numbers below 2 ^ 20: this area is faulted in and changed, and no other, without
-- an error. Its k-th page, from 0, becomes noncacheable exactly if `should_skip` is set and the
-- number k + 1 is named, or `should_skip` is clear and it is not; otherwise its entry is as the
-- population of the area left it.
pub find_heap_pages :
    (arch : Arch) (laws : ArchLaws arch) (gup : Gup) (gup_laws : GupLaws gup) (cp : HeapRequest)
    (mm : Mm) (before : List Vma) (v : Vma) (after : List Vma) (log : List Action) (k : ℕ)
    → AreasFrom 0 mm.mmap
    → IsArea v
    → mm.mmap ≡ before ++ (v ∷ after)
    → NoHeap mm.start_brk mm.brk before
    → is_heap mm.start_brk mm.brk v ≡ true
    → AllBelow 1048576 cp.buff
    → k * page_size < v.vm_end - v.vm_start
    → let a = v.vm_start + k * page_size in
      (t : Pop) × (w : Walk) × (mm_populate gup mm.mmap true v.vm_start
          (v.vm_end - v.vm_start)
          mm.ptes
        ≡ finished none t)
      × (find_heap arch gup cp mm mm.mmap log
          ≡ some (record { areas = before ++ (w.area ∷ after); ptes = w.ptes; log = w.log }))
      × (w.ptes a ≡ (
          if (if elem (k + 1) cp.buff then cp.should_skip else not cp.should_skip)
          then noncached_pte arch v.vm_page_prot (t.ptes a)
          else t.ptes a))
find_heap_pages arch laws gup gup_laws cp mm before v after log k areas is_area split none_before is
      below inside =
    let (t, w, e, we, sel, _) =
      change_area_page arch laws gup gup_laws cp.should_skip cp.buff mm.mmap areas v is_area mm.ptes
        log k below inside in
    (
      t,
      w,
      e,
      subst
          (λ vs.
            find_heap arch gup cp mm vs log
            ≡ some (record { areas = before ++ (w.area ∷ after); ptes = w.ptes; log = w.log }))
          (sym split)
          (find_heap-from arch gup cp mm before v after log w none_before is
            (change_heap-eq-change_area arch gup cp mm.mmap v mm.ptes log ∙ we)),
      sel,
    )

-- Where the request names one page number c below 2 ^ 20, the first area that meets the heap is
-- changed and no other, and its k-th page, from 0, becomes noncacheable exactly if `should_skip` is
-- set and c is k + 1, or `should_skip` is clear and c is not k + 1.
pub find_heap_page :
    (arch : Arch) (laws : ArchLaws arch) (gup : Gup) (gup_laws : GupLaws gup) (cp : HeapRequest)
    (mm : Mm) (before : List Vma) (v : Vma) (after : List Vma) (log : List Action) (c k : ℕ)
    → AreasFrom 0 mm.mmap
    → IsArea v
    → mm.mmap ≡ before ++ (v ∷ after)
    → NoHeap mm.start_brk mm.brk before
    → is_heap mm.start_brk mm.brk v ≡ true
    → cp.buff ≡ c ∷ []
    → c < 1048576
    → k * page_size < v.vm_end - v.vm_start
    → let a = v.vm_start + k * page_size in
      (t : Pop) × (w : Walk) × (mm_populate gup mm.mmap true v.vm_start
          (v.vm_end - v.vm_start)
          mm.ptes
        ≡ finished none t)
      × (find_heap arch gup cp mm mm.mmap log
          ≡ some (record { areas = before ++ (w.area ∷ after); ptes = w.ptes; log = w.log }))
      × (w.ptes a ≡ (
          if (if k + 1 == c then cp.should_skip else not cp.should_skip)
          then noncached_pte arch v.vm_page_prot (t.ptes a)
          else t.ptes a))
find_heap_page arch laws gup gup_laws cp mm before v after log c k areas is_area split none_before
      is one below inside =
    let (t, w, e, changed, entry) =
      find_heap_pages arch laws gup gup_laws cp mm before v after log k areas is_area split
        none_before is (rw one (below, tt)) inside in
    (t, w, e, changed, ground (arith, entry, one))
