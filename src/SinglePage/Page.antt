-- ===== src/SinglePage/Page.antt =====
-- Which entry changes, and which page is flushed.
use blackbox_profiling.Base.{
  ℕ, ◌==◌, if◌then◌else◌, page_size, ◌+◌, ◌-◌, ◌*◌, ◌<◌, ◌≡◌, refl, ◌↔◌, true, List, [], ◌∷◌, ◌++◌,
  arith,
}
use blackbox_profiling.SinglePage.{change_one, change_heaps}
use blackbox_profiling.BothMultiple.{is_heap}
use blackbox_profiling.Linux.{Vma, flush_tlb, set_pte, Arch, Action, ArchLaws}
use blackbox_profiling.BothMultiple.Heap.{NoHeap}
use blackbox_profiling.FunctimeModule.Finder.{page_address}
use blackbox_profiling.FunctimeModule.Finder.Area.{IsArea}
use blackbox_profiling.FunctimeModule.Modifier.Pages.{noncached_pte}

change_heaps-NoHeap :
    (arch : Arch) (p start_brk brk : ℕ) (vs : List Vma) (ptes : ℕ → ℕ) (log : List Action)
    → NoHeap start_brk brk vs
    → change_heaps arch p start_brk brk vs ptes log ≡ record { areas = vs; ptes = ptes; log = log }
unfolding change_heaps
change_heaps-NoHeap arch p start_brk brk [] ptes log h = refl
change_heaps-NoHeap arch p start_brk brk (v ∷ vs) ptes log h =
    rw (h.0, change_heaps-NoHeap arch p start_brk brk vs ptes log h.1) refl

pub change_heaps-from :
    (arch : Arch) (p start_brk brk : ℕ) (before : List Vma) (v : Vma) (after : List Vma)
    (ptes : ℕ → ℕ) (log : List Action)
    → NoHeap start_brk brk before
    → is_heap start_brk brk v ≡ true
    → NoHeap start_brk brk after
    → let w = change_one arch p v (record { area = v; ptes = ptes; log = log }) in
      change_heaps arch p start_brk brk (before ++ (v ∷ after)) ptes log
      ≡ record { areas = before ++ (w.area ∷ after); ptes = w.ptes; log = w.log }
unfolding change_heaps
change_heaps-from arch p start_brk brk [] v after ptes log b is a =
    rw (is, change_heaps-NoHeap arch p start_brk brk after _ _ a) refl
change_heaps-from arch p start_brk brk (u ∷ before) v after ptes log b is a =
    rw (b.0, change_heaps-from arch p start_brk brk before v after ptes log b.1 is a) refl

-- Where one area `v` of whole pages meets the heap, and the number p names its k-th page, from 0,
-- the entry of that page becomes noncacheable, on the same frame, and no other entry changes. The
-- page flushed from the TLB is always the first of the area, which is the changed one only for p =
-- 1.
pub change_heaps_page :
    (arch : Arch) (laws : ArchLaws arch) (p k start_brk brk : ℕ) (before : List Vma) (v : Vma)
    (after : List Vma) (ptes : ℕ → ℕ) (log : List Action) (b : ℕ)
    → NoHeap start_brk brk before
    → is_heap start_brk brk v ≡ true
    → NoHeap start_brk brk after
    → IsArea v
    → k * page_size < v.vm_end - v.vm_start
    → p ≡ k + 1
    → let a = v.vm_start + k * page_size in
      let f = change_heaps arch p start_brk brk (before ++ (v ∷ after)) ptes log in
      (f.ptes b ≡ (if b == a then noncached_pte arch v.vm_page_prot (ptes a) else ptes b))
      × (arch.pte_pfn (f.ptes b) ≡ arch.pte_pfn (ptes b))
      × (f.log ≡ log ++ (set_pte a (f.ptes a) ∷ flush_tlb v.vm_start ∷ []))
      × ((v.vm_start ≡ a) ↔ (p ≡ 1))
change_heaps_page arch laws p k start_brk brk before v after ptes log b h is h' area inside number =
    let e = change_heaps-from arch p start_brk brk before v after ptes log h is h' in
    let at : page_address v.vm_start p ≡ v.vm_start + k * page_size = omega (arith, area) in
    (
      ground (arith, e, at),
      ground (
        arith,
        e,
        at,
        laws.pte_pfn-pfn_pte (arch.pte_pfn (ptes b)) (arch.pgprot_noncached v.vm_page_prot),
      ),
      ground (arith, e, at),
      omega arith,
    )
