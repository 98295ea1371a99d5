-- ===== src/Tests/Modules.antt =====
-- The theorems on the kernel modules at concrete inputs.
use blackbox_profiling.Base.{
  ℕ, get_elem?, length, ◌≡◌, ◌⊎◌, inl, true, false, Option, none, some, List, [], ◌∷◌, arith,
}
use blackbox_profiling.CacheLines.{invalidate_page_l1, invalidate_page_l2}
use blackbox_profiling.Linux.{Action, clean_l1, clean_l2}
use blackbox_profiling.Tests.Machine.{
  heap_IsArea, heap_area, toy_areas, toy_gup_laws, toy_gup, toy_mm, toy_arch, toy_arch_laws,
}
use blackbox_profiling.FunctimeModule.Modifier.{Walk}
use blackbox_profiling.FunctimeModule.Populate.{finished, mm_populate, Pop}
use blackbox_profiling.FunctimeModule.Finder.{change_area}
use blackbox_profiling.FunctimeModule.Populate.Ends.{mm_populate_returns}
use blackbox_profiling.FunctimeModule.Finder.Area.{change_area_outside}
use blackbox_profiling.CacheLines.Cover.{invalidate_page_covers}

invalidate_page_covers_example :
    (l1 l2 : List Action) × (invalidate_page_l1 4294967264 ≡ some l1)
    × (invalidate_page_l2 8192 ≡ some l2)
    × (length l1 ≡ 128)
    × (length l2 ≡ 128)
    × (get_elem? l1 1 ≡ some (clean_l1 0))
    × (get_elem? l2 1 ≡ some (clean_l2 8224))
invalidate_page_covers_example = invalidate_page_covers 4294967264 8192 1 (omega arith)

abbrev heap_walk : Walk
heap_walk = record { area = heap_area; ptes = toy_mm.ptes; log = [] }

mm_populate_returns_example :
    (o : Option ℕ) × (t : Pop) × (mm_populate toy_gup toy_mm.mmap true 12288 12288 toy_mm.ptes
      ≡ finished o t)
    × ((o ≡ none) ⊎ (true ≡ false))
mm_populate_returns_example =
    mm_populate_returns toy_gup toy_gup_laws toy_mm.mmap true 12288 12288 toy_mm.ptes toy_areas
      (omega arith) (omega arith) (omega arith)

change_area_outside_example :
    (t : Pop) × (w : Walk) × (mm_populate toy_gup toy_mm.mmap true 12288 12288 toy_mm.ptes
      ≡ finished none t)
    × (change_area toy_arch toy_gup true (2 ∷ []) toy_mm.mmap heap_area toy_mm.ptes [] ≡ some w)
    × (w.ptes 4096 ≡ t.ptes 4096)
change_area_outside_example =
    change_area_outside toy_arch toy_arch_laws toy_gup toy_gup_laws true (2 ∷ []) toy_mm.mmap
      toy_areas heap_area heap_IsArea toy_mm.ptes [] 4096 (inl (omega arith))
