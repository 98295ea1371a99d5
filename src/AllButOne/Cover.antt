-- ===== src/AllButOne/Cover.antt =====
-- The pages that are walked.
use blackbox_profiling.Base.{
  ℕ, ◌==◌, page_size, word, ◌+◌, ◌*◌, ◌≤◌, ◌<◌, ◌≡◌, ◌≢◌, ◌⊎◌, false, not, arith,
}
use blackbox_profiling.AllButOne.{in_ranges, page_ranges}

-- In a heap of n pages, for a page number p from 1 to n, the ranges hold every page but the p-th,
-- as long as p is not 45 or the heap has exactly 45 pages.
pub page_ranges_cover :
    (p n k vm_start vm_end : ℕ)
    → 0 < p
    → p ≤ n
    → k < n
    → vm_end ≡ vm_start + n * page_size
    → vm_end < word
    → (p ≢ 45) ⊎ (n ≡ 45)
    → in_ranges (vm_start + k * page_size) (page_ranges p vm_start vm_end) ≡ not (k + 1 == p)
unfolding page_ranges
page_ranges_cover p n k vm_start vm_end pos le lt end' fits fits45 = ground arith

-- In a larger heap, for the number 45 the pages behind the 45th are left out.
pub page_ranges_short :
    (n k vm_start vm_end : ℕ)
    → 45 ≤ k
    → k < n
    → vm_end ≡ vm_start + n * page_size
    → vm_end < word
    → in_ranges (vm_start + k * page_size) (page_ranges 45 vm_start vm_end) ≡ false
unfolding page_ranges
page_ranges_short n k vm_start vm_end ge lt end' fits = ground arith
