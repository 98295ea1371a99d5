-- ===== src/CacheLines.antt =====
-- The two assembly loops that clean a page from the caches (functime_kernel_module.c,
-- invalidate_page_l1 and invalidate_page_l2): do { clean tmp; tmp += 32; } while (tmp != end).
pub mod Cover
use blackbox_profiling.Base.{
  ℕ, zero, suc, ◌%◌, Option, none, some, List, [], ◌∷◌, map, ◌==◌, if◌then◌else◌, ◌>>=◌, word,
  add_word, page_size,
}
use blackbox_profiling.Linux.{Action, clean_l1, clean_l2}

-- The lines touched from `tmp` on; `none` means that the fuel ran out.
pub line_loop : ℕ → ℕ → ℕ → Option (List ℕ)
line_loop zero tmp end = none
line_loop (suc fuel) tmp end =
    let after = add_word tmp 32 in
    let rest = line_loop fuel after end >>= (λ ls. some (tmp ∷ ls)) in
    if after == end then some (tmp ∷ []) else rest

-- A page has 128 lines of 32 bytes.
abbrev pub line_fuel : ℕ
line_fuel = 128

abbrev pub page_lines : ℕ → Option (List ℕ)
page_lines addr = line_loop line_fuel (addr % word) (add_word addr page_size)

-- The line at `va_addr` and on is cleaned from L1 by its virtual address.
unfoldable pub invalidate_page_l1 : ℕ → Option (List Action)
unfolding line_loop
invalidate_page_l1 va_addr = do ls ← page_lines va_addr; some (map clean_l1 ls)

-- The line at `pa_addr` and on is cleaned from L2 by its physical address.
unfoldable pub invalidate_page_l2 : ℕ → Option (List Action)
unfolding line_loop
invalidate_page_l2 pa_addr = do ls ← page_lines pa_addr; some (map clean_l2 ls)
