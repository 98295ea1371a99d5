-- ===== src/CacheLines/Cover.antt =====
-- The loops end, and they clean each of the 128 lines of the page once, in order.
use blackbox_profiling.Base.{
  ℕ, zero, suc, ◌+◌, ◌*◌, ◌%◌, ◌<◌, ◌≡◌, refl, ap, ◌∙◌, arith, some, List, [], ◌∷◌, map, length,
  get_elem?, length-map, word, add_word, page_size,
}
use blackbox_profiling.Linux.{Action, clean_l1, clean_l2}
use blackbox_profiling.CacheLines.{line_loop, page_lines, invalidate_page_l1, invalidate_page_l2}

-- `n` lines from `tmp` on, going round at the end of the address space.
abbrev pub lines_from : ℕ → ℕ → List ℕ
lines_from zero tmp = []
lines_from (suc n) tmp = tmp ∷ lines_from n (add_word tmp 32)

-- With `n + 1` lines left, at most a page of them, the loop takes `n + 1` rounds.
line_loop-lines_from :
    (n tmp end : ℕ)
    → tmp < word
    → n < 128
    → end ≡ (tmp + (n + 1) * 32) % word
    → line_loop (suc n) tmp end ≡ some (lines_from (suc n) tmp)
unfolding line_loop
line_loop-lines_from zero tmp end h k e = ground arith
line_loop-lines_from (suc n) tmp end h k e =
    ground (arith, line_loop-lines_from n (add_word tmp 32) end)

page_lines_lem : (addr : ℕ) → page_lines addr ≡ some (lines_from 128 (addr % word))
page_lines_lem addr =
    line_loop-lines_from 127 (addr % word) (add_word addr page_size) (omega arith) (omega arith)
      (omega arith)

-- The actions that clean the page at an address, as a list.
unfoldable pub l1_actions : ℕ → List Action
l1_actions va = map clean_l1 (lines_from 128 (va % word))

unfoldable pub l2_actions : ℕ → List Action
l2_actions pa = map clean_l2 (lines_from 128 (pa % word))

pub invalidate_page_l1_lem : (va : ℕ) → invalidate_page_l1 va ≡ some (l1_actions va)
unfolding invalidate_page_l1 l1_actions
invalidate_page_l1_lem va = rw (page_lines_lem va)

pub invalidate_page_l2_lem : (pa : ℕ) → invalidate_page_l2 pa ≡ some (l2_actions pa)
unfolding invalidate_page_l2 l2_actions
invalidate_page_l2_lem pa = rw (page_lines_lem pa)

length-lines_from : (n tmp : ℕ) → length (lines_from n tmp) ≡ n
length-lines_from zero tmp = refl
length-lines_from (suc n) tmp = ap suc (length-lines_from n (add_word tmp 32))

get_elem?-lines_from :
    (f : ℕ → Action) (n tmp k : ℕ)
    → tmp < word
    → k < n
    → get_elem? (map f (lines_from n tmp)) k ≡ some (f ((tmp + k * 32) % word))
get_elem?-lines_from f zero tmp k h l = elim l [ ]
get_elem?-lines_from f (suc n) tmp zero h l = ap (λ t. some (f t)) (omega arith)
get_elem?-lines_from f (suc n) tmp (suc k) h l =
    get_elem?-lines_from f n (add_word tmp 32) k (omega arith) (omega arith)
    ∙ ap (λ t. some (f t)) (omega arith)

-- Both loops end for every address, after 128 lines; the k-th line that each cleans is the one 32 k
-- bytes behind the address, going round at the end of the address space.
pub invalidate_page_covers :
    (va pa k : ℕ)
    → k < 128
    → (l1 l2 : List Action) × (invalidate_page_l1 va ≡ some l1)
      × (invalidate_page_l2 pa ≡ some l2)
      × (length l1 ≡ 128)
      × (length l2 ≡ 128)
      × (get_elem? l1 k ≡ some (clean_l1 ((va + k * 32) % word)))
      × (get_elem? l2 k ≡ some (clean_l2 ((pa + k * 32) % word)))
unfolding l1_actions l2_actions
invalidate_page_covers va pa k h = (
  l1_actions va,
  l2_actions pa,
  invalidate_page_l1_lem va,
  invalidate_page_l2_lem pa,
  length-map clean_l1 (lines_from 128 (va % word)) ∙ length-lines_from 128 (va % word),
  length-map clean_l2 (lines_from 128 (pa % word)) ∙ length-lines_from 128 (pa % word),
  get_elem?-lines_from clean_l1 128 (va % word) k (omega arith) h
      ∙ ap (λ t. some (clean_l1 t)) (omega arith),
  get_elem?-lines_from clean_l2 128 (pa % word) k (omega arith) h
      ∙ ap (λ t. some (clean_l2 t)) (omega arith),
)
