-- ===== src/TwoLoops/Cells.antt =====
-- What becomes of the cells.
use blackbox_profiling.Base.{
  ℕ, if◌then◌else◌, ◌==◌, ltb, update, zero, suc, ◌+◌, ◌*◌, ◌<◌, ◌≡◌, refl, ◌∙◌, ◌&&◌, arith, ◌%◌,
}
use blackbox_profiling.Hello.{char_of}
use blackbox_profiling.TwoLoops.{count_cells, buf2_cells, count_rounds, loop, buf_cells}

count_cells-below : (n c a : ℕ) (buf : ℕ → ℕ) → a < c → count_cells n c buf a ≡ buf a
unfolding count_cells
count_cells-below zero c a buf h = refl
count_cells-below (suc n) c a buf h =
    count_cells-below n (c + 64) a (update buf c (char_of (buf c + 1))) (omega (arith, h))
    ∙ ground (arith, h)

-- The cell j, and what stands r places behind it.
count_cells-at :
    (n c j r : ℕ) (buf : ℕ → ℕ)
    → r < 64
    → let a = c + j * 64 + r in
      count_cells n c buf a ≡ (if r == 0 && ltb j n then char_of (buf a + 1) else buf a)
unfolding count_cells
count_cells-at zero c j r buf h = ground (arith, h)
count_cells-at (suc n) c zero r buf h =
    count_cells-below n (c + 64) (c + zero * 64 + r) (update buf c (char_of (buf c + 1)))
      (omega (arith, h))
    ∙ grind (arith, h)
count_cells-at (suc n) c (suc j) r buf h =
    let same : c + suc j * 64 + r ≡ c + 64 + j * 64 + r = omega arith in
    rw same
      (count_cells-at n (c + 64) j r (update buf c (char_of (buf c + 1))) h ∙ grind (arith, h))

-- A round of the outer loop counts each cell up by one.
count_rounds-at :
    (m cells j r : ℕ) (buf : ℕ → ℕ)
    → r < 64
    → let a = j * 64 + r in
      buf a < 256
      → count_rounds m cells buf a ≡ (if r == 0 && ltb j cells then char_of (buf a + m) else buf a)
unfolding count_rounds
count_rounds-at zero cells j r buf h small = grind (arith, h, small)
count_rounds-at (suc m) cells j r buf h small =
    let once = count_cells-at cells 0 j r buf h in
    let same : 0 + j * 64 + r ≡ j * 64 + r = omega arith in
    let here : count_cells cells 0 buf (j * 64 + r)
        ≡ (if r == 0 && ltb j cells then char_of (buf (j * 64 + r) + 1) else buf (j * 64 + r)) =
      rw same at once in
    count_rounds-at m cells j r (count_cells cells 0 buf) h (ground (arith, here, small))
    ∙ ground (arith, here, small)

-- Where the cells of both buffers are `char`s, `loop` counts up every 64th cell of the first 51200
-- of `buf` by 1000, which is 232 with the rounds of a `char` taken off, and every 64th of the first
-- 512000 of `buf2` by 100, each going round behind 255, and leaves every other cell as it was.
pub loop_lem :
    (j r : ℕ) (buf buf2 : ℕ → ℕ) (chars : (c : ℕ) → buf c < 256) (chars2 : (c : ℕ) → buf2 c < 256)
    → r < 64
    → let a = j * 64 + r in
      ((loop buf buf2).0 a ≡ (if r == 0 && ltb j 800 then (buf a + 232) % 256 else buf a))
      × ((loop buf buf2).1 a ≡ (if r == 0 && ltb j 8000 then (buf2 a + 100) % 256 else buf2 a))
unfolding loop
loop_lem j r buf buf2 chars chars2 h = (
  count_rounds-at 1000 buf_cells j r buf h (chars (j * 64 + r)) ∙ ground arith,
  count_rounds-at 100 buf2_cells j r buf2 h (chars2 (j * 64 + r)),
)
