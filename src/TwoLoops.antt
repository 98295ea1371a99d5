-- ===== src/TwoLoops.antt =====
-- elf_manipulator/two_loops.c: a program to be measured, whose function `loop` counts up cells of
-- two buffers.
pub mod Cells
use blackbox_profiling.Base.{ℕ, update, zero, suc, ◌+◌}
use blackbox_profiling.Hello.{char_of}

-- BUF_SIZE / 64 and BUF2_SIZE / 64.
abbrev pub buf_cells : ℕ
buf_cells = 800

abbrev pub buf2_cells : ℕ
buf2_cells = 8000

-- The inner loops, which are alike, with the index `c`: a `char` is counted up, and goes round.
unfoldable pub count_cells : ℕ → ℕ → (ℕ → ℕ) → ℕ → ℕ
count_cells zero c buf = buf
count_cells (suc n) c buf = count_cells n (c + 64) (update buf c (char_of (buf c + 1)))

-- The outer loops.
unfoldable pub count_rounds : ℕ → ℕ → (ℕ → ℕ) → ℕ → ℕ
unfolding count_cells
count_rounds zero cells buf = buf
count_rounds (suc n) cells buf = count_rounds n cells (count_cells cells 0 buf)

-- loop, on the two buffers that main allocates.
unfoldable pub loop : (ℕ → ℕ) → (ℕ → ℕ) → (ℕ → ℕ) × (ℕ → ℕ)
unfolding count_rounds
loop buf buf2 = (count_rounds 1000 buf_cells buf, count_rounds 100 buf2_cells buf2)
