-- ===== src/Hello.antt =====
-- cacheable_except_one/hello.c: the program to be measured, which sends the page numbers 1 to 44 to
-- its kernel module, all_cacheable_except_one.c, and writes into a buffer behind each. `none` is a
-- fault of the kernel. What locks and opens files is taken to succeed.
pub mod Buffer
pub mod Rounds
use blackbox_profiling.Base.{
  ◌>>=◌, ℕ, zero, suc, ◌+◌, ◌%◌, ◌==◌, if◌then◌else◌, update, Option, none, some, List, [], ◌∷◌,
  ◌++◌,
}
use blackbox_profiling.Linux.{Task, Arch, Action}
use blackbox_profiling.SinglePage.{page_proc_write}
use blackbox_profiling.FunctimeModule.Write.{written, efault, undefined}

-- The processes, the actions of the kernel, the buffer, and the lines of the result: a page number
-- and the cycles that the writes took.
pub record HelloState : Type 0 where
  pub tasks : List Task
  pub log : List Action
  pub buf : ℕ → ℕ
  pub lines : List (ℕ × ℕ)

-- BUF_SIZE / 32.
abbrev pub steps : ℕ
steps = 1600

-- A `char` of a number.
abbrev pub char_of : ℕ → ℕ
char_of n = n % 256

-- The inner loop, with the index `c`.
pub fill_buf : ℕ → ℕ → ℕ → (ℕ → ℕ) → ℕ → ℕ
fill_buf zero c i buf = buf
fill_buf (suc n) c i buf =
    let first = if c % 5 == 0 then update buf c (char_of c) else buf in
    fill_buf n (c + 32) i (update first c (char_of i))

-- The outer loop.
pub fill_all : ℕ → ℕ → (ℕ → ℕ) → ℕ → ℕ
unfolding fill_buf
fill_all zero i buf = buf
fill_all (suc n) i buf = fill_all n (i + 1) (fill_buf steps 0 i buf)

module _ (arch : Arch) (cycles : HelloState → ℕ) where
  -- One round. The result of the write is not looked at; `cycles` is the time of the loops behind
  -- it.
  unfoldable pub hello_round : ℕ → HelloState → Option HelloState
  hello_round page s =
      let run_from = λ (u : HelloState).
        some
          (record u { buf = fill_all 500 0 u.buf; lines = u.lines ++ ((page, cycles u) ∷ []) }) in
      elim (page_proc_write arch (some page) s.tasks s.log) [
        | written tasks log ↦ run_from (record s { tasks = tasks; log = log })
        | efault ↦ run_from s
        | undefined ↦ none
      ]

  unfoldable pub hello_rounds : ℕ → ℕ → HelloState → Option HelloState
  hello_rounds zero page s = some s
  hello_rounds (suc n) page s = hello_round page s >>= (λ s'. hello_rounds n (page + 1) s')

  abbrev pub hello_main : HelloState → Option HelloState
  hello_main s = hello_rounds 44 1 s
