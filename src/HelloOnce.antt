-- ===== src/HelloOnce.antt =====
-- noncacheable_except_one/hello.c: the program to be measured, which sends one page number to its
-- kernel module, all_noncacheable_except_one.c, and writes into a buffer behind that. What locks
-- and opens files is taken to succeed; strtol is a parameter.
pub mod Pages
use blackbox_profiling.Base.{ℕ, Option, none, some, List, [], ◌∷◌}
use blackbox_profiling.Hello.{fill_all}
use blackbox_profiling.AllButOne.{printed, print_efault, print_proc_write, print_fault}
use blackbox_profiling.Linux.{Arch, Task}

-- The buffer, the pages that the module has printed, and the line of the result: the page number
-- and the cycles that the writes took.
pub record OnceState : Type 0 where
  pub buf : ℕ → ℕ
  pub seen : List ℕ
  pub line : ℕ × ℕ

-- The writes into the buffer, with the cycles counted around them.
abbrev pub once_timed : (List ℕ → ℕ) → ℕ → List ℕ → (ℕ → ℕ) → OnceState
once_timed cycles page seen buf = record {
  buf = fill_all 500 0 buf;
  seen = seen;
  line = (page, cycles seen);
}

-- `argv` is what stands behind the name of the program; without an argument strtol reads at NULL.
-- The result of the write is not looked at. `none` is a fault of the program or of the kernel.
unfoldable pub hello_once :
    Arch → (List ℕ → ℕ) → (List ℕ → ℕ) → List (List ℕ) → List Task → (ℕ → ℕ) → Option OnceState
hello_once arch strtol cycles [] tasks buf = none
hello_once arch strtol cycles (arg ∷ args) tasks buf =
    let page_number = strtol arg in
    elim (print_proc_write arch (some page_number) tasks) [
      | print_efault ↦ some (once_timed cycles page_number [] buf)
      | print_fault ↦ none
      | printed seen ↦ some (once_timed cycles page_number seen buf)
    ]
