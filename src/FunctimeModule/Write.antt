-- ===== src/FunctimeModule/Write.antt =====
-- filling_params and memprofile_proc_write of functime_debugger/kernel/functime_kernel_module.c.
pub mod Errors
use blackbox_profiling.Base.{◌>>=◌, ℕ, Bool, Option, none, some, List}
use blackbox_profiling.Linux.{Arch, Gup, Task, Action}
use blackbox_profiling.FunctimeModule.Finder.{VmasParams, Params, get_vma}

-- What `copy_from_user` gives for each copy: `none` where it fails. The two arrays are copied with
-- the lengths that `size` has.
pub record UserCopy : Type 0 where
  pub params : Option (Bool × ℕ)
  pub size : Option (ℕ × ℕ)
  pub page_addr : ℕ → Option (List ℕ)
  pub vma_param : ℕ → Option (List VmasParams)

-- A failed copy leaves the function, which returns nothing: `none` says that `cp` still holds user
-- pointers or uninitialised memory.
unfoldable pub filling_params : UserCopy → Bool × ℕ → Option Params
filling_params u (should_skip, pid) = do
  (vma_list, page_list) ← u.size
  page_addr ← u.page_addr page_list
  vma_param ← u.vma_param vma_list
  some (record {
    vma_param = vma_param;
    page_addr = page_addr;
    should_skip = should_skip;
    pid = pid;
  })

-- `undefined` is a fault of the kernel, or a run on uninitialised memory. A finished write returns
-- 0.
pub data WriteResult : Type 0 where
  efault undefined : WriteResult
  written : List Task → List Action → WriteResult

unfoldable pub memprofile_proc_write : Arch → Gup → UserCopy → List Task → List Action → WriteResult
unfolding filling_params
memprofile_proc_write arch gup u tasks log = elim u.params [
  | none ↦ efault
  | some head ↦ elim (filling_params u head) [
    | none ↦ undefined
    | some cp ↦ elim (get_vma arch gup cp tasks log) [
      | none ↦ undefined
      | some (tasks', log') ↦ written tasks' log'
    ]
  ]
]
