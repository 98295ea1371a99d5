-- ===== src/Loading.antt =====
-- mm_exp_load and mm_exp_unload of functime_debugger/kernel/both_multiple.c and
-- functime_debugger/kernel/functime_kernel_module.c, which are alike, and are those of
-- all_cacheable_except_one_sd_vbs.c and all_noncacheable_except_one_sd_vbs.c too; and those of
-- all_cacheable_except_one.c and all_noncacheable_except_one.c, which map no cache controller.
pub mod Leaves
use blackbox_profiling.Base.{ℕ, if◌then◌else◌, Bool, true, false, Option, none, some}

-- What a load leaves behind: the performance counters that user mode may read, the mapping of the
-- PL310, and the entry in /proc.
pub record Loaded : Type 0 where
  pub counters : Bool
  pub pl310_area : Option ℕ
  pub proc_entry : Bool

-- `no_value` is the `return ;` of a function that returns an int.
pub data LoadResult : Type 0 where
  load_returns : ℕ → Loaded → LoadResult
  no_value : Loaded → LoadResult

-- `ioremap` gives the mapping, and `proc_create` says whether the entry could be made.
unfoldable pub mm_exp_load : Option ℕ → Bool → Loaded → LoadResult
mm_exp_load ioremap proc_create s = elim ioremap [
  | none ↦ load_returns 1 (record s { counters = true; pl310_area = none })
  | some area' ↦
      let mapped : Loaded = record s { counters = true; pl310_area = some area' } in
      if proc_create
      then load_returns 0 (record mapped { proc_entry = true })
      else no_value (record mapped { proc_entry = false })
]

unfoldable pub mm_exp_unload : Loaded → Loaded
mm_exp_unload s = record s { proc_entry = false }

-- The two modules for "hello".
unfoldable pub hello_load : Bool → Loaded → LoadResult
hello_load proc_create s =
    if proc_create
    then load_returns 0 (record s { counters = true; proc_entry = true })
    else no_value (record s { counters = true; proc_entry = false })

-- It only writes a message.
unfoldable pub hello_unload : Loaded → Loaded
hello_unload s = s
