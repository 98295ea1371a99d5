-- ===== src/Functime/Trace.antt =====
-- The breakpoints of functime_debugger/functime.c: set_breakpoint, get_LR, set_PC and
-- handle_trace_event. What ptrace, the performance counter and the kernel module do to the tracee
-- is an interface. Words are those of the ARM target, so -1 is 0xffffffff.
pub mod Laws
pub mod Restores
pub mod Cycle
pub mod Elapsed
pub mod Handles
pub mod Plants
pub mod Keeps
use blackbox_profiling.Base.{
  ℕ, ◌>>=◌, ◌==◌, if◌then◌else◌, add_word, sub_word, ◌*◌, ◌/◌, Bool, Option, none, some, List,
}
use blackbox_profiling.Functime.Maps.{MapsState, MapsLine, ensure_heap}

-- The registers that the profiler reads and writes.
pub record Regs : Type 0 where
  pub lr : ℕ
  pub pc : ℕ

-- What is written to /proc/memprofile; `size` is the length of the list.
pub record KernelParams : Type 0 where
  pub buff : List ℕ
  pub should_skip : Bool
  pub pid : ℕ

-- PTRACE_PEEKTEXT gives a word, which is -1 if it fails. The other requests give the tracee that
-- they leave behind, or `none` if they fail. `timing` reads the cycle counter, `maps` the lines of
-- /proc/PID/maps, and `proc_write` is the write to the kernel module.
pub record Ptrace (T : Type 0) : Type 0 where
  pub peektext : T → ℕ → ℕ
  pub poketext : T → ℕ → ℕ → Option T
  pub getregs : T → Option Regs
  pub setregs : T → Regs → Option T
  pub cont : T → Option T
  pub timing : T → ℕ
  pub maps : T → Option (List (List ℕ))
  pub proc_write : T → KernelParams → T

abbrev pub minus_one : ℕ
minus_one = 4294967295

-- BRKPOINT_INSTR.
abbrev pub brkpoint_instr : ℕ
brkpoint_instr = 4294967295

-- addr & ARM_ISA_MASK: the lowest bit is cleared.
abbrev pub arm_isa_mask : ℕ → ℕ
arm_isa_mask addr = addr / 2 * 2

pub data Stage : Type 0 where
  tracee_entry tracee_exit tracee_init : Stage

-- The globals that a trace event reads and writes. `entry` and `exit` are the two places of
-- `brkpnt_addr` and `brkpnt_data`.
pub record Tracer : Type 0 where
  pub stage : Stage
  pub entry_addr : ℕ
  pub entry_data : ℕ
  pub exit_addr : ℕ
  pub exit_data : ℕ
  pub t_start : ℕ
  pub t_end : ℕ
  pub samples : ℕ
  pub params : KernelParams
  pub tracee_pid : ℕ
  pub maps : MapsState

-- A handler goes on, ends the profiler with EXIT_FAILURE, or crashes it.
pub data Outcome (T : Type 0) : Type 0 where
  next : Tracer → T → Outcome T
  exit_failure crashed : Outcome T

module _ {T : Type 0} (os : Ptrace T) where
  open os use {peektext, poketext, getregs, setregs, cont, timing, proc_write}

  -- The old instruction, or -1 if it cannot be read or replaced.
  unfoldable pub set_breakpoint : T → ℕ → ℕ × T
  set_breakpoint t addr =
      let data' = peektext t addr in
      let poked : ℕ × T = elim (poketext t addr brkpoint_instr) [
        | none ↦ (minus_one, t)
        | some t' ↦ (data', t')
      ] in
      if data' == minus_one then (minus_one, t) else poked

  unfoldable pub get_lr : T → ℕ
  get_lr t = elim (getregs t) [ none ↦ minus_one | some r ↦ r.lr ]

  -- `none` is the result -1.
  unfoldable pub set_pc : T → ℕ → Option T
  set_pc t addr = do r ← getregs t; setregs t (record r { pc = addr })

  -- What an optional result leads to: `exit (EXIT_FAILURE)` where there is none.
  abbrev pub or_exit : Option T → (T → Outcome T) → Outcome T
  or_exit none k = exit_failure
  or_exit (some t) k = k t

  -- The program has just been started: the entry of the function gets its breakpoint.
  unfoldable pub on_init : Tracer → T → Outcome T
  on_init g t =
      let (data', t') = set_breakpoint t g.entry_addr in
      or_exit (cont t') (λ t''. next (record g { entry_data = data'; stage = tracee_entry }) t'')

  -- The breakpoint at the entry has been hit, and the heap is known: the kernel module is called,
  -- the instruction put back, and the return address gets the second breakpoint.
  unfoldable pub on_entry : Tracer → T → Outcome T
  on_entry g t =
      let params = record g.params { pid = g.tracee_pid } in
      or_exit (poketext (proc_write t params) g.entry_addr g.entry_data) (λ t1.
        or_exit (set_pc t1 g.entry_addr) (λ t2.
          let exit_addr = arm_isa_mask (get_lr t2) in
          let (data', t3) = set_breakpoint t2 exit_addr in
          or_exit (cont t3) (λ t4.
            next
              (record g {
                params = params;
                exit_addr = exit_addr;
                exit_data = data';
                t_start = timing t3;
                stage = tracee_exit;
              })
              t4)))

  -- The breakpoint at the return address has been hit. The difference of the times is unsigned, and
  -- is added to an `int`, here its bit pattern.
  unfoldable pub on_exit : Tracer → T → Outcome T
  on_exit g t =
      let t_end = timing t in
      let samples = add_word g.samples (sub_word t_end g.t_start) in
      or_exit (poketext t g.exit_addr g.exit_data) (λ t1. or_exit (set_pc t1 g.exit_addr) (λ t2.
        or_exit (cont t2)
          (λ t3. next (record g { t_end = t_end; samples = samples; stage = tracee_init }) t3)))

  module _ (sscanf : List ℕ → Option MapsLine) where
    -- The heap is measured before the rest of the stage.
    unfoldable pub measured_entry : Tracer → T → Outcome T
    measured_entry g t = elim (ensure_heap sscanf (os.maps t) g.maps) [
      | none ↦ crashed
      | some m ↦ on_entry (record g { maps = m }) t
    ]

    unfoldable pub dispatch : Stage → Tracer → T → Outcome T
    dispatch tracee_init g t = on_init g t
    dispatch tracee_entry g t = measured_entry g t
    dispatch tracee_exit g t = on_exit g t

    -- Any stop of the tracee is taken for the event that the stage waits for.
    unfoldable pub handle_trace_event : Tracer → T → Outcome T
    handle_trace_event g t = dispatch g.stage g t

-- What the message "OVERFLOW" reports where the counter went round between the two readings.
unfoldable pub overflow_report : ℕ → ℕ → ℕ
overflow_report t_start t_end = add_word (sub_word 4294967295 t_start) t_end
