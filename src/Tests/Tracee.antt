-- ===== src/Tests/Tracee.antt =====
-- A small tracee under ptrace: its program text, its registers, a clock that goes up by five while
-- it runs, the statuses that it still has to report, and those for which a signal has arrived.
use blackbox_profiling.Base.{
  ℕ, ◌==◌, if◌then◌else◌, add_word, ◌*◌, ◌≡◌, refl, inl, inr, true, Option, none, some, List, [],
  ◌∷◌, arith, ◌%◌,
}
use blackbox_profiling.Functime.Trace.{
  on_init, measured_entry, dispatch, set_breakpoint, Ptrace, KernelParams, handle_trace_event,
  on_exit, Tracer, tracee_init, Regs, on_entry, set_pc, next,
}
use blackbox_profiling.Functime.Maps.{MapsState, MapsLine}
use blackbox_profiling.Functime.Child.{
  WaitResult, no_child, no_change, child, WaitStatus, stopped_by, exited_with,
}
use blackbox_profiling.Functime.Trace.Laws.{PtraceLaws}
use blackbox_profiling.Functime.Trace.Handles.{Stage-cases}
use blackbox_profiling.Functime.Start.{Spawn}

pub record Tracee : Type 0 where
  pub text : ℕ → ℕ
  pub regs : Regs
  pub clock : ℕ
  pub reports : List WaitStatus
  pub arrived : List WaitStatus

abbrev pub toy_ptrace : Ptrace Tracee
toy_ptrace = record {
  peektext = λ t a. t.text a;
  poketext = λ t a v. some (record t { text = λ b. if b == a then v else t.text b });
  getregs = λ t. some t.regs;
  setregs = λ t r. some (record t { regs = r });
  cont = λ t. some (record t { clock = add_word t.clock 5 });
  timing = λ t. t.clock;
  maps = λ t. some [];
  proc_write = λ t p. t;
}

-- The addresses of the words.
abbrev pub IsWord : ℕ → Type 0
IsWord a = a % 4 ≡ 0

pub toy_ptrace_laws : PtraceLaws toy_ptrace IsWord
toy_ptrace_laws = record {
  peek-poke_same = λ t t' a v e. ground (arith, e);
  text_apart = λ a b ta tb n. omega (arith, ta, tb, n);
  peek-poke_other = λ t t' a b v e n. ground (arith, e, n);
  getregs-poke = λ t t' a v e. ground (arith, e);
  peek-setregs = λ t t' r a e. ground (arith, e);
  getregs-setregs = λ t t' r e. ground (arith, e);
  peek-proc_write = λ t p a. refl;
  getregs-proc_write = λ t p. refl;
  peek-cont = λ t t' a h e. ground (arith, e);
}

-- No line of the maps is understood.
abbrev pub no_lines : List ℕ → Option MapsLine
no_lines buf = none

-- Every line names a mapping of two pages with the name that `c` and `cs` spell.
abbrev pub every_line : List ℕ → List ℕ → Option MapsLine
every_line name buf = some (record {
  start = 8192;
  end = 16384;
  perms = b'r' ∷ b'w' ∷ b'-' ∷ b'p' ∷ [];
  offset = 0;
  dev = [];
  inode = 0;
  mappedfile = name;
})

abbrev pub toy_maps : MapsState
toy_maps = record { used = 0; vmas = []; heap_size = 2 }

abbrev pub toy_params : KernelParams
toy_params = record { buff = 0 ∷ []; should_skip = true; pid = 7 }

-- Before the first event of a measurement of the function at 100.
abbrev pub toy_tracer : Tracer
toy_tracer = record {
  stage = tracee_init;
  entry_addr = 100;
  entry_data = 0;
  exit_addr = 0;
  exit_data = 0;
  t_start = 0;
  t_end = 0;
  samples = 40;
  params = toy_params;
  tracee_pid = 7;
  maps = toy_maps;
}

abbrev pub toy_tracee : Tracee
toy_tracee = record {
  text = λ a. a * 3;
  regs = record { lr = 201; pc = 0 };
  clock = 4294967284;
  reports = [];
  arrived = [];
}

-- The next report, or no child.
abbrev pub report_last : Tracee → WaitResult × Tracee
report_last t = elim t.reports [
  | [] ↦ (no_child, t)
  | st ∷ rest ↦ (child 7 st, record t { reports = rest })
]

-- An event that is handled leaves the reports as they are.
pub handle-reports :
    (sscanf : List ℕ → Option MapsLine) (g g' : Tracer) (t t' : Tracee)
    → handle_trace_event toy_ptrace sscanf g t ≡ next g' t'
    → (t'.reports ≡ t.reports) × (t'.arrived ≡ t.arrived)
unfolding handle_trace_event dispatch on_init measured_entry on_entry on_exit set_breakpoint set_pc
handle-reports sscanf g g' t t' e = elim (Stage-cases g.stage) [
  | inl s ↦ (ground (arith, e, s), ground (arith, e, s))
  | inr (inl s) ↦ (ground (arith, e, s), ground (arith, e, s))
  | inr (inr s) ↦ (ground (arith, e, s), ground (arith, e, s))
]

-- The next report arrives with its signal, and is waited for.
abbrev pub arrive : Tracee → Option Tracee
arrive t = elim t.reports [
  | [] ↦ none
  | st ∷ rest ↦ some (record t { reports = rest; arrived = st ∷ [] })
]

abbrev pub wait_arrived : Tracee → WaitResult × Tracee
wait_arrived t = elim t.arrived [
  | [] ↦ (no_change, t)
  | st ∷ rest ↦ (child 7 st, record t { arrived = rest })
]

-- A child that stops three times and exits.
abbrev pub toy_spawn : Spawn Tracee
toy_spawn = record {
  fork = λ t. some (7, t);
  calls =
      λ t. record { scheduled = true; pinned = true; traceme = true; getcpu = true; execv = true };
  start = λ s t. record t {
    reports = stopped_by 5 ∷ stopped_by 4 ∷ stopped_by 4 ∷ exited_with 0 ∷ [];
    arrived = [];
  };
}
