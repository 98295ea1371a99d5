-- ===== src/Tests/Measuring.antt =====
-- The theorems on one run of the tracee at concrete inputs.
use blackbox_profiling.Base.{
  ℕ, ◌==◌, if◌then◌else◌, sub_word, add_word, ◌*◌, ◌≡◌, refl, ◌≢◌, true, false, none, some, List,
  [], ◌∷◌, arith,
}
use blackbox_profiling.Tests.Tracee.{
  toy_tracer, toy_tracee, toy_ptrace_laws, no_lines, Tracee, toy_ptrace, report_last, every_line,
  toy_maps,
}
use blackbox_profiling.Functime.Trace.{
  next, on_init, handle_trace_event, on_entry, Tracer, measured_entry, dispatch, tracee_init,
  on_exit, tracee_exit, get_lr, brkpoint_instr, tracee_entry, set_breakpoint, set_pc,
}
use blackbox_profiling.Functime.Waiting.{
  lost_wakeup, testing, started, lost, moved, Waiting, ended, leave, Step, left_loop, Reach,
}
use blackbox_profiling.Functime.Maps.{
  MapsState, read_proc_maps_file, stack_name, ensure_heap, heap_name, scan_runs,
}
use blackbox_profiling.Functime.Child.{killed_by, spins, child_exit_handler}
use blackbox_profiling.Functime.Maps.Room.{
  last_heap, AllParse, scan_runs_full, read_proc_maps_file_room,
}
use blackbox_profiling.Functime.Child.Ends.{killed_tracee_spins}
use blackbox_profiling.Functime.Trace.Cycle.{cycle_restores}
use blackbox_profiling.Functime.Trace.Handles.{handle_trace_event-next, Works}

abbrev no_maps : MapsState
no_maps = record { used = 1020; vmas = []; heap_size = 0 }

-- Two lines of maps.
abbrev two_lines : List (List ℕ)
two_lines = (b'a' ∷ []) ∷ (b'b' ∷ []) ∷ []

some-none : {A : Type 0} (x : A) → some x ≢ none
some-none x e = cc

heaps_parse : AllParse (every_line heap_name) two_lines
heaps_parse = (some-none _, (some-none _, tt))

stacks_parse : AllParse (every_line stack_name) two_lines
stacks_parse = (some-none _, (some-none _, tt))

read_proc_maps_file_room_example :
    (s' : MapsState) × (read_proc_maps_file (every_line heap_name) (some two_lines) no_maps
      ≡ some s')
    × (s'.used ≡ 1022)
    × (s'.heap_size ≡ 2)
unfolding last_heap
read_proc_maps_file_room_example =
    read_proc_maps_file_room (every_line heap_name) two_lines no_maps heaps_parse (omega arith)

scan_runs_full_example : scan_runs (every_line stack_name) (some two_lines) 3 no_maps ≡ none
unfolding last_heap
scan_runs_full_example =
    scan_runs_full (every_line stack_name) two_lines 3 no_maps stacks_parse refl refl (omega arith)
      (omega arith)

-- The states of a measurement that starts shortly before the counter goes round.
abbrev at_entry : Tracer
at_entry = record toy_tracer { entry_data = 300; stage = tracee_entry }

abbrev tracee_at_entry : Tracee
tracee_at_entry = record toy_tracee {
  text = λ b. if b == 100 then brkpoint_instr else b * 3;
  clock = 4294967289;
}

abbrev at_exit : Tracer
at_exit = record at_entry {
  exit_addr = 200;
  exit_data = 600;
  t_start = 4294967289;
  stage = tracee_exit;
}

abbrev tracee_at_exit : Tracee
tracee_at_exit = record tracee_at_entry {
  text = λ b. if b == 200 then brkpoint_instr else if b == 100 then 300 else tracee_at_entry.text b;
  regs = record { lr = 201; pc = 100 };
  clock = 4294967294;
}

abbrev at_end : Tracer
at_end = record at_exit { t_end = 4294967294; samples = 45; stage = tracee_init }

abbrev tracee_at_end : Tracee
tracee_at_end = record tracee_at_exit {
  text = λ b. if b == 200 then 600 else tracee_at_exit.text b;
  regs = record { lr = 201; pc = 200 };
  clock = 3;
}

first_event :
    handle_trace_event toy_ptrace no_lines toy_tracer toy_tracee ≡ next at_entry tracee_at_entry
unfolding handle_trace_event dispatch on_init set_breakpoint
first_event = refl

second_event :
    handle_trace_event toy_ptrace no_lines at_entry tracee_at_entry ≡ next at_exit tracee_at_exit
unfolding handle_trace_event dispatch measured_entry ensure_heap on_entry set_breakpoint set_pc
    get_lr
second_event = refl

third_event :
    handle_trace_event toy_ptrace no_lines at_exit tracee_at_exit ≡ next at_end tracee_at_end
unfolding handle_trace_event dispatch on_exit set_pc
third_event = refl

cycle_restores_example :
    (at_end.stage ≡ tracee_init)
    × (tracee_at_end.text 100 ≡ 300)
    × (at_end.samples ≡ add_word 40 (sub_word 4294967294 4294967289))
cycle_restores_example =
    cycle_restores toy_ptrace no_lines toy_ptrace_laws toy_tracer at_entry at_exit at_end toy_tracee
      tracee_at_entry tracee_at_exit tracee_at_end 100 refl first_event second_event third_event
      (omega arith) (omega arith) refl refl refl

-- A tracee that is killed.
abbrev killed_tracee : Tracee
killed_tracee = record toy_tracee { reports = killed_by 11 ∷ [] }

killed_tracee_spins_example :
    child_exit_handler toy_ptrace no_lines report_last 1000 false toy_tracer killed_tracee ≡ spins
killed_tracee_spins_example =
    killed_tracee_spins toy_ptrace no_lines report_last 1000 false 7 11 toy_tracer killed_tracee
      toy_tracee refl refl

abbrev waiting : Waiting
waiting = record { place = testing; done = false; alive = true }

lost_wakeup_example : Reach waiting lost × ¬ (Step lost lost)
lost_wakeup_example = lost_wakeup waiting lost refl refl refl

abbrev left : Waiting
left = record { place = left_loop; done = false; alive = false }

Reach-left : Reach waiting left
Reach-left = moved (moved started (ended refl)) (leave refl refl)

pub toy-Works : Works toy_ptrace
toy-Works = record {
  poke_works = λ t a v. (_, refl);
  getregs_works = λ t. (_, refl);
  setregs_works = λ t r. (_, refl);
  cont_works = λ t. (_, refl);
}

handle_trace_event-next_example :
    (g' : Tracer) × (t' : Tracee) × (handle_trace_event toy_ptrace no_lines at_entry tracee_at_entry
      ≡ next g' t')
    × (g'.stage ≡ tracee_exit)
    × (g'.maps ≡ toy_maps)
handle_trace_event-next_example =
    handle_trace_event-next toy_ptrace toy-Works no_lines at_entry tracee_at_entry (omega arith)
