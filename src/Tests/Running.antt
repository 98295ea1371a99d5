-- ===== src/Tests/Running.antt =====
-- The theorems on whole runs of the tracee, and on main, at concrete inputs.
use blackbox_profiling.Base.{
  ◌*◌, ◌%◌, ◌≡◌, refl, arith, ℕ, suc, ap, ◌∙◌, List, [], ◌∷◌, some, ◌==◌, if◌then◌else◌, length,
  zero, ◌↔◌, true, map,
}
use blackbox_profiling.Functime.Run.Serves.{Serves, stops, exits_now}
use blackbox_profiling.Tests.Tracee.{
  wait_arrived, toy_maps, no_lines, arrive, toy_spawn, Tracee, toy_ptrace, handle-reports,
  toy_tracer, IsWord, toy_tracee, toy_ptrace_laws,
}
use blackbox_profiling.Functime.Maps.{MapsState}
use blackbox_profiling.Functime.Start.{run_debuggee, set_realtime, run_child}
use blackbox_profiling.Functime.Trace.Plants.{Planted, handle_trace_event-Planted}
use blackbox_profiling.Functime.Program.Whole.{RunsThrice, main_lem, Ready}
use blackbox_profiling.Tests.Measuring.{toy-Works}
use blackbox_profiling.Functime.Trace.{
  Tracer, tracee_init, tracee_entry, brkpoint_instr, dispatch, on_init, next, set_breakpoint,
  handle_trace_event,
}
use blackbox_profiling.Functime.Child.{stopped_by, exited_with, WaitStatus, no_change}
use blackbox_profiling.Functime.Trace.Handles.{handle_trace_event-next, next_stage}
use blackbox_profiling.Tests.Symbols.{symtab, toy_symbols}
use blackbox_profiling.Functime.Profile.{Laddered}
use blackbox_profiling.Functime.Program.{goes_on, Setting, main}
use blackbox_profiling.Functime.Symbols.{resolved, resolve_symbol}
use blackbox_profiling.Functime.Options.{parse_options, Opt, parsed, no_settings, Settings}
use blackbox_profiling.Functime.Run.{run_once}
use blackbox_profiling.Functime.Run.Stages.{run_once_lem}
use blackbox_profiling.Functime.Options.Help.{NoStop, parse_options_lem}
use blackbox_profiling.Functime.Symbols.Lookup.{resolve_symbol-lookup_symbol}

-- Two heaps of pages are known from the start.
abbrev Known : MapsState → Tracee → Type 0
Known m t = m ≡ toy_maps

pub arrive_lem :
    (t : Tracee) (st : WaitStatus) (rest : List WaitStatus)
    → t.reports ≡ st ∷ rest
    → arrive t ≡ some (record t { reports = rest; arrived = st ∷ [] })
arrive_lem t st rest r = rw (r, arrive) refl

pub wait_arrived-none : (t : Tracee) → t.arrived ≡ [] → wait_arrived t ≡ (no_change, t)
wait_arrived-none t a = ground (arith, a)

pub one_stop :
    (g : Tracer) (t : Tracee) (sig : ℕ) (rest : List WaitStatus)
    → t.reports ≡ stopped_by sig ∷ rest
    → g.maps ≡ toy_maps
    → (g1 : Tracer) × (t4 : Tracee) × (handle_trace_event toy_ptrace no_lines g
          (record t { reports = rest; arrived = [] })
        ≡ next g1 t4)
      × (g1.stage ≡ next_stage g.stage)
      × (g1.maps ≡ toy_maps)
      × (t4.reports ≡ rest)
      × ((n : ℕ) (g' : Tracer) (t' : Tracee)
          → Serves toy_ptrace no_lines wait_arrived arrive n g1 t4 g' t'
          → Serves toy_ptrace no_lines wait_arrived arrive (suc n) g t g' t')
one_stop g t sig rest r m =
    let t1 : Tracee = record t { reports = rest; arrived = stopped_by sig ∷ [] } in
    let t2 : Tracee = record t { reports = rest; arrived = [] } in
    let (g1, t3, e, s1, m1) =
      handle_trace_event-next toy_ptrace toy-Works no_lines g t2
        (λ z. absurd (ground (arith, m, z))) in
    let (r3, a3) = handle-reports no_lines g g1 t2 t3 e in
    (
      g1,
      t3,
      e,
      s1,
      m1 ∙ m,
      r3,
      λ n g' t' s.
          stops {t1 = t1} {t2 = t2} {t3 = t3} {t4 = t3} 7 sig (arrive_lem t (stopped_by sig) rest r)
            refl e (wait_arrived-none t3 a3) s,
    )

runs_thrice :
    (g : Tracer) (t : Tracee)
    → g.maps ≡ toy_maps
    → t.reports ≡ stopped_by 5 ∷ stopped_by 4 ∷ stopped_by 4 ∷ exited_with 0 ∷ []
    → (g' : Tracer) × (t' : Tracee) × (g'.maps ≡ toy_maps)
      × Serves toy_ptrace no_lines wait_arrived arrive 3 g t g' t'
runs_thrice g t m r =
    let (g1, t1, _, _, m1, r1, k1) = one_stop g t 5 _ r m in
    let (g2, t2, _, _, m2, r2, k2) = one_stop g1 t1 4 _ r1 m1 in
    let (g3, t3, _, _, m3, r3, k3) = one_stop g2 t2 4 _ r2 m2 in
    let t4 : Tracee = record t3 { reports = []; arrived = exited_with 0 ∷ [] } in
    let t5 : Tracee = record t3 { reports = []; arrived = [] } in
    (
      g3,
      t5,
      m3,
      k1 2 g3 t5 (
          k2 1 g3 t5
            (k3 0 g3 t5 (exits_now {t1 = t4} 7 0 (arrive_lem t3 (exited_with 0) [] r3) refl))),
    )

toy_thrice : RunsThrice toy_ptrace no_lines wait_arrived arrive toy_spawn Known 2
unfolding run_debuggee run_child set_realtime
toy_thrice = record {
  runs = λ g t s k.
      let t1 : Tracee = record t {
        reports = stopped_by 5 ∷ stopped_by 4 ∷ stopped_by 4 ∷ exited_with 0 ∷ [];
        arrived = [];
      } in
      let (g', t', m, events) = runs_thrice (record g { tracee_pid = 7 }) t1 k refl in
      (6, t1, g', t', refl, events, ap (λ (x : MapsState). x.heap_size) m, m);
}

abbrev toy_child : Tracee
toy_child = record toy_tracee {
  reports = stopped_by 5 ∷ stopped_by 4 ∷ stopped_by 4 ∷ exited_with 0 ∷ [];
}

toy_starts : run_debuggee toy_spawn toy_tracee ≡ (7, toy_child)
unfolding run_debuggee run_child set_realtime
toy_starts = refl

toy_runs :
    (g' : Tracer) × (t' : Tracee) × (g'.maps ≡ toy_maps)
    × Serves toy_ptrace no_lines wait_arrived arrive 3
        (record toy_tracer { tracee_pid = 7 })
        toy_child
        g'
        t'
toy_runs = runs_thrice (record toy_tracer { tracee_pid = 7 }) toy_child refl refl

run_once_lem_example :
    (run_once toy_ptrace no_lines wait_arrived toy_spawn arrive 2 4 toy_tracer toy_tracee
      ≡ some (toy_runs.0, toy_runs.1))
    × ((toy_runs.0.stage ≡ tracee_init) ↔ (3 % 3 ≡ 0))
run_once_lem_example =
    run_once_lem toy_ptrace no_lines wait_arrived arrive toy_spawn 0 4 3 6 toy_tracer toy_runs.0
      toy_tracee toy_child toy_runs.1 toy_starts toy_runs.3 (omega arith)

-- Every third word is an instruction; none is -1.
abbrev program : ℕ → ℕ
program a = a * 3 % 1000

abbrev loaded_tracee : Tracee
loaded_tracee = record toy_tracee { text = program }

abbrev planted_entry : Tracer
planted_entry = record toy_tracer { entry_data = 300; stage = tracee_entry }

abbrev planted_tracee : Tracee
planted_tracee = record loaded_tracee {
  text = λ b. if b == 100 then brkpoint_instr else program b;
  clock = 4294967289;
}

loaded-Planted : Planted toy_ptrace IsWord program toy_tracer loaded_tracee
loaded-Planted = record {
  text = λ a is. refl;
  entry_text = refl;
  entry_kept = λ e. cc;
  exit_text = λ e. refl;
  exit_kept = λ e. cc;
}

loaded_event :
    handle_trace_event toy_ptrace no_lines toy_tracer loaded_tracee
    ≡ next planted_entry planted_tracee
unfolding handle_trace_event dispatch on_init set_breakpoint
loaded_event = refl

handle_trace_event-Planted_example : Planted toy_ptrace IsWord program planted_entry planted_tracee
handle_trace_event-Planted_example =
    handle_trace_event-Planted toy_ptrace toy_ptrace_laws no_lines toy_tracer planted_entry
      loaded_tracee planted_tracee loaded-Planted
      (record { at_entry = λ e. omega arith; at_exit = λ e. cc; returns_to = λ e. cc }) loaded_event

-- -s f -n "2", with a number that strtol reads as 2.
abbrev pub toy_options : List Opt
toy_options =
    record { opt = b's'; optarg = 102 ∷ [] } ∷ record { opt = b'n'; optarg = b'2' ∷ [] } ∷ []

abbrev pub toy_strtol : List ℕ → ℕ
toy_strtol text' = 2

pub options-NoStop : NoStop toy_options
options-NoStop = omega arith

parse_options_lem_example :
    (s : Settings) × (parse_options toy_strtol toy_options no_settings ≡ parsed s)
    × (s.symbol ≡ some (102 ∷ []))
    × (s.sample_size ≡ some 2)
parse_options_lem_example = parse_options_lem toy_strtol toy_options options-NoStop

abbrev pub zeros : ℕ → List ℕ
zeros zero = []
zeros (suc n) = 0 ∷ zeros n

length-zeros : (n : ℕ) → length (zeros n) ≡ n
length-zeros zero = refl
length-zeros (suc n) = ap suc (length-zeros n)

abbrev pub toy_setting : Setting
toy_setting = record {
  output_opens = true;
  options = toy_options;
  argc = 6;
  optind = 5;
  elf_opens = true;
  elf = some toy_symbols;
  scheduled = true;
  pinned = true;
  garbage = zeros;
}

f_found : resolve_symbol (some (102 ∷ [])) true (some toy_symbols) ≡ resolved 4096
f_found =
    resolve_symbol-lookup_symbol toy_symbols (102 ∷ []) symtab
      ((102 ∷ [], 4097) ∷ (103 ∷ [], 8192) ∷ []) refl (omega arith) refl (omega arith)
      ((_, refl, refl, refl), ((_, refl, refl, refl), tt))

pub toy-Ready : Ready toy_strtol toy_setting 4096 2
toy-Ready = record {
  opens = refl;
  no_stop = options-NoStop;
  symbol = 102 ∷ [];
  symbol_given = refl;
  count = b'2' ∷ [];
  count_given = refl;
  count_read = refl;
  command = omega arith;
  symbol_found = f_found;
  address = omega arith;
  may_schedule = refl;
  may_pin = refl;
  array = length-zeros;
}

main_lem_example :
    (l : Laddered Tracee) × (main toy_strtol
        (λ ps. ps)
        (run_once toy_ptrace no_lines wait_arrived toy_spawn arrive 2 4)
        toy_setting
        2
        toy_tracer
        toy_tracee
      ≡ goes_on l)
    × (map (λ x. x.0) l.lines ≡ 1 ∷ 2 ∷ [])
    × (l.stray ≡ 2 ∷ [])
main_lem_example =
    main_lem toy_ptrace no_lines wait_arrived arrive toy_spawn Known 2 0 4 toy_thrice toy_strtol
      (λ ps. ps) toy_setting 4096 2 2 toy_tracer toy_tracee toy-Ready (omega arith) (omega arith)
      (omega arith) (omega arith) (omega arith) refl refl
