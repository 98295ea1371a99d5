-- ===== src/Tests/Together.antt =====
-- The theorems on the profiler and the kernel module together, at a small machine with the small
-- tracee.
use blackbox_profiling.Base.{
  ◌%◌, ◌>>=◌, ℕ, ◌≡◌, refl, ◌≢◌, false, some, List, [], ◌∷◌, arith, Option, word, add_word, ◌+◌,
  ◌<◌, sym, ap, ◌∙◌, true, none, some-injective,
}
use blackbox_profiling.System.{Combined, on_machine, send_params, entry_of}
use blackbox_profiling.Linux.{Task}
use blackbox_profiling.Tests.Tracee.{
  Tracee, toy_ptrace, toy_tracee, toy_params, toy_tracer, no_lines,
}
use blackbox_profiling.Tests.Measuring.{toy-Works}
use blackbox_profiling.Tests.Machine.{
  toy_task, toy_gup, heap_area, toy_areas, toy_arch, toy_mm, heap_IsArea, other_task, text_area,
  toy_gup_laws, toy_arch_laws,
}
use blackbox_profiling.System.Timed.{HeapOf, timed_call}
use blackbox_profiling.System.Ptraced.{on_machine-Works}
use blackbox_profiling.System.Files.{Calls, Calls-exist, requests_run_out}
use blackbox_profiling.Functime.Trace.{Ptrace, tracee_entry, next, Tracer, handle_trace_event}
use blackbox_profiling.Functime.Trace.Handles.{handle_trace_event-next, Works}
use blackbox_profiling.FunctimeModule.Populate.{Pop, mm_populate, finished}
use blackbox_profiling.FunctimeModule.Modifier.Pages.{noncached_pte}
use blackbox_profiling.Functime.Maps.{MapsState}

-- One descriptor is open, of four.
abbrev files : ℕ
files = 4

abbrev toy_machine : Combined Tracee
toy_machine = record {
  tracee = toy_tracee;
  open_files = 1;
  tasks = other_task ∷ toy_task ∷ [];
  log = [];
  kernel_died = false;
}

-- Pages 2 and 3 are asked for.
abbrev at_entry : Tracer
at_entry = record toy_tracer {
  stage = tracee_entry;
  params = record toy_params { buff = 2 ∷ 3 ∷ [] };
}

abbrev resting : Tracee → List Task → Option (Tracee × List Task)
resting t ts = toy_ptrace.cont t >>= (λ t'. some (t', ts))

resting_stops : (t : Tracee) (ts : List Task) → (r : Tracee × List Task) × (resting t ts ≡ some r)
resting_stops t ts = (_, refl)

abbrev toy_heap_of : HeapOf 7 toy_machine.tasks
toy_heap_of = record {
  first = other_task ∷ [];
  task = toy_task;
  rest = [];
  mm = toy_mm;
  below = text_area ∷ [];
  heap = heap_area;
  above = [];
  split = refl;
  here = refl;
  none_before = (refl, tt);
  none_behind = tt;
  memory = refl;
  ordered = toy_areas;
  areas = refl;
  none_below = (refl, tt);
  meets = refl;
  whole = heap_IsArea;
}

-- The counter is read as a word, and a run takes a cycle more where the second page of the heap has
-- an odd entry.
abbrev word_ptrace : Ptrace Tracee
word_ptrace = record toy_ptrace { timing = λ t. t.clock % word }

abbrev spent : Option ℕ → ℕ
spent none = 5
spent (some e) = 5 + e % 2

abbrev spend : Tracee → List Task → ℕ
spend t ts = spent (entry_of 7 16384 ts)

spent-word : (e : Option ℕ) → spent e < word
spent-word none = omega arith
spent-word (some e) = omega arith

abbrev spending : Tracee → List Task → Option (Tracee × List Task)
spending t ts = some (record t { clock = add_word t.clock (spend t ts) }, ts)

spending_clock :
    (t : Tracee) (ts : List Task) (r : Tracee × List Task)
    → spending t ts ≡ some r
    → word_ptrace.timing r.0 ≡ add_word (word_ptrace.timing t) (spend t ts)
spending_clock t ts r e =
    ap (λ (x : Tracee × List Task). x.0.clock % word) (sym (some-injective _ r e)) ∙ omega arith

abbrev timed : Ptrace (Combined Tracee)
timed = on_machine toy_arch toy_gup files spending word_ptrace

timed-Works : Works timed
timed-Works =
    on_machine-Works toy_arch toy_gup files spending word_ptrace
      (record {
        poke_works = λ t a v. (_, refl);
        getregs_works = λ t. (_, refl);
        setregs_works = λ t r. (_, refl);
        cont_works = λ t. (_, refl);
      })
      (λ t ts. (_, refl))

-- The states behind the events at the entry and at the return.
timed_entry :
    (g' : Tracer) × (m' : Combined Tracee) × (handle_trace_event timed no_lines at_entry toy_machine
      ≡ next g' m')
    × (g'.maps.heap_size ≢ 0)
timed_entry =
    let (g', m', e, _, same) =
      handle_trace_event-next timed timed-Works no_lines at_entry toy_machine
        (λ e. omega (arith, e)) in
    (g', m', e, λ z. omega (arith, z, ap (λ (x : MapsState). x.heap_size) same))

timed_exit :
    (g' : Tracer) × (m' : Combined Tracee) × (handle_trace_event timed no_lines timed_entry.0
        timed_entry.1
      ≡ next g' m')
timed_exit =
    let (g', m', e, _, _) =
      handle_trace_event-next timed timed-Works no_lines timed_entry.0 timed_entry.1
        timed_entry.3 in
    (g', m', e)

-- The page tables behind the request.
abbrev tables : List Task
tables = (send_params toy_arch toy_gup files toy_machine (record at_entry.params { pid = 7 })).tasks

timed_call_example :
    (t : Tracee) × (u : Pop) × (spending t tables
      ≡ some (timed_entry.1.tracee, timed_entry.1.tasks))
    × (timed_exit.0.samples ≡ add_word at_entry.samples (spend t tables))
    × (mm_populate toy_gup toy_mm.mmap true 12288 12288 toy_mm.ptes ≡ finished none u)
    × (entry_of 7 16384 tables ≡ some (noncached_pte toy_arch 0 (u.ptes 16384)))
timed_call_example =
    timed_call toy_arch toy_arch_laws toy_gup toy_gup_laws files spending word_ptrace no_lines spend
      spending_clock (λ t. omega arith) (λ t ts. spent-word (entry_of 7 16384 ts)) at_entry
      timed_entry.0 timed_exit.0 toy_machine timed_entry.1 timed_exit.1 toy_heap_of 1 refl
      (omega arith) (omega arith, (omega arith, tt)) (omega arith) timed_entry.2 timed_exit.2

three_calls :
    (g' : Tracer) × (m' : Combined Tracee) × Calls toy_arch toy_gup files resting toy_ptrace
      no_lines 3 toy_tracer toy_machine g' m'
    × (g'.maps.heap_size ≢ 0)
three_calls =
    Calls-exist toy_arch toy_gup files resting toy_ptrace no_lines toy-Works resting_stops 3
      toy_tracer toy_machine (λ e. omega (arith, e))

two_more_calls :
    (g' : Tracer) × (m' : Combined Tracee) × Calls toy_arch toy_gup files resting toy_ptrace
      no_lines 2 three_calls.0 three_calls.1 g' m'
    × (g'.maps.heap_size ≢ 0)
two_more_calls =
    Calls-exist toy_arch toy_gup files resting toy_ptrace no_lines toy-Works resting_stops 2
      three_calls.0 three_calls.1 three_calls.3

requests_run_out_example :
    (three_calls.1.open_files ≡ 4)
    × (two_more_calls.1.open_files ≡ 4)
    × (two_more_calls.1.log ≡ three_calls.1.log)
requests_run_out_example =
    requests_run_out toy_arch toy_gup files resting toy_ptrace no_lines 3 2 toy_tracer three_calls.0
      two_more_calls.0 toy_machine three_calls.1 two_more_calls.1 refl refl three_calls.2
      two_more_calls.2
