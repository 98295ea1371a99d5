-- ===== src/Functime/Program/Whole.antt =====
-- The program from its options to its last line of output.
use blackbox_profiling.Base.{
  ℕ, missed, length, range_from, suc, ◌≤◌, ◌<◌, ◌≡◌, refl, ap, ◌∙◌, ◌≢◌, true, Option, none, some,
  List, [], ◌∷◌, map, arith, lt→leb,
}
use blackbox_profiling.Functime.Run.Serves.{Serves}
use blackbox_profiling.Functime.Trace.{Tracer, minus_one, tracee_init, Stage, Ptrace}
use blackbox_profiling.Functime.Profile.{int_min, PageStats, Laddered}
use blackbox_profiling.Functime.Program.{goes_on, prepare, main, Setting}
use blackbox_profiling.Functime.Symbols.{resolved, resolve_symbol}
use blackbox_profiling.Functime.Maps.{MapsLine, MapsState}
use blackbox_profiling.Functime.Run.{run_once}
use blackbox_profiling.Functime.Start.{Spawn, run_debuggee, set_realtime}
use blackbox_profiling.Functime.Child.{WaitResult}
use blackbox_profiling.Functime.Run.Stages.{run_once_lem}
use blackbox_profiling.Functime.Profile.Ladder.{ladder_mode-Good}
use blackbox_profiling.Functime.Profile.Pages.{SteadyIn, profile_mode-SteadyIn}
use blackbox_profiling.Functime.Options.Help.{last_arg, map_arg, parse_options_lem, NoStop}
use blackbox_profiling.Functime.Options.{no_settings, parse_options, parsed, Settings}

-- The environment of main lets it come to the first mode with the breakpoint address `addr` and
-- `samples` samples.
pub record Ready (strtol : List ℕ → ℕ) (w : Setting) (addr samples : ℕ) : Type 0 where
  pub opens : w.output_opens ≡ true
  pub no_stop : NoStop w.options
  pub symbol : List ℕ
  pub symbol_given : last_arg b's' w.options none ≡ some symbol
  pub count : List ℕ
  pub count_given : last_arg b'n' w.options none ≡ some count
  pub count_read : strtol count ≡ samples
  pub command : w.optind < w.argc
  pub symbol_found : resolve_symbol (some symbol) w.elf_opens w.elf ≡ resolved addr
  pub address : addr ≢ minus_one
  pub may_schedule : w.scheduled ≡ true
  pub may_pin : w.pinned ≡ true
  pub array : (n : ℕ) → length (w.garbage n) ≡ n

pub prepare-Ready :
    (strtol : List ℕ → ℕ) (w : Setting) (addr samples : ℕ) (g : Tracer)
    → Ready strtol w addr samples
    → (s : Settings) × (parse_options strtol w.options no_settings ≡ parsed s)
      × (prepare strtol w g
          ≡ goes_on (
            samples,
            record g {
              entry_addr = addr;
              params = record g.params { should_skip = s.should_skip };
            },
          ))
unfolding prepare set_realtime
prepare-Ready strtol w addr samples g r =
    let (s, e, symbol', count') = parse_options_lem strtol w.options r.no_stop in
    (
      s,
      e,
      rw
          (
            r.opens,
            e,
            symbol' ∙ r.symbol_given,
            lt→leb w.optind w.argc r.command,
            r.symbol_found,
            missed addr minus_one r.address,
            r.may_schedule,
            r.may_pin,
            count' ∙ ap (map_arg strtol) r.count_given ∙ ap some r.count_read,
            prepare,
          )
          refl,
    )

-- A tracee of the class `Fresh`, with what is known of the maps, can be run: a child is started,
-- three stops that are handled lead from its start to its exit, the heap is then known to have `n`
-- pages, and what is left can be run again.
pub record RunsThrice {T : Type 0} (os : Ptrace T) (sscanf : List ℕ → Option MapsLine)
    (waitpid : T → WaitResult × T) (deliver : T → Option T) (sp : Spawn T)
    (Fresh : MapsState → T → Type 0) (n : ℕ) : Type 0 where
  pub runs :
      (g : Tracer) (t : T)
      → g.stage ≡ tracee_init
      → Fresh g.maps t
      → (pid : ℕ) × (t1 : T) × (g' : Tracer) × (t' : T) × (run_debuggee sp t ≡ (suc pid, t1))
        × Serves os sscanf waitpid deliver 3 (record g { tracee_pid = suc pid }) t1 g' t'
        × (g'.maps.heap_size ≡ n)
        × Fresh g'.maps t'

module _ {T : Type 0} (os : Ptrace T) (sscanf : List ℕ → Option MapsLine)
    (waitpid : T → WaitResult × T) (deliver : T → Option T) (sp : Spawn T)
    (Fresh : MapsState → T → Type 0) (n fuel rounds : ℕ)
    (thrice : RunsThrice os sscanf waitpid deliver sp Fresh n) where
  run_once-SteadyIn :
      3 < rounds
      → SteadyIn
          (λ s m t. (s ≡ tracee_init) × Fresh m t)
          (run_once os sscanf waitpid sp deliver (suc (suc fuel)) rounds)
          n
  run_once-SteadyIn enough g t (init, fresh) =
      let (pid, t1, g', t', start, events, heap, fresh') = thrice.runs g t init fresh in
      let (done, same) =
        run_once_lem os sscanf waitpid deliver sp fuel rounds 3 pid g g' t t1 t' start events
          enough in
      ((g', t'), done, heap, (same.1 refl ∙ init, fresh'))

  -- Where the options name a symbol that is found and a positive number of samples, the command and
  -- the output file are there, the profiler may be scheduled, and each run of the tracee stops
  -- three times and exits with a heap of n > 0 pages known, main runs to its end: it writes a line
  -- for each number of pages from 1 to n, in order, and writes its array `output` once out of
  -- bounds, at n.
  pub main_lem :
      (strtol : List ℕ → ℕ) (qsort : List PageStats → List PageStats) (w : Setting)
      (addr samples page_rounds : ℕ) (g : Tracer) (t : T)
      → Ready strtol w addr samples
      → 0 < samples
      → samples < int_min
      → 0 < n
      → n ≤ page_rounds
      → 3 < rounds
      → g.stage ≡ tracee_init
      → Fresh g.maps t
      → (l : Laddered T) × (main strtol qsort
            (run_once os sscanf waitpid sp deliver (suc (suc fuel)) rounds)
            w
            page_rounds
            g
            t
          ≡ goes_on l)
        × (map (λ x. x.0) l.lines ≡ range_from 1 n)
        × (l.stray ≡ n ∷ [])
  unfolding main
  main_lem strtol qsort w addr samples page_rounds g t ready pos small heap enough rounds' init
        fresh =
      let trial = run_once os sscanf waitpid sp deliver (suc (suc fuel)) rounds in
      let Good = λ (s : Stage) (m : MapsState) (u : T). (s ≡ tracee_init) × Fresh m u in
      let steady = run_once-SteadyIn rounds' in
      let (s, _, e) = prepare-Ready strtol w addr samples g ready in
      let g1 : Tracer = record g {
        entry_addr = addr;
        params = record g.params { should_skip = s.should_skip };
      } in
      let (p, f, _, size, good) =
        profile_mode-SteadyIn Good trial n steady page_rounds samples g1 t (init, fresh) heap enough
          pos small in
      let (l, k, lines, stray) =
        ladder_mode-Good Good trial (λ g' t' h. let (r, a, _, c) = steady g' t' h in (r, a, c))
          qsort (w.garbage p.tracer.maps.heap_size) p good (omega arith)
          (ready.array p.tracer.maps.heap_size) in
      (l, rw (e, main, f, k) refl, lines ∙ ap (range_from 1) size, stray ∙ ap (λ m. m ∷ []) size)
