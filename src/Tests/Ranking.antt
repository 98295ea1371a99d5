-- ===== src/Tests/Ranking.antt =====
-- The theorem on the output of the profiler at concrete inputs.
use mathlib.Core.List.Memᴰ
use mathlib.Core.List.{reverse, Pairwise, Pairwise-singleton, Permᴰ}
use native.Mathlib.Bridge.{le_prop}
use mathlib.Core.Logic.{∥∥₁_elim}
use blackbox_profiling.Base.{
  ℕ, add_word, ◌≡◌, sym, Bool, some, List, arith, word, ◌<◌, ap, ◌∙◌, some-injective, refl, [], ◌∷◌,
  subst, true,
}
use blackbox_profiling.Functime.Program.{main, goes_on}
use blackbox_profiling.Tests.Tracee.{
  Tracee, toy_maps, no_lines, toy_ptrace, wait_arrived, arrive, toy_tracee, toy_tracer, toy_spawn,
}
use blackbox_profiling.Functime.Trace.{
  Tracer, tracee_init, handle_trace_event, tracee_entry, tracee_exit, on_init, set_breakpoint, next,
  dispatch, on_exit, set_pc,
}
use blackbox_profiling.Functime.Maps.{MapsState}
use blackbox_profiling.Functime.Trace.Cycle.{handle_exit, measured_entry-next, handle_entry}
use blackbox_profiling.Functime.Trace.Keeps.{on_entry-resumes, on_exit-counts, Untouched}
use blackbox_profiling.Tests.Running.{
  one_stop, arrive_lem, options-NoStop, toy_strtol, toy-Ready, toy_setting, toy_options,
}
use blackbox_profiling.Functime.Child.{exited_with, stopped_by}
use blackbox_profiling.Functime.Run.Serves.{exits_now, Serves}
use blackbox_profiling.Functime.Trace.Handles.{next_stage}
use blackbox_profiling.Functime.Profile.{cmpfunc, PageStats, Laddered}
use blackbox_profiling.Functime.Options.{parsed, parse_options, Settings, no_settings}
use blackbox_profiling.Functime.Run.{run_once}
use blackbox_profiling.Functime.Costs.{costs_of}
use blackbox_profiling.Functime.Start.{run_child, run_debuggee, set_realtime}
use blackbox_profiling.Functime.Options.Help.{parse_options_lem}
use blackbox_profiling.Functime.Costs.Whole.{RunsCosting, main_ranks}
use blackbox_profiling.Functime.Costs.Ranked.{NotDearer, SortsAt, NotAfter}

-- A run takes 5 cycles, whatever is asked for.
abbrev always_five : Bool → List ℕ → ℕ
always_five b ps = 5

-- The heap is known from the start, and the clock is a word.
abbrev Ticking : MapsState → Tracee → Type 0
Ticking m t = (m ≡ toy_maps) × (t.clock < word)

clock-Untouched : Untouched toy_ptrace (λ (t : Tracee). t.clock)
clock-Untouched = record {
  poke_keeps = λ t t' a v e. ap (λ (x : Tracee). x.clock) (sym (some-injective _ t' e));
  setregs_keeps = λ t t' r e. ap (λ (x : Tracee). x.clock) (sym (some-injective _ t' e));
}

cont-clock : (t t' : Tracee) → toy_ptrace.cont t ≡ some t' → t'.clock ≡ add_word t.clock 5
cont-clock t t' e = ap (λ (x : Tracee). x.clock) (sym (some-injective _ t' e))

-- What one event adds to `samples`, and where it leaves the clock and the start of the time.
init_event :
    (g g' : Tracer) (t t' : Tracee)
    → g.stage ≡ tracee_init
    → handle_trace_event toy_ptrace no_lines g t ≡ next g' t'
    → (g'.samples ≡ g.samples) × (t'.clock < word)
unfolding handle_trace_event dispatch on_init set_breakpoint
init_event g g' t t' s e = (ground (arith, e, s), ground (arith, e, s))

entry_event :
    (g g' : Tracer) (t t' : Tracee)
    → g.stage ≡ tracee_entry
    → t.clock < word
    → handle_trace_event toy_ptrace no_lines g t ≡ next g' t'
    → (g'.samples ≡ g.samples) × (g'.t_start < word) × (t'.clock ≡ add_word g'.t_start 5)
entry_event g g' t t' s h e =
    let (maps', entered) =
      measured_entry-next toy_ptrace no_lines g g' t t'
        (sym (handle_entry toy_ptrace no_lines g t s) ∙ e) in
    let (t3, resumed, kept, start, same, _) =
      on_entry-resumes toy_ptrace clock-Untouched (record g { maps = maps' }) g' t t' entered in
    (same, omega (arith, start, kept, h), cont-clock t3 t' resumed ∙ omega (arith, start))

exit_event :
    (g g' : Tracer) (t t' : Tracee)
    → g.stage ≡ tracee_exit
    → g.t_start < word
    → t.clock ≡ add_word g.t_start 5
    → handle_trace_event toy_ptrace no_lines g t ≡ next g' t'
    → g'.samples ≡ add_word g.samples 5
exit_event g g' t t' s h c e =
    on_exit-counts toy_ptrace g g' t t' (sym (handle_exit toy_ptrace no_lines g t s) ∙ e)
    ∙ omega (arith, c, h)

exit_clock :
    (g g' : Tracer) (t t' : Tracee)
    → g.stage ≡ tracee_exit
    → handle_trace_event toy_ptrace no_lines g t ≡ next g' t'
    → t'.clock < word
unfolding handle_trace_event dispatch on_exit set_pc
exit_clock g g' t t' s e = ground (arith, e, s)

costing_run :
    (g : Tracer) (t : Tracee)
    → g.stage ≡ tracee_init
    → g.maps ≡ toy_maps
    → t.reports ≡ stopped_by 5 ∷ stopped_by 4 ∷ stopped_by 4 ∷ exited_with 0 ∷ []
    → (g' : Tracer) × (t' : Tracee) × (g'.maps ≡ toy_maps)
      × (t'.clock < word)
      × Serves toy_ptrace no_lines wait_arrived arrive 3 g t g' t'
      × (g'.samples ≡ add_word g.samples 5)
costing_run g t s m r =
    let (g1, t1, e1, s1, m1, r1, k1) = one_stop g t 5 _ r m in
    let (g2, t2, e2, s2, m2, r2, k2) = one_stop g1 t1 4 _ r1 m1 in
    let (g3, t3, e3, s3, m3, r3, k3) = one_stop g2 t2 4 _ r2 m2 in
    let t4 : Tracee = record t3 { reports = []; arrived = exited_with 0 ∷ [] } in
    let t5 : Tracee = record t3 { reports = []; arrived = [] } in
    let stage1 = s1 ∙ ap next_stage s in
    let stage2 = s2 ∙ ap next_stage stage1 in
    let (same1, w1) = init_event g g1 _ t1 s e1 in
    let (same2, w2, c2) = entry_event g1 g2 _ t2 stage1 w1 e2 in
    let sum = exit_event g2 g3 _ t3 stage2 w2 c2 e3 in
    (
      g3,
      t5,
      m3,
      exit_clock g2 g3 _ t3 stage2 e3,
      k1 2 g3 t5 (
          k2 1 g3 t5
            (k3 0 g3 t5 (exits_now {t1 = t4} 7 0 (arrive_lem t3 (exited_with 0) [] r3) refl))),
      sum ∙ ap (λ x. add_word x 5) (same2 ∙ same1),
    )

toy-RunsCosting :
    RunsCosting toy_ptrace no_lines wait_arrived arrive toy_spawn Ticking 2 always_five
unfolding run_debuggee run_child set_realtime
toy-RunsCosting = record {
  runs = λ g t s k.
      let t1 : Tracee = record t {
        reports = stopped_by 5 ∷ stopped_by 4 ∷ stopped_by 4 ∷ exited_with 0 ∷ [];
        arrived = [];
      } in
      let (g', t', m, c, events, sum) = costing_run (record g { tracee_pid = 7 }) t1 s k.0 refl in
      (6, t1, g', t', refl, events, ap (λ (x : MapsState). x.heap_size) m, (m, c), sum);
}

-- The two pages cost the same, so that any order of them is sorted.
pair_ranked : (a b : PageStats) → NotAfter a b → Pairwise NotAfter (a ∷ b ∷ [])
pair_ranked a b h =
    Pairwise.cons
      (λ q m.
        ∥∥₁_elim m (λ x y i z. le_prop (x z) (y z) i)
          (λ d. subst (NotAfter a) (sym (Memᴰ.eq_of_singleton d)) h))
      (Pairwise-singleton _ b)

reverse_sorts : SortsAt reverse (costs_of (always_five true) 2)
unfolding cmpfunc
reverse_sorts = (Permᴰ.swap refl refl, pair_ranked _ _ (λ h. omega arith))

toy_settings : (s : Settings) × (parse_options toy_strtol toy_options no_settings ≡ parsed s)
toy_settings = let (s, e, _, _) = parse_options_lem toy_strtol toy_options options-NoStop in (s, e)

main_ranks_example :
    (l : Laddered Tracee) × (main toy_strtol reverse
        (run_once toy_ptrace no_lines wait_arrived toy_spawn arrive 2 4)
        toy_setting
        2
        toy_tracer
        toy_tracee
      ≡ goes_on l)
    × (l.lines ≡ (1, 5) ∷ (2, 5) ∷ [])
    × Permᴰ {A = ℕ} (1 ∷ 0 ∷ []) (0 ∷ 1 ∷ [])
    × Pairwise NotDearer (reverse (costs_of (always_five true) 2))
main_ranks_example =
    main_ranks toy_ptrace no_lines wait_arrived arrive toy_spawn Ticking 2 0 4 always_five
      toy-RunsCosting toy_strtol reverse toy_setting toy_settings.0 4096 2 2 toy_tracer toy_tracee
      toy-Ready toy_settings.1 (omega arith) (omega arith) (omega arith) (omega arith) (omega arith)
      refl (refl, omega arith) (λ i h. omega arith) (λ b ps. omega arith) reverse_sorts
