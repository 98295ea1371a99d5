-- ===== src/Functime/Costs/Whole.antt =====
-- The whole program where the cycles of a run depend on the request alone.
use mathlib.Core.List.{Permᴰ, Pairwise}
use blackbox_profiling.Base.{
  ℕ, range_from, take, add_word, suc, ◌*◌, ◌≤◌, ◌<◌, ◌≡◌, refl, sym, ap, ◌∙◌, Bool, false, Option,
  List, [], ◌∷◌, map,
}
use blackbox_profiling.Functime.Trace.{Ptrace, Tracer, tracee_init, Stage}
use blackbox_profiling.Functime.Profile.{int_min, Laddered, PageStats}
use blackbox_profiling.Functime.Program.{goes_on, Setting, main}
use blackbox_profiling.Functime.Options.{no_settings, parse_options, parsed, Settings}
use blackbox_profiling.Functime.Maps.{MapsLine, MapsState}
use blackbox_profiling.Functime.Run.{run_once}
use blackbox_profiling.Functime.Costs.{CostedIn, costs_of}
use blackbox_profiling.Functime.Start.{Spawn, run_debuggee}
use blackbox_profiling.Functime.Child.{WaitResult}
use blackbox_profiling.Functime.Run.Serves.{Serves}
use blackbox_profiling.Functime.Run.Stages.{Serves-asked, run_once_lem}
use blackbox_profiling.Functime.Profile.Pages.{numbers}
use blackbox_profiling.Functime.Costs.Averages.{profile_mode-costed}
use blackbox_profiling.Functime.Costs.Lines.{ladder_mode-costed}
use blackbox_profiling.Functime.Costs.Ranked.{SortsAt, ranked_order, ranked_numbers, NotDearer}
use blackbox_profiling.Functime.Program.Whole.{prepare-Ready, Ready}

parsed_injective : (x y : Settings) → parsed x ≡ parsed y → x ≡ y
parsed_injective x y e = cc

-- A tracee of the class `Fresh` can be run, as for main, and the difference of the two times read
-- in the run is what the request costs.
pub record RunsCosting {T : Type 0} (os : Ptrace T) (sscanf : List ℕ → Option MapsLine)
    (waitpid : T → WaitResult × T) (deliver : T → Option T) (sp : Spawn T)
    (Fresh : MapsState → T → Type 0) (n : ℕ) (cost : Bool → List ℕ → ℕ) : Type 0 where
  pub runs :
      (g : Tracer) (t : T)
      → g.stage ≡ tracee_init
      → Fresh g.maps t
      → (pid : ℕ) × (t1 : T) × (g' : Tracer) × (t' : T) × (run_debuggee sp t ≡ (suc pid, t1))
        × Serves os sscanf waitpid deliver 3 (record g { tracee_pid = suc pid }) t1 g' t'
        × (g'.maps.heap_size ≡ n)
        × Fresh g'.maps t'
        × (g'.samples ≡ add_word g.samples (cost g.params.should_skip g.params.buff))

module _ {T : Type 0} (os : Ptrace T) (sscanf : List ℕ → Option MapsLine)
    (waitpid : T → WaitResult × T) (deliver : T → Option T) (sp : Spawn T)
    (Fresh : MapsState → T → Type 0) (n fuel rounds : ℕ) (cost : Bool → List ℕ → ℕ)
    (costing : RunsCosting os sscanf waitpid deliver sp Fresh n cost) where
  run_once-CostedIn :
      3 < rounds
      → CostedIn
          (λ s m t. (s ≡ tracee_init) × Fresh m t)
          (run_once os sscanf waitpid sp deliver (suc (suc fuel)) rounds)
          n
          cost
  run_once-CostedIn enough g t (init, fresh) =
      let (pid, t1, g', t', start, events, heap, fresh', price) = costing.runs g t init fresh in
      let (done, same) =
        run_once_lem os sscanf waitpid deliver sp fuel rounds 3 pid g g' t t1 t' start events
          enough in
      let (skip, asked) = Serves-asked os sscanf waitpid deliver 3 _ g' t1 t' events in
      ((g', t'), done, heap, (same.1 refl ∙ init, fresh'), price, skip, asked)

  -- Where the environment lets main come to the first mode with a positive `int` as the number of
  -- samples; where the heap has n pages, one or more, and each run of the tracee stops three times,
  -- exits, and takes the cycles that its request costs, which depends on its pages and
  -- `should_skip` alone; where no cost, and no sum of the samples of a page, reaches 2 ^ 31, and
  -- qsort sorts the averages: main runs to its end. The ranking has each page number below n once,
  -- and none before one whose page alone costs less. The i-th line of the output, of n, has i and
  -- the cost of a request with `should_skip` clear for the first i pages of the ranking.
  pub main_ranks :
      (strtol : List ℕ → ℕ) (qsort : List PageStats → List PageStats) (w : Setting) (s : Settings)
      (addr samples page_rounds : ℕ) (g : Tracer) (t : T)
      → Ready strtol w addr samples
      → parse_options strtol w.options no_settings ≡ parsed s
      → 0 < samples
      → samples < int_min
      → 0 < n
      → n ≤ page_rounds
      → 3 < rounds
      → g.stage ≡ tracee_init
      → Fresh g.maps t
      → ((i : ℕ) → i < n → cost s.should_skip (i ∷ []) * samples < int_min)
      → ((b : Bool) (ps : List ℕ) → cost b ps < int_min)
      → SortsAt qsort (costs_of (cost s.should_skip) n)
      → let ranking = qsort (costs_of (cost s.should_skip) n) in
        (l : Laddered T) × (main strtol qsort
            (run_once os sscanf waitpid sp deliver (suc (suc fuel)) rounds)
            w
            page_rounds
            g
            t
          ≡ goes_on l)
        × (l.lines ≡ map (λ i. (i, cost false (numbers (take i ranking)))) (range_from 1 n))
        × Permᴰ (numbers ranking) (range_from 0 n)
        × Pairwise NotDearer ranking
  unfolding main
  main_ranks strtol qsort w s addr samples page_rounds g t ready options pos small heap enough
        rounds' init fresh cheap bound sorts =
      let trial = run_once os sscanf waitpid sp deliver (suc (suc fuel)) rounds in
      let Good = λ (st : Stage) (m : MapsState) (u : T). (st ≡ tracee_init) × Fresh m u in
      let costed = run_once-CostedIn rounds' in
      let (s', e', prepared) = prepare-Ready strtol w addr samples g ready in
      let same : s' ≡ s = parsed_injective s' s (sym e' ∙ options) in
      let g1 : Tracer = record g {
        entry_addr = addr;
        params = record g.params { should_skip = s'.should_skip };
      } in
      let skips : s'.should_skip ≡ s.should_skip = ap (λ (x : Settings). x.should_skip) same in
      let (p, f, measured, size, good) =
        profile_mode-costed Good trial n cost costed page_rounds samples g1 t (init, fresh) heap
          enough pos small (rw skips cheap) in
      let ranking = qsort (costs_of (cost s.should_skip) n) in
      let line_for : List PageStats → ℕ → ℕ × ℕ = λ ps i. (i, cost false (numbers (take i ps))) in
      let whole = measured ∙ ap (λ b. costs_of (cost b) n) skips in
      let (l, k, lines) =
        ladder_mode-costed Good trial n cost costed qsort (w.garbage p.tracer.maps.heap_size) p good
          (bound false) in
      (
        l,
        rw (prepared, main, f, k) refl,
        lines
            ∙ ap (λ ps. map (line_for (qsort ps)) (range_from 1 p.tracer.maps.heap_size)) whole
            ∙ ap (λ m. map (line_for ranking) (range_from 1 m)) size,
        ranked_numbers qsort (cost s.should_skip) n sorts,
        ranked_order qsort (cost s.should_skip) n sorts (bound s.should_skip),
      )
