-- ===== src/Functime/Profile.antt =====
-- The two modes of main in functime_debugger/functime.c. One run of the tracee, run_debuggee with
-- handle_tracee_signals behind it, is the parameter `trial`, which is `none` where the profiler
-- ends; so is `qsort`.
pub mod Pages
pub mod Sent
pub mod Ladder
use blackbox_profiling.Base.{
  ℕ, ◌==◌, if◌then◌else◌, ltb, ◌>>=◌, length, take, set, sub_word, zero, suc, ◌+◌, ◌/◌, false,
  Option, none, some, List, [], ◌∷◌, ◌++◌, map,
}
use blackbox_profiling.Functime.Trace.{Tracer}

-- `struct page_stats`; `cycles` is the bit pattern of an `int`.
pub record PageStats : Type 0 where
  pub cycles : ℕ
  pub page_number : ℕ

-- The comparison for qsort: the difference of two `int`s, as a bit pattern.
unfoldable pub cmpfunc : PageStats → PageStats → ℕ
cmpfunc a b = sub_word a.cycles b.cycles

-- The bit patterns of negative numbers begin here.
abbrev pub int_min : ℕ
int_min = 2147483648

abbrev pub neg_int : ℕ → ℕ
neg_int a = sub_word 0 a

-- The quotient of two `int`s, cut towards 0.
unfoldable pub div_int : ℕ → ℕ → ℕ
div_int a n =
    if ltb a int_min
    then if ltb n int_min then a / n else neg_int (a / neg_int n)
    else if ltb n int_min
    then neg_int (neg_int a / n)
    else neg_int a / neg_int n

-- A mode runs through; or the profiler ends in a trial, divides by 0, or writes behind `page`.
pub data Mode (A : Type 0) : Type 0 where
  ran : A → Mode A
  ended_early divides_by_zero overruns out_of_fuel : Mode A

pub record Profiled (T : Type 0) : Type 0 where
  pub page : List PageStats
  pub tracer : Tracer
  pub tracee : T

module _ {T : Type 0} (trial : Tracer → T → Option (Tracer × T)) where
  -- for (j = 0; j < sample_size; j++): `samples` is not reset between the runs.
  unfoldable pub run_samples : ℕ → Tracer → T → Option (Tracer × T)
  run_samples zero g t = some (g, t)
  run_samples (suc n) g t = trial g t >>= (λ r. run_samples n r.0 r.1)

  abbrev pub rounds_of : ℕ → ℕ
  rounds_of sample_size = if ltb sample_size int_min then sample_size else 0

  -- What the profiler sends for one page.
  abbrev pub ask_page : ℕ → Tracer → Tracer
  ask_page count g = record g { samples = 0; params = record g.params { buff = count ∷ [] } }

  -- The do loop of the first mode. `alloc` is the number of entries of `page`, which is allocated
  -- behind the runs for page 0.
  unfoldable pub profile_loop : ℕ → ℕ → ℕ → ℕ → List PageStats → Tracer → T → Mode (Profiled T)
  profile_loop zero sample_size alloc count page g t = out_of_fuel
  profile_loop (suc fuel) sample_size alloc count page g t =
      elim (run_samples (rounds_of sample_size) (ask_page count g) t) [
        | none ↦ ended_early
        | some (g', t') ↦
            let heap_size = g'.maps.heap_size in
            let alloc' = if count == 0 then heap_size else alloc in
            let stats : PageStats = record {
              cycles = div_int g'.samples sample_size;
              page_number = count;
            } in
            let page' = page ++ (stats ∷ []) in
            let again = profile_loop fuel sample_size alloc' (count + 1) page' g' t' in
            let stop : Mode (Profiled T) =
              ran (record { page = page'; tracer = g'; tracee = t' }) in
            if sample_size == 0
            then divides_by_zero
            else if ltb count alloc'
            then if ltb (count + 1) heap_size then again else stop
            else overruns
      ]

  unfoldable pub profile_mode : ℕ → ℕ → Tracer → T → Mode (Profiled T)
  unfolding profile_loop
  profile_mode fuel sample_size g t = profile_loop fuel sample_size 0 0 [] g t

-- A line of output.csv, and what the second mode leaves: the lines, the array `output`, and the
-- indices at which it was written out of its bounds.
pub record Laddered (T : Type 0) : Type 0 where
  pub lines : List (ℕ × ℕ)
  pub output : List ℕ
  pub stray : List ℕ
  pub tracer : Tracer
  pub tracee : T

module _ {T : Type 0} (trial : Tracer → T → Option (Tracer × T)) where
  -- What the profiler sends for the first `i` entries of `page`; `shouldSkip` is 0.
  abbrev pub ask_pages : ℕ → List PageStats → Tracer → Tracer
  ask_pages i page g = record g {
    samples = 0;
    params = record g.params { buff = map (λ p. p.page_number) (take i page); should_skip = false };
  }

  -- for (i = 1; i <= heap_size; i++), with one sample each.
  unfoldable pub ladder_loop : ℕ → ℕ → List PageStats → Laddered T → Mode (Laddered T)
  ladder_loop zero i page l = ran l
  ladder_loop (suc rounds) i page l = elim (trial (ask_pages i page l.tracer) l.tracee) [
    | none ↦ ended_early
    | some (g', t') ↦
        let value = div_int g'.samples 1 in
        ladder_loop rounds (i + 1) page (record {
          lines = l.lines ++ ((i, value) ∷ []);
          output = set l.output i value;
          stray = if ltb i (length l.output) then l.stray else l.stray ++ (i ∷ []);
          tracer = g';
          tracee = t';
        })
  ]

  -- `output` has heap_size entries, of no known value.
  unfoldable pub ladder_mode :
      (List PageStats → List PageStats) → List ℕ → Profiled T → Mode (Laddered T)
  unfolding ladder_loop
  ladder_mode qsort output p =
      ladder_loop p.tracer.maps.heap_size 1 (qsort p.page)
        (record { lines = []; output = output; stray = []; tracer = p.tracer; tracee = p.tracee })
