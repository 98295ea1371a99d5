-- ===== src/Tests/Profiling.antt =====
-- The theorems on the modes of the profiler at concrete inputs.
use blackbox_profiling.Base.{ℕ, add_word, ◌≡◌, refl, true, Option, some, [], ◌∷◌, map, arith}
use blackbox_profiling.BothMultiple.{HeapRequest}
use blackbox_profiling.Tests.Tracee.{toy_maps, toy_tracee, toy_tracer, Tracee}
use blackbox_profiling.Functime.Trace.{Tracer}
use blackbox_profiling.Functime.Profile.{PageStats, Profiled, Laddered, ran, ladder_mode}
use blackbox_profiling.Functime.Profile.Ladder.{ladder_mode_lines}

-- A run that finds a heap of `n` pages and takes 15 cycles.
abbrev run_of : ℕ → Tracer → Tracee → Option (Tracer × Tracee)
run_of n g t =
    some (record g { samples = add_word g.samples 15; maps = record toy_maps { heap_size = n } }, t)

abbrev stats_of : ℕ → ℕ → PageStats
stats_of cycles page_number = record { cycles = cycles; page_number = page_number }

abbrev profiled : Profiled Tracee
profiled = record {
  page = stats_of 15 0 ∷ stats_of 15 1 ∷ [];
  tracer = toy_tracer;
  tracee = toy_tracee;
}

ladder_mode_lines_example :
    (l : Laddered Tracee) × (ladder_mode (run_of 2) (λ ps. ps) (0 ∷ 0 ∷ []) profiled ≡ ran l)
    × (map (λ x. x.0) l.lines ≡ 1 ∷ 2 ∷ [])
    × (l.stray ≡ 2 ∷ [])
ladder_mode_lines_example =
    ladder_mode_lines (run_of 2) (λ g t. (_, refl)) (λ ps. ps) (0 ∷ 0 ∷ []) profiled (omega arith)
      refl

-- The heap of the small machine has three pages; the number 2 is sent last.
abbrev last_request : HeapRequest
last_request = record { buff = 2 ∷ []; should_skip = true; pid = 7 }
