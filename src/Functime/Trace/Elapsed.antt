-- ===== src/Functime/Trace/Elapsed.antt =====
-- The cycles that a measurement counts.
use blackbox_profiling.Base.{ℕ, sub_word, add_word, word, ◌+◌, ◌≤◌, ◌<◌, ◌≡◌, ◌⊎◌, arith}
use blackbox_profiling.Functime.Trace.{overflow_report}

-- Where fewer than 2 ^ 32 cycles pass between the two readings of the 32-bit counter, the unsigned
-- difference that is added to `samples` is their number, also if the counter goes round; the
-- message for that case then reports one cycle less.
pub elapsed_lem :
    (t_start cycles : ℕ)
    → t_start < word
    → cycles < word
    → let t_end = add_word t_start cycles in
      (sub_word t_end t_start ≡ cycles)
      × ((t_start ≤ t_end) ⊎ (overflow_report t_start t_end + 1 ≡ cycles))
unfolding overflow_report
elapsed_lem t_start cycles h k = (omega arith, omega arith)
