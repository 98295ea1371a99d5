-- ===== src/Functime/Costs/Lines.antt =====
-- The second mode writes what the first pages of the ranking cost.
use native.Mathlib.Nat.{div-one}
use blackbox_profiling.Base.{
  ℕ, lt→ltb, ltb, if◌then◌else◌, range_from, take, set, length, add_word, zero, suc, ◌+◌, ◌<◌, ◌≡◌,
  refl, sym, ◌∙◌, Bool, false, Option, List, [], ◌∷◌, ◌++◌, map, append-nil, append_assoc, arith,
}
use blackbox_profiling.Functime.Trace.{Stage, Tracer}
use blackbox_profiling.Functime.Profile.{
  ran, int_min, div_int, Profiled, Laddered, PageStats, ladder_loop, ladder_mode, ask_pages,
}
use blackbox_profiling.Functime.Maps.{MapsState}
use blackbox_profiling.Functime.Costs.{CostedIn}
use blackbox_profiling.Functime.Profile.Pages.{numbers}

-- One sample is its own average.
one_sample : (a c : ℕ) → c < int_min → a ≡ add_word 0 c → div_int a 1 ≡ c
unfolding div_int
one_sample a c small e =
    let same : a ≡ c = omega (arith, e, small) in rw (same, lt→ltb c int_min small) (div-one c)

module _ {T : Type 0} (Good : Stage → MapsState → T → Type 0)
    (trial : Tracer → T → Option (Tracer × T)) (n : ℕ) (cost : Bool → List ℕ → ℕ)
    (costed : CostedIn Good trial n cost) where
  -- The line for the first `i` pages.
  abbrev pub line_of : List PageStats → ℕ → ℕ × ℕ
  line_of page i = (i, cost false (numbers (take i page)))

  ladder_loop-costed :
      (rounds i : ℕ) (page : List PageStats) (l : Laddered T)
      → Good l.tracer.stage l.tracer.maps l.tracee
      → ((ps : List ℕ) → cost false ps < int_min)
      → (l' : Laddered T) × (ladder_loop trial rounds i page l ≡ ran l')
        × (l'.lines ≡ l.lines ++ map (line_of page) (range_from i rounds))
  unfolding ladder_loop
  ladder_loop-costed zero i page l good cheap = (l, refl, sym (append-nil _))
  ladder_loop-costed (suc rounds) i page l good cheap =
      let (r, e, h, k, sum, _, _) = costed (ask_pages trial i page l.tracer) l.tracee good in
      let c = cost false (numbers (take i page)) in
      let value = div_int r.0.samples 1 in
      let exact : value ≡ c = one_sample r.0.samples c (cheap _) sum in
      let l1 : Laddered T = record {
        lines = l.lines ++ ((i, value) ∷ []);
        output = set l.output i value;
        stray = if ltb i (length l.output) then l.stray else l.stray ++ (i ∷ []);
        tracer = r.0;
        tracee = r.1;
      } in
      let (l', rest, lines) = ladder_loop-costed rounds (i + 1) page l1 k cheap in
      (l', rw (e, ladder_loop) rest, lines ∙ rw exact (append_assoc l.lines _ _))

  -- The second mode from a state of the class.
  pub ladder_mode-costed :
      (qsort : List PageStats → List PageStats) (output : List ℕ) (p : Profiled T)
      → Good p.tracer.stage p.tracer.maps p.tracee
      → ((ps : List ℕ) → cost false ps < int_min)
      → (l : Laddered T) × (ladder_mode trial qsort output p ≡ ran l)
        × (l.lines ≡ map (line_of (qsort p.page)) (range_from 1 p.tracer.maps.heap_size))
  unfolding ladder_mode
  ladder_mode-costed qsort output p good cheap =
      ladder_loop-costed p.tracer.maps.heap_size 1 (qsort p.page)
        (record { lines = []; output = output; stray = []; tracer = p.tracer; tracee = p.tracee })
        good cheap
