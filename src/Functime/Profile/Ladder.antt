-- ===== src/Functime/Profile/Ladder.antt =====
-- The second mode: one line for each number of pages, and one write out of bounds.
use blackbox_profiling.Base.{
  ℕ, ◌==◌, if◌then◌else◌, ltb, length-set, range_from, length, set, zero, suc, ◌+◌, ◌≤◌, ◌<◌, ◌≡◌,
  refl, sym, ◌∙◌, ◌↔◌, Option, some, List, [], ◌∷◌, ◌++◌, map, append-nil, append_assoc, map-append,
  arith,
}
use blackbox_profiling.Functime.Trace.{Tracer, Stage}
use blackbox_profiling.Functime.Profile.{
  int_min, ladder_loop, ask_pages, PageStats, ran, cmpfunc, Laddered, div_int, ladder_mode,
  Profiled,
}
use blackbox_profiling.Functime.Maps.{MapsState}

-- The comparison has the sign of the difference where both averages are not negative.
pub cmpfunc_sign :
    (a b : PageStats)
    → a.cycles < int_min
    → b.cycles < int_min
    → ((cmpfunc a b ≡ 0) ↔ (a.cycles ≡ b.cycles))
      × ((int_min ≤ cmpfunc a b) ↔ (a.cycles < b.cycles))
unfolding cmpfunc
cmpfunc_sign a b ha hb =
    ((λ e. omega arith, λ e. omega arith), (λ e. omega arith, λ e. omega arith))

module _ {T : Type 0} (Good : Stage → MapsState → T → Type 0)
    (trial : Tracer → T → Option (Tracer × T))
    (steady : (g : Tracer) (t : T)
      → Good g.stage g.maps t
      → (r : Tracer × T) × (trial g t ≡ some r) × Good r.0.stage r.0.maps r.1) where
  -- `stray` gains the indices from the length of `output` on.
  ladder_loop-runs :
      (rounds i : ℕ) (page : List PageStats) (l : Laddered T)
      → Good l.tracer.stage l.tracer.maps l.tracee
      → i + rounds ≡ length l.output + 1
      → (l' : Laddered T) × (ladder_loop trial rounds i page l ≡ ran l')
        × (map (λ x. x.0) l'.lines ≡ map (λ x. x.0) l.lines ++ range_from i rounds)
        × (l'.stray ≡ (if rounds == 0 then l.stray else l.stray ++ (length l.output ∷ [])))
        × (length l'.output ≡ length l.output)
  unfolding ladder_loop
  ladder_loop-runs zero i page l good h = (l, refl, sym (append-nil _), refl, refl)
  ladder_loop-runs (suc rounds) i page l good h =
      let (r, e, k) = steady (ask_pages trial i page l.tracer) l.tracee good in
      let value = div_int r.0.samples 1 in
      let l1 : Laddered T = record {
        lines = l.lines ++ ((i, value) ∷ []);
        output = set l.output i value;
        stray = if ltb i (length l.output) then l.stray else l.stray ++ (i ∷ []);
        tracer = r.0;
        tracee = r.1;
      } in
      let (l', rest, lines, stray, len) =
        ladder_loop-runs rounds (i + 1) page l1 k (omega (arith, length-set l.output i value)) in
      (
        l',
        rw (e, ladder_loop) rest,
        lines ∙ simp (map-append, append_assoc),
        ground (arith, stray, length-set l.output i value),
        len ∙ length-set l.output i value,
      )

  -- The second mode from a state of the class.
  pub ladder_mode-Good :
      (qsort : List PageStats → List PageStats) (output : List ℕ) (p : Profiled T)
      → Good p.tracer.stage p.tracer.maps p.tracee
      → 0 < p.tracer.maps.heap_size
      → length output ≡ p.tracer.maps.heap_size
      → (l : Laddered T) × (ladder_mode trial qsort output p ≡ ran l)
        × (map (λ x. x.0) l.lines ≡ range_from 1 p.tracer.maps.heap_size)
        × (l.stray ≡ p.tracer.maps.heap_size ∷ [])
  unfolding ladder_mode
  ladder_mode-Good qsort output p good heap long =
      let (l, e, lines, stray, _) =
        ladder_loop-runs p.tracer.maps.heap_size 1 (qsort p.page)
          (record { lines = []; output = output; stray = []; tracer = p.tracer; tracee = p.tracee })
          good (omega arith) in
      (l, e, lines, ground (arith, stray))

module _ {T : Type 0} (trial : Tracer → T → Option (Tracer × T))
    (steady : (g : Tracer) (t : T) → (r : Tracer × T) × (trial g t ≡ some r)) where
  -- Where every trial succeeds and the heap has a page or more, the second mode runs through: it
  -- writes one line for each number of pages from 1 to that of the heap, in order. With `output` as
  -- long as the heap has pages, exactly one of its writes is out of bounds, the last, behind its
  -- end.
  pub ladder_mode_lines :
      (qsort : List PageStats → List PageStats) (output : List ℕ) (p : Profiled T)
      → 0 < p.tracer.maps.heap_size
      → length output ≡ p.tracer.maps.heap_size
      → (l : Laddered T) × (ladder_mode trial qsort output p ≡ ran l)
        × (map (λ x. x.0) l.lines ≡ range_from 1 p.tracer.maps.heap_size)
        × (l.stray ≡ p.tracer.maps.heap_size ∷ [])
  ladder_mode_lines qsort output p heap long =
      ladder_mode-Good (λ _ _ _. Unit {0}) trial (λ g t _. let (r, e) = steady g t in (r, e, tt))
        qsort output p tt heap long
