-- ===== src/Functime/Profile/Pages.antt =====
-- The first mode over runs that succeed: the page numbers it measures, and a run that finds no heap.
use mathlib.Core.List.{map-append}
use blackbox_profiling.Base.{
  ℕ, ◌==◌, if◌then◌else◌, lt→ltb, range_from, zero, suc, ◌+◌, ◌<◌, ◌≡◌, ◌⊎◌, inr, Option, some,
  List, [], ◌∷◌, ◌++◌, map, arith, ◌-◌, ◌≤◌, refl, ap, ◌∙◌, inl, append_assoc,
}
use blackbox_profiling.Functime.Trace.{Tracer, Stage}
use blackbox_profiling.Functime.Profile.{
  Profiled, div_int, ask_page, ran, profile_loop, run_samples, rounds_of, PageStats, int_min,
  profile_mode,
}
use blackbox_profiling.Functime.Maps.{MapsState}

-- The numbers of the pages measured.
abbrev pub numbers : List PageStats → List ℕ
numbers = map (λ p. p.page_number)

pub ran_injective : {A : Type 0} (x y : A) → ran x ≡ ran y → x ≡ y
ran_injective x y e = cc

-- A trial always succeeds, and knows the heap to have `n` pages.
abbrev pub Steady : {T : Type 0} → (Tracer → T → Option (Tracer × T)) → ℕ → Type 0
Steady {T} trial n =
    (g : Tracer) (t : T) → (r : Tracer × T) × (trial g t ≡ some r) × (r.0.maps.heap_size ≡ n)

-- The same from the states of a class on, which a trial does not leave. What the loops set between
-- two trials is neither the stage nor what is known of the maps.
abbrev pub SteadyIn :
    {T : Type 0}
    → (Stage → MapsState → T → Type 0)
    → (Tracer → T → Option (Tracer × T))
    → ℕ
    → Type 0
SteadyIn {T} Good trial n =
    (g : Tracer) (t : T)
    → Good g.stage g.maps t
    → (r : Tracer × T) × (trial g t ≡ some r)
      × (r.0.maps.heap_size ≡ n)
      × Good r.0.stage r.0.maps r.1

module _ {T : Type 0} (Good : Stage → MapsState → T → Type 0)
    (trial : Tracer → T → Option (Tracer × T)) (n : ℕ) (steady : SteadyIn Good trial n) where
  run_samples-steady :
      (m : ℕ) (g : Tracer) (t : T)
      → Good g.stage g.maps t
      → (r : Tracer × T) × (run_samples trial (suc m) g t ≡ some r)
        × (r.0.maps.heap_size ≡ n)
        × Good r.0.stage r.0.maps r.1
  unfolding run_samples
  run_samples-steady zero g t good = let (r, e, h, k) = steady g t good in (r, rw e, h, k)
  run_samples-steady (suc m) g t good =
      let (r, e, h, k) = steady g t good in
      let (r', e', h', k') = run_samples-steady m r.0 r.1 k in (r', rw e e', h', k')

  sampled :
      (sample_size : ℕ) (g : Tracer) (t : T)
      → Good g.stage g.maps t
      → 0 < sample_size
      → sample_size < int_min
      → (r : Tracer × T) × (run_samples trial (rounds_of trial sample_size) g t ≡ some r)
        × (r.0.maps.heap_size ≡ n)
        × Good r.0.stage r.0.maps r.1
  sampled zero g t good pos small = absurd (omega arith)
  sampled (suc m) g t good pos small =
      let (r, e, h, k) = run_samples-steady m g t good in
      (r, rw (lt→ltb (suc m) int_min small) e, h, k)

  profile_loop-steady :
      (fuel r sample_size alloc count : ℕ) (page : List PageStats) (g : Tracer) (t : T)
      → Good g.stage g.maps t
      → r < fuel
      → 0 < sample_size
      → sample_size < int_min
      → (count ≡ 0) ⊎ (alloc ≡ n)
      → count + suc r ≡ n
      → (p : Profiled T) × (profile_loop trial fuel sample_size alloc count page g t ≡ ran p)
        × (numbers p.page ≡ numbers page ++ range_from count (suc r))
        × (p.tracer.maps.heap_size ≡ n)
        × Good p.tracer.stage p.tracer.maps p.tracee
  unfolding profile_loop
  profile_loop-steady zero r sample_size alloc count page g t good f pos small al len =
      absurd (omega arith)
  profile_loop-steady (suc fuel) zero sample_size alloc count page g t good f pos small al len =
      let (q, e, h, k) = sampled sample_size (ask_page trial count g) t good pos small in
      (
        record {
          page =
              page
              ++ (record { cycles = div_int q.0.samples sample_size; page_number = count } ∷ []);
          tracer = q.0;
          tracee = q.1;
        },
        rw (e, profile_loop) (ground (arith, h)),
        map-append (λ (p : PageStats). p.page_number) page _,
        h,
        k,
      )
  profile_loop-steady (suc fuel) (suc r) sample_size alloc count page g t good f pos small al len =
      let (q, e, h, k) = sampled sample_size (ask_page trial count g) t good pos small in
      let stats : PageStats = record {
        cycles = div_int q.0.samples sample_size;
        page_number = count;
      } in
      let (p, again, nums, size, k') =
        profile_loop-steady fuel r sample_size (if count == 0 then q.0.maps.heap_size else alloc)
          (count + 1) (page ++ (stats ∷ [])) q.0 q.1 k (omega arith) pos small (inr (ground arith))
          (omega arith) in
      (
        p,
        rw (e, profile_loop) (ground (arith, h, again)),
        nums ∙ simp (map-append, append_assoc),
        size,
        k',
      )

  -- The first mode from a state of the class.
  pub profile_mode-SteadyIn :
      (fuel sample_size : ℕ) (g : Tracer) (t : T)
      → Good g.stage g.maps t
      → 0 < n
      → n ≤ fuel
      → 0 < sample_size
      → sample_size < int_min
      → (p : Profiled T) × (profile_mode trial fuel sample_size g t ≡ ran p)
        × (numbers p.page ≡ range_from 0 n)
        × (p.tracer.maps.heap_size ≡ n)
        × Good p.tracer.stage p.tracer.maps p.tracee
  unfolding profile_mode
  profile_mode-SteadyIn fuel sample_size g t good heap enough pos small =
      let (p, e, nums, size, k) =
        profile_loop-steady fuel (n - 1) sample_size 0 0 [] g t good (omega arith) pos small
          (inl refl) (omega arith) in
      let whole : suc (n - 1) ≡ n = omega arith in (p, e, nums ∙ ap (range_from 0) whole, size, k)

abbrev Any : {T : Type 0} → Stage → MapsState → T → Type 0
Any s m t = Unit {0}
