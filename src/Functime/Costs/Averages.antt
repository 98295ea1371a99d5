-- ===== src/Functime/Costs/Averages.antt =====
-- The average of the first mode is the cost of the request.
use native.Mathlib.Nat.{mul-suc, mul-div_cancel}
use blackbox_profiling.Base.{
  lt→ltb, word, ℕ, zero, suc, ◌+◌, ◌*◌, ◌<◌, ◌≡◌, refl, ◌∙◌, Bool, Option, some, List, [], ◌∷◌,
  arith, ◌==◌, if◌then◌else◌, range_from, ◌-◌, ◌≤◌, ◌⊎◌, inl, inr, ◌++◌, map, append_assoc, ap,
}
use blackbox_profiling.Functime.Trace.{Tracer, Stage}
use blackbox_profiling.Functime.Profile.{
  run_samples, rounds_of, ask_page, int_min, div_int, profile_mode, ran, Profiled, PageStats,
  profile_loop,
}
use blackbox_profiling.Functime.Maps.{MapsState}
use blackbox_profiling.Functime.Costs.{CostedIn, page_of}

module _ {T : Type 0} (Good : Stage → MapsState → T → Type 0)
    (trial : Tracer → T → Option (Tracer × T)) (n : ℕ) (cost : Bool → List ℕ → ℕ)
    (costed : CostedIn Good trial n cost) where
  -- As long as the sum stays below 2 ^ 32, it is the product.
  run_samples-costed :
      (m c : ℕ) (b : Bool) (ps : List ℕ) (g : Tracer) (t : T)
      → Good g.stage g.maps t
      → g.params.should_skip ≡ b
      → g.params.buff ≡ ps
      → cost b ps ≡ c
      → g.samples + c * suc m < word
      → (r : Tracer × T) × (run_samples trial (suc m) g t ≡ some r)
        × (r.0.maps.heap_size ≡ n)
        × Good r.0.stage r.0.maps r.1
        × (r.0.samples ≡ g.samples + c * suc m)
        × (r.0.params.should_skip ≡ b)
  unfolding run_samples
  run_samples-costed zero c b ps g t good skip asked price small =
      let (r, e, h, k, sum, skip', _) = costed g t good in
      let one : c * suc zero ≡ c = omega arith in
      (r, rw e, h, k, sum ∙ rw (skip, asked, price, one) (omega (arith, small, one)), skip' ∙ skip)
  run_samples-costed (suc m) c b ps g t good skip asked price small =
      let (r, e, h, k, sum, skip', asked') = costed g t good in
      let split : c * suc (suc m) ≡ c * suc m + c = mul-suc c (suc m) in
      let now : r.0.samples ≡ g.samples + c =
        sum ∙ rw (skip, asked, price) (omega (arith, small, split)) in
      let (r', e', h', k', sum', skip'') =
        run_samples-costed m c b ps r.0 r.1 k (skip' ∙ skip) (asked' ∙ asked) price
          (omega (arith, now, small, split)) in
      (r', rw e e', h', k', omega (arith, sum', now, split), skip'')

  -- The samples for one page, and their average.
  sampled-costed :
      (s count : ℕ) (b : Bool) (g : Tracer) (t : T)
      → Good g.stage g.maps t
      → g.params.should_skip ≡ b
      → 0 < s
      → s < int_min
      → cost b (count ∷ []) * s < int_min
      → (r : Tracer × T) × (run_samples trial (rounds_of trial s) (ask_page trial count g) t
          ≡ some r)
        × (r.0.maps.heap_size ≡ n)
        × Good r.0.stage r.0.maps r.1
        × (div_int r.0.samples s ≡ cost b (count ∷ []))
        × (r.0.params.should_skip ≡ b)
  unfolding div_int
  sampled-costed zero count b g t good skip pos small cheap = absurd (omega arith)
  sampled-costed (suc m) count b g t good skip pos small cheap =
      let c = cost b (count ∷ []) in
      let total : 0 + c * suc m ≡ c * suc m = omega arith in
      let (r, e, h, k, sum, skip') =
        run_samples-costed m c b (count ∷ []) (ask_page trial count g) t good skip refl refl
          (omega (arith, cheap)) in
      (
        r,
        rw (lt→ltb (suc m) int_min small) e,
        h,
        k,
        rw (sum ∙ total, lt→ltb (c * suc m) int_min cheap, lt→ltb (suc m) int_min small, div_int)
            (mul-div_cancel c pos),
        skip',
      )

  -- Each round of the first mode adds the page of its number, at its cost.
  profile_loop-costed :
      (fuel r s alloc count : ℕ) (b : Bool) (page : List PageStats) (g : Tracer) (t : T)
      → Good g.stage g.maps t
      → g.params.should_skip ≡ b
      → r < fuel
      → 0 < s
      → s < int_min
      → ((i : ℕ) → i < n → cost b (i ∷ []) * s < int_min)
      → (count ≡ 0) ⊎ (alloc ≡ n)
      → count + suc r ≡ n
      → (p : Profiled T) × (profile_loop trial fuel s alloc count page g t ≡ ran p)
        × (p.page ≡ page ++ map (page_of (cost b)) (range_from count (suc r)))
        × (p.tracer.maps.heap_size ≡ n)
        × Good p.tracer.stage p.tracer.maps p.tracee
  unfolding profile_loop
  profile_loop-costed zero r s alloc count b page g t good skip f pos small cheap al len =
      absurd (omega arith)
  profile_loop-costed (suc fuel) zero s alloc count b page g t good skip f pos small cheap al len =
      let (q, e, h, k, mean, _) =
        sampled-costed s count b g t good skip pos small (cheap count (omega (arith, len))) in
      (
        record {
          page = page ++ (record { cycles = div_int q.0.samples s; page_number = count } ∷ []);
          tracer = q.0;
          tracee = q.1;
        },
        rw (e, profile_loop) (ground (arith, h)),
        rw mean refl,
        h,
        k,
      )
  profile_loop-costed (suc fuel) (suc r) s alloc count b page g t good skip f pos small cheap al
        len =
      let (q, e, h, k, mean, skip') =
        sampled-costed s count b g t good skip pos small (cheap count (omega (arith, len))) in
      let stats : PageStats = record { cycles = div_int q.0.samples s; page_number = count } in
      let (p, again, measured, size, k') =
        profile_loop-costed fuel r s (if count == 0 then q.0.maps.heap_size else alloc) (count + 1)
          b (page ++ (stats ∷ [])) q.0 q.1 k skip' (omega arith) pos small cheap
          (inr (ground arith)) (omega arith) in
      (
        p,
        rw (e, profile_loop) (ground (arith, h, again)),
        measured ∙ rw mean (append_assoc page _ _),
        size,
        k',
      )

  -- The first mode from a state of the class.
  pub profile_mode-costed :
      (fuel s : ℕ) (g : Tracer) (t : T)
      → Good g.stage g.maps t
      → 0 < n
      → n ≤ fuel
      → 0 < s
      → s < int_min
      → ((i : ℕ) → i < n → cost g.params.should_skip (i ∷ []) * s < int_min)
      → (p : Profiled T) × (profile_mode trial fuel s g t ≡ ran p)
        × (p.page ≡ map (page_of (cost g.params.should_skip)) (range_from 0 n))
        × (p.tracer.maps.heap_size ≡ n)
        × Good p.tracer.stage p.tracer.maps p.tracee
  unfolding profile_mode
  profile_mode-costed fuel s g t good heap enough pos small cheap =
      let (p, e, measured, size, k) =
        profile_loop-costed fuel (n - 1) s 0 0 g.params.should_skip [] g t good refl (omega arith)
          pos small cheap (inl refl) (omega arith) in
      let whole : suc (n - 1) ≡ n = omega arith in
      (
        p,
        e,
        measured ∙ ap (λ x. map (page_of (cost g.params.should_skip)) (range_from 0 x)) whole,
        size,
        k,
      )
