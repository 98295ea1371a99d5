-- ===== src/Functime/Costs.antt =====
-- The two modes of functime.c where the cycles of a run depend on the request alone.
pub mod Averages
pub mod Lines
pub mod Ranked
pub mod Whole
use blackbox_profiling.Base.{add_word, ℕ, ◌≡◌, Bool, Option, some, List, [], ◌∷◌, range_from, map}
use blackbox_profiling.Functime.Trace.{Tracer, Stage}
use blackbox_profiling.Functime.Profile.{PageStats}
use blackbox_profiling.Functime.Maps.{MapsState}

-- A trial always succeeds from the states of a class on, which it does not leave; it adds to
-- `samples` what the request costs, and keeps the request. The heap has `n` pages.
abbrev pub CostedIn :
    {T : Type 0}
    → (Stage → MapsState → T → Type 0)
    → (Tracer → T → Option (Tracer × T))
    → ℕ
    → (Bool → List ℕ → ℕ)
    → Type 0
CostedIn {T} Good trial n cost =
    (g : Tracer) (t : T)
    → Good g.stage g.maps t
    → (r : Tracer × T) × (trial g t ≡ some r)
      × (r.0.maps.heap_size ≡ n)
      × Good r.0.stage r.0.maps r.1
      × (r.0.samples ≡ add_word g.samples (cost g.params.should_skip g.params.buff))
      × (r.0.params.should_skip ≡ g.params.should_skip)
      × (r.0.params.buff ≡ g.params.buff)

-- What the first mode is to find for a page.
abbrev pub page_of : (List ℕ → ℕ) → ℕ → PageStats
page_of cost i = record { cycles = cost (i ∷ []); page_number = i }

-- The pages of a heap of `n` pages, in the order of their numbers.
abbrev pub costs_of : (List ℕ → ℕ) → ℕ → List PageStats
costs_of cost n = map (page_of cost) (range_from 0 n)
