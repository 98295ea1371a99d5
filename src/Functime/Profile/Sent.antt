-- ===== src/Functime/Profile/Sent.antt =====
-- What the first mode sends.
use blackbox_profiling.Base.{
  ◌>>=◌, ℕ, zero, suc, ◌+◌, ◌≤◌, ◌<◌, ◌≡◌, refl, subst, Option, some, List, [], ◌∷◌, ◌++◌, arith,
}
use blackbox_profiling.Functime.Trace.{Tracer}

-- A run, with a note of the page numbers that it sends: those of the tracer when it starts.
abbrev pub noted :
    {T : Type 0}
    → (Tracer → T → Option (Tracer × T))
    → Tracer
    → T × List (List ℕ)
    → Option (Tracer × (T × List (List ℕ)))
noted trial g (t, sent) = trial g t >>= (λ r. some (r.0, (r.1, sent ++ (g.params.buff ∷ []))))

-- A trial always succeeds, knows the heap to have `n` pages, and keeps the page numbers to be sent.
abbrev pub Asking : {T : Type 0} → (Tracer → T → Option (Tracer × T)) → ℕ → Type 0
Asking {T} trial n =
    (g : Tracer) (t : T)
    → (r : Tracer × T) × (trial g t ≡ some r)
      × (r.0.maps.heap_size ≡ n)
      × (r.0.params.buff ≡ g.params.buff)

abbrev pub same_request : ℕ → List ℕ → List (List ℕ)
same_request zero ps = []
same_request (suc m) ps = ps ∷ same_request m ps

-- Each of `r` page numbers from `count` on, `s` times alone.
abbrev pub each_page : ℕ → ℕ → ℕ → List (List ℕ)
each_page s count zero = []
each_page s count (suc r) = same_request s (count ∷ []) ++ each_page s (count + 1) r

-- Each request names one page number below `m`.
abbrev OneBelow : ℕ → List (List ℕ) → Type 0
OneBelow m [] = Unit {0}
OneBelow m (ps ∷ more) = ((c : ℕ) × (ps ≡ c ∷ []) × (c < m)) × OneBelow m more

OneBelow-append :
    (m : ℕ) (xs ys : List (List ℕ)) → OneBelow m xs → OneBelow m ys → OneBelow m (xs ++ ys)
OneBelow-append m [] ys a b = b
OneBelow-append m (x ∷ xs) ys a b = (a.0, OneBelow-append m xs ys a.1 b)

OneBelow-at :
    (m : ℕ) (xs : List (List ℕ)) (ps : List ℕ) (ys : List (List ℕ))
    → OneBelow m (xs ++ (ps ∷ ys))
    → (c : ℕ) × (ps ≡ c ∷ []) × (c < m)
OneBelow-at m [] ps ys a = a.0
OneBelow-at m (x ∷ xs) ps ys a = OneBelow-at m xs ps ys a.1

same_request-OneBelow : (m s c : ℕ) → c < m → OneBelow m (same_request s (c ∷ []))
same_request-OneBelow m zero c h = tt
same_request-OneBelow m (suc s) c h = ((c, refl, h), same_request-OneBelow m s c h)

each_page-OneBelow : (m s count r : ℕ) → count + r ≤ m → OneBelow m (each_page s count r)
each_page-OneBelow m s count zero h = tt
each_page-OneBelow m s count (suc r) h =
    OneBelow-append m (same_request s (count ∷ [])) (each_page s (count + 1) r)
      (same_request-OneBelow m s count (omega arith))
      (each_page-OneBelow m s (count + 1) r (omega arith))

-- Any one of the requests.
pub each_page-one :
    (s n : ℕ) (before : List (List ℕ)) (ps : List ℕ) (after : List (List ℕ))
    → each_page s 0 n ≡ before ++ (ps ∷ after)
    → (c : ℕ) × (ps ≡ c ∷ []) × (c < n)
each_page-one s n before ps after split =
    OneBelow-at n before ps after
      (subst (OneBelow n) split (each_page-OneBelow n s 0 n (omega arith)))
