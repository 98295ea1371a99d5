-- ===== src/Elfie/Offset.antt =====
-- The place of the new section.
use blackbox_profiling.Base.{
  ℕ, ltb, if◌then◌else◌, get_elem?, length, length-append, ◌+◌, ◌≤◌, ◌<◌, ◌≡◌, refl, ap, ◌∙◌,
  Option, some, List, [], ◌∷◌, ◌++◌, Bool-cases, zero, suc, sym, subst, ◌⊎◌, inl, inr, none,
  some-injective, append_assoc, arith,
}
use blackbox_profiling.Elfie.{
  ◌>>=◌, did, add_size, size_word, or_unset, last_section, Libelf, compute_section_offset,
}
use blackbox_profiling.Elfie.File.{ElfFile, Section, LibelfLaws}

-- Every section lies in the file, and at most at `m`.
abbrev pub AtMost : ℕ → List Section → Type 0
AtMost m [] = Unit {0}
AtMost m (s ∷ ss) = (s.shdr.sh_offset ≤ m) × AtMost m ss

abbrev pub InFile : List Section → Type 0
InFile [] = Unit {0}
InFile (s ∷ ss) = (s.shdr.sh_offset + s.shdr.sh_size < size_word) × InFile ss

-- What the loop computes of the sections, on a list.
abbrev pub last_of : List Section → ℕ → Option ℕ → ℕ × Option ℕ
last_of [] off size = (off, size)
last_of (s ∷ ss) off size =
    if ltb off s.shdr.sh_offset
    then last_of ss s.shdr.sh_offset (some s.shdr.sh_size)
    else last_of ss off size

get_elem?-suffix :
    (before : List Section) (s : Section) (ss : List Section)
    → get_elem? (before ++ (s ∷ ss)) (length before) ≡ some s
get_elem?-suffix [] s ss = refl
get_elem?-suffix (t ∷ before) s ss = get_elem?-suffix before s ss

module _ {E : Type 0} (lib : Libelf E) (view : E → ElfFile) (laws : LibelfLaws lib view) where
  last_section-last_of :
      (e : E) (before ss : List Section) (off : ℕ) (size : Option ℕ)
      → (view e).sections ≡ before ++ ss
      → last_section lib e (length ss) (length before) off size
        ≡ (or_unset (last_of ss off size).1 >>= (λ n. did (add_size (last_of ss off size).0 n)))
  unfolding last_section
  last_section-last_of e before [] off size h = refl
  last_section-last_of e before (s ∷ ss) off size h =
      let here : get_elem? (view e).sections (length before) ≡ some s =
        ap (λ l. get_elem? l (length before)) h ∙ get_elem?-suffix before s ss in
      let again = λ (off' : ℕ) (size' : Option ℕ).
        last_section-last_of e (before ++ (s ∷ [])) ss off' size'
          (h ∙ sym (append_assoc before (s ∷ []) ss)) in
      elim (Bool-cases (ltb off s.shdr.sh_offset)) [
        | inl lt ↦
            rw
              (
                laws.getscn_law e (length before) s here,
                laws.getshdr_law e (length before) s here,
                lt,
                last_section,
                sym (length-append before (s ∷ [])),
              )
              (again s.shdr.sh_offset (some s.shdr.sh_size))
        | inr ge ↦
            rw
              (
                laws.getscn_law e (length before) s here,
                laws.getshdr_law e (length before) s here,
                ge,
                last_section,
                sym (length-append before (s ∷ [])),
              )
              (again off size)
      ]

last_of-AtMost :
    (ss : List Section) (off : ℕ) (size : Option ℕ)
    → (off ≤ (last_of ss off size).0) × AtMost (last_of ss off size).0 ss
last_of-AtMost [] off size = (omega arith, tt)
last_of-AtMost (s ∷ ss) off size = elim (Bool-cases (ltb off s.shdr.sh_offset)) [
  | inl lt ↦
      let next_is : last_of (s ∷ ss) off size ≡ last_of ss s.shdr.sh_offset (some s.shdr.sh_size) =
        rw lt refl in
      let (le, all) = last_of-AtMost ss s.shdr.sh_offset (some s.shdr.sh_size) in
      subst (λ r. (off ≤ r.0) × AtMost r.0 (s ∷ ss)) (sym next_is)
        (ground (arith, le, lt), (le, all))
  | inr ge ↦
      let next_is : last_of (s ∷ ss) off size ≡ last_of ss off size = rw ge refl in
      let (le, all) = last_of-AtMost ss off size in
      subst (λ r. (off ≤ r.0) × AtMost r.0 (s ∷ ss)) (sym next_is)
        (le, (ground (arith, le, ge), all))
]

last_of-from :
    (ss : List Section) (off : ℕ) (size : Option ℕ)
    → (last_of ss off size ≡ (off, size))
      ⊎ ((k : ℕ) × (s : Section) × (get_elem? ss k ≡ some s)
          × (last_of ss off size ≡ (s.shdr.sh_offset, some s.shdr.sh_size)))
last_of-from [] off size = inl refl
last_of-from (s ∷ ss) off size = elim (Bool-cases (ltb off s.shdr.sh_offset)) [
  | inl lt ↦ elim (last_of-from ss s.shdr.sh_offset (some s.shdr.sh_size)) [
    | inl e ↦ inr (0, s, refl, rw lt e)
    | inr (k, t, at, e) ↦ inr (suc k, t, at, rw lt e)
  ]
  | inr ge ↦ elim (last_of-from ss off size) [
    | inl e ↦ inl (rw ge e)
    | inr (k, t, at, e) ↦ inr (suc k, t, at, rw ge e)
  ]
]

AtMost-get :
    (m k : ℕ) (s : Section) (ss : List Section)
    → AtMost m ss
    → get_elem? ss k ≡ some s
    → s.shdr.sh_offset ≤ m
AtMost-get m k s [] h e = cc
AtMost-get m zero s (t ∷ ss) h e = ground (arith, h.0, some-injective t s e)
AtMost-get m (suc k) s (t ∷ ss) h e = AtMost-get m k s ss h.1 e

InFile-get :
    (k : ℕ) (s : Section) (ss : List Section)
    → InFile ss
    → get_elem? ss k ≡ some s
    → s.shdr.sh_offset + s.shdr.sh_size < size_word
InFile-get k s [] h e = cc
InFile-get zero s (t ∷ ss) h e = ground (arith, h.0, some-injective t s e)
InFile-get (suc k) s (t ∷ ss) h e = InFile-get k s ss h.1 e

-- Where some section has an offset above 0, and every section ends below 2 ^ 64, the place of the
-- new section is found: it is the end of a section that no other one begins behind.
pub compute_section_offset_lem :
    {E : Type 0} (lib : Libelf E) (view : E → ElfFile) (laws : LibelfLaws lib view) (e : E) (j : ℕ)
    (t : Section)
    → get_elem? (view e).sections j ≡ some t
    → 0 < t.shdr.sh_offset
    → InFile (view e).sections
    → (k : ℕ) × (s : Section) × (get_elem? (view e).sections k ≡ some s)
      × AtMost s.shdr.sh_offset (view e).sections
      × (compute_section_offset lib e ≡ did (s.shdr.sh_offset + s.shdr.sh_size))
unfolding compute_section_offset
compute_section_offset_lem lib view laws e j t at pos small =
    let (_, all) = last_of-AtMost (view e).sections 0 none in
    elim (last_of-from (view e).sections 0 none) [
      | inl none_found ↦ absurd (
          ground
            (arith, AtMost-get (last_of (view e).sections 0 none).0 j t (view e).sections all at))
      | inr (k, s, at', found') ↦ (
        k,
        s,
        at',
        subst (λ m. AtMost m (view e).sections) (ap (λ x. x.0) found') all,
        rw (laws.getehdr_law e) (
            last_section-last_of lib view laws e [] (view e).sections 0 none refl
            ∙ ground (arith, found', InFile-get k s (view e).sections small at')),
      )
    ]
