-- ===== src/Elfie/Table.antt =====
-- The table of section headers against the new section.
use blackbox_profiling.Base.{
  ℕ, length-append, get_elem?, length, zero, suc, ◌+◌, ◌≤◌, ◌<◌, ◌≡◌, refl, sym, ap, ◌∙◌, subst,
  true, some, some-injective, List, [], ◌∷◌, ◌++◌, arith,
}
use blackbox_profiling.Elfie.{did, Libelf, new_section_name, size_word, add_profile_section}
use blackbox_profiling.Elfie.Offset.{InFile}
use blackbox_profiling.Elfie.File.{
  length-change_at, get_elem?-last, Section, LibelfLaws, ElfFile, change_at,
}
use blackbox_profiling.Elfie.Whole.{named, add_profile_section_lem, profile_section}

-- Every section ends before `m`.
abbrev pub EndsBy : ℕ → List Section → Type 0
EndsBy m [] = Unit {0}
EndsBy m (s ∷ ss) = (s.shdr.sh_offset + s.shdr.sh_size ≤ m) × EndsBy m ss

EndsBy-get :
    (m k : ℕ) (s : Section) (ss : List Section)
    → EndsBy m ss
    → get_elem? ss k ≡ some s
    → s.shdr.sh_offset + s.shdr.sh_size ≤ m + 9
EndsBy-get m k s [] h e = cc
EndsBy-get m zero s (t ∷ ss) h e = ground (arith, h.0, some-injective t s e)
EndsBy-get m (suc k) s (t ∷ ss) h e = EndsBy-get m k s ss h.1 e

EndsBy-named :
    (m i k : ℕ) (strs s : Section) (ss : List Section)
    → EndsBy m ss
    → get_elem? ss i ≡ some strs
    → strs.shdr.sh_size ≡ length strs.data'
    → get_elem? (change_at i (λ _. named strs) ss) k ≡ some s
    → s.shdr.sh_offset + s.shdr.sh_size ≤ m + 9
EndsBy-named m i k strs s [] h at size e = cc
EndsBy-named m zero zero strs s (t ∷ ss) h at size e = ground (
  arith,
  h.0,
  some-injective t strs at,
  some-injective (named strs) s e,
  length-append strs.data' (new_section_name ++ (0 ∷ [])),
)
EndsBy-named m zero (suc k) strs s (t ∷ ss) h at size e = EndsBy-get m k s ss h.1 e
EndsBy-named m (suc i) zero strs s (t ∷ ss) h at size e = ground (arith, h.0, some-injective t s e)
EndsBy-named m (suc i) (suc k) strs s (t ∷ ss) h at size e =
    EndsBy-named m i k strs s ss h.1 at size e

-- Where every section ended before the table of section headers, and the size of the section of
-- names is that of its data, then after a run as above the new section ends before the table too,
-- as long as the new place of the table is below 2 ^ 64.
pub add_profile_section-table :
    {E : Type 0} (lib : Libelf E) (view : E → ElfFile) (laws : LibelfLaws lib view) (e : E)
    (strs : Section) (profile : List ℕ)
    → get_elem? (view e).sections (view e).shstrndx ≡ some strs
    → 0 < strs.shdr.sh_offset
    → strs.shdr.sh_size ≡ length strs.data'
    → EndsBy (view e).e_shoff (view e).sections
    → (view e).e_shoff + length profile + 9 < size_word
    → InFile (change_at (view e).shstrndx (λ _. named strs) (view e).sections)
    → (e' : E) × (t : Section) × (add_profile_section lib
          (some (length profile))
          (some profile)
          (some e)
          true
        ≡ did e')
      × (get_elem? (view e').sections (length (view e).sections) ≡ some t)
      × (t.data' ≡ profile)
      × (t.shdr.sh_offset + t.shdr.sh_size ≤ (view e').e_shoff)
add_profile_section-table lib view laws e strs profile at pos size ends small in_file =
    let v = view e in
    let (e', k, s, at', _, done, h) =
      add_profile_section_lem lib view laws e strs profile at pos in_file in
    let place = s.shdr.sh_offset + s.shdr.sh_size in
    let t = profile_section profile (length strs.data') place in
    let ss = change_at v.shstrndx (λ _. named strs) v.sections in
    (
      e',
      t,
      done,
      ap (λ (x : ElfFile). get_elem? x.sections (length v.sections)) h
          ∙ ap (get_elem? (ss ++ (t ∷ [])))
              (sym (length-change_at v.shstrndx (λ _. named strs) v.sections))
          ∙ get_elem?-last ss t,
      refl,
      subst (λ (x : ElfFile). place + length profile ≤ x.e_shoff) (sym h)
          (ground
            (arith, EndsBy-named v.e_shoff v.shstrndx k strs s v.sections ends at size at', small)),
    )
