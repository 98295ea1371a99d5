-- ===== src/ElfManipulator/Update.antt =====
-- read_file on a whole file, and setshstrndx against the view.
use blackbox_profiling.Base.{
  if◌then◌else◌, Bool-cases, ltb, length, get_elem?, ℕ, ◌%◌, ◌<◌, ◌≡◌, refl, ap, ◌∙◌, inl, inr,
  true, some, List, arith, leb, ◌==◌, false, [], ◌∷◌, map, take-length,
}
use blackbox_profiling.ElfManipulator.{
  shn_loreserve, ProfileFile, setshstrndx, read_file, went, word32, shn_xindex, ElfLib,
}
use blackbox_profiling.Elfie.{Shdr}
use blackbox_profiling.Elfie.File.{get_elem?-change_at, change_at-agrees, change_at}
use blackbox_profiling.ElfManipulator.Shape.{
  Shape, Part, Header, ElfLibLaws, header_of, put_header, link_of, names_index,
}

-- A header of 0 with the index.
abbrev pub put_link : ℕ → Part → Part
put_link n p = record p { header = record p.header { sh_link = n } }

-- The file with `n` as the index of the section of names.
abbrev pub with_index : ℕ → Shape → Shape
with_index n v =
    if ltb n shn_loreserve
    then record v { e_shstrndx = n }
    else record v { e_shstrndx = shn_xindex; parts = change_at 0 (put_link n) v.parts }

pub read_file_lem :
    (bytes : List ℕ)
    → read_file (record { st_size = some (length bytes); content = some bytes }) ≡ went bytes
unfolding read_file
read_file_lem bytes =
    let whole : leb (length bytes) (length bytes) ≡ true = ground arith in
    rw (whole, take-length bytes, read_file) refl

data-put_link :
    (n : ℕ) (ps : List Part)
    → map (λ (q : Part). q.data') (change_at 0 (put_link n) ps) ≡ map (λ (q : Part). q.data') ps
data-put_link n [] = refl
data-put_link n (p ∷ ps) = refl

with_index-data :
    (n : ℕ) (v : Shape)
    → map (λ (q : Part). q.data') (with_index n v).parts ≡ map (λ (q : Part). q.data') v.parts
with_index-data n v = elim (Bool-cases (ltb n shn_loreserve)) [
  | inl low ↦ rw low refl
  | inr high ↦ rw high (data-put_link n v.parts)
]

pub names_index-with_index :
    (ndx : ℕ) (v : Shape) (p : Part)
    → get_elem? v.parts 0 ≡ some p
    → names_index (with_index ndx v) ≡ some ndx
names_index-with_index ndx v p at = elim (Bool-cases (ltb ndx shn_loreserve)) [
  | inl low ↦ let other : (ndx == shn_xindex) ≡ false = ground arith in rw (low, other) refl
  | inr high ↦ rw high (ap link_of (get_elem?-change_at 0 (put_link ndx) v.parts p at))
]

-- The file with the profile, as `stat` and `fread` have it.
abbrev pub profile_file : List ℕ → ProfileFile
profile_file bytes = record { st_size = some (length bytes); content = some bytes }

module _ {E : Type 0} (elf : ElfLib E) (view : E → Shape) (laws : ElfLibLaws elf view) where
  pub setshstrndx-with_index :
      (e : E) (v : Shape) (ndx : ℕ) (p : Part)
      → view e ≡ v
      → get_elem? v.parts 0 ≡ some p
      → ndx < word32
      → (e' : E) × (setshstrndx elf e ndx ≡ some e') × (view e' ≡ with_index ndx v)
  unfolding setshstrndx
  setshstrndx-with_index e v ndx p same at small = elim (Bool-cases (ltb ndx shn_loreserve)) [
    | inl low ↦
        let (e1, done, h1) = laws.with_shstrndx_law e ndx (ground arith) in
        (
          e1,
          rw (laws.shstrndx_of_law e, low, done, setshstrndx) refl,
          rw low (h1 ∙ ap (λ (x : Shape). record x { e_shstrndx = ndx }) same),
        )
    | inr high ↦
        let at' = ap (λ (x : Shape). get_elem? x.parts 0) same ∙ at in
        let (h, read, kept) = laws.getshdr_law e 0 p at' in
        let hdr : Shdr = record h { sh_link = ndx % word32 } in
        let fits : ndx % word32 ≡ ndx = omega arith in
        let (e1, done1, h1) = laws.update_shdr_law e 0 hdr p at' in
        let (e2, done2, h2) = laws.with_shstrndx_law e1 shn_xindex (omega arith) in
        (
          e2,
          rw (laws.shstrndx_of_law e, high, read, done1, done2, setshstrndx) refl,
          rw high (
              h2
              ∙ ap (λ (x : Shape). record x { e_shstrndx = shn_xindex })
                  (h1
                    ∙ ap
                        (λ (x : Shape). record x {
                          parts = change_at 0 (put_header (header_of hdr)) x.parts;
                        })
                        same
                    ∙ ap (λ l. record v { parts = l })
                        (change_at-agrees 0 _ (put_link ndx) v.parts p at (
                          ap (λ (x : Header). put_header x p)
                            (λ i. record (kept i) { sh_link = fits i }))))),
        )
  ]

  -- For every index below 2 ^ 32, SHN_LORESERVE and those above it included, setshstrndx succeeds
  -- on a file with a section 0, and libelf then has that index for the section of names. No data
  -- changes.
  pub setshstrndx_lem :
      (e : E) (ndx : ℕ) (p : Part)
      → get_elem? (view e).parts 0 ≡ some p
      → ndx < word32
      → (e' : E) × (setshstrndx elf e ndx ≡ some e')
        × (elf.lib.getshdrstrndx e' ≡ some ndx)
        × (map (λ (q : Part). q.data') (view e').parts ≡ map (λ (q : Part). q.data') (view e).parts)
  setshstrndx_lem e ndx p at small =
      let (e', done, h) = setshstrndx-with_index e (view e) ndx p refl at small in
      (
        e',
        done,
        laws.getshdrstrndx_law e' ndx (ap names_index h ∙ names_index-with_index ndx (view e) p at),
        ap (λ (x : Shape). map (λ (q : Part). q.data') x.parts) h ∙ with_index-data ndx (view e),
      )
