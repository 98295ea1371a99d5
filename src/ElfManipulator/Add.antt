-- ===== src/ElfManipulator/Add.antt =====
-- add_elf_sections against the view.
use blackbox_profiling.Base.{
  length, get_elem?, ℕ, zero, suc, ◌+◌, ◌%◌, ◌≤◌, ◌<◌, ◌≡◌, refl, ap, ◌∙◌, subst, some,
  some-injective, List, [], ◌∷◌, ◌++◌, arith, length-append, true,
}
use blackbox_profiling.ElfManipulator.{
  ElfLib, word32, went, old_shstrtab_name, add_section, add_elf_sections, ElfPath,
}
use blackbox_profiling.Elfie.{Shdr, new_section_name}
use blackbox_profiling.Elfie.File.{
  change_at-agrees, change_at, get_elem?-last, change_at-last, length-change_at, get_elem?-before,
}
use blackbox_profiling.ElfManipulator.Update.{
  with_index, read_file_lem, setshstrndx-with_index, profile_file,
}
use blackbox_profiling.ElfManipulator.Shape.{
  put_header, ElfLibLaws, header_of, Shape, put_bytes, Part, NamesIn, Sound, Header,
}
use blackbox_profiling.ElfManipulator.Search.{preparation_lem, farewell_lem}

-- The new table of names: the old one, then ".profile" and ".old_shstrtab".
abbrev pub more_names : List ℕ → List ℕ
more_names names = names ++ (new_section_name ++ (0 ∷ (old_shstrtab_name ++ (0 ∷ []))))

-- A section as add_section leaves it.
abbrev pub made : ℕ → ℕ → List ℕ → Part
made sh_type sh_name bytes = record {
  header = record {
    sh_name = sh_name;
    sh_type = sh_type;
    sh_flags = 0;
    sh_addr = 0;
    sh_link = 0;
    sh_info = 0;
  };
  data' = bytes;
}

abbrev pub rename : ℕ → Part → Part
rename n p = record p { header = record p.header { sh_name = n } }

-- The sections behind the run: the old table has a new name, and the profile and the new table,
-- which takes the old one's name, are the last two.
abbrev pub parts_then : List Part → ℕ → Part → List ℕ → List Part
parts_then ps i strs bytes =
    let names = strs.data' in
    (change_at i (rename (length names + 9)) ps ++ (made 1 (length names) bytes ∷ []))
    ++ (made 3 strs.header.sh_name (more_names names) ∷ [])

abbrev pub with_sections : (v : Shape) → Sound v → List ℕ → Shape
with_sections v s bytes =
    with_index (length v.parts + 1) (record v { parts = parts_then v.parts s.index s.strs bytes })

pub NamesIn-get :
    (m i : ℕ) (ps : List Part) (p : Part)
    → NamesIn m ps
    → get_elem? ps i ≡ some p
    → p.header.sh_name ≤ m
NamesIn-get m i [] p h at = cc
NamesIn-get m zero (q ∷ ps) p h at =
    subst (λ (x : Part). x.header.sh_name ≤ m) (some-injective q p at) h.0
NamesIn-get m (suc i) (q ∷ ps) p h at = NamesIn-get m i ps p h.1 at

-- There is a section 0.
pub has_first :
    (i : ℕ) (f : Part → Part) (ps : List Part) (s : Part)
    → get_elem? ps i ≡ some s
    → (q : Part) × (get_elem? (change_at i f ps) 0 ≡ some q)
has_first i f [] s at = cc
has_first zero f (p ∷ ps) s at = (f p, refl)
has_first (suc i) f (p ∷ ps) s at = (p, refl)

module _ {E : Type 0} (elf : ElfLib E) (view : E → Shape) (laws : ElfLibLaws elf view) where
  add_section_lem :
      (e : E) (v : Shape) (bytes : List ℕ) (sh_type sh_name : ℕ)
      → view e ≡ v
      → sh_name < word32
      → (e' : E) × (add_section elf e bytes sh_type sh_name ≡ went (length v.parts, e'))
        × (view e' ≡ record v { parts = v.parts ++ (made sh_type sh_name bytes ∷ []) })
  unfolding add_section
  add_section_lem e v bytes sh_type sh_name h small =
      let fits : sh_name % word32 ≡ sh_name = omega arith in
      let (e1, s, done1, h1) = laws.newscn_law e in
      let n = length v.parts in
      let named_new = done1 ∙ ap (λ (x : Shape). some (length x.parts, e1)) h in
      let (e2, done2, h2) = laws.newdata_law e1 n in
      let s3 = put_bytes bytes s in
      let e3 = elf.lib.setdata e2 n bytes in
      let h3 : view e3 ≡ record v { parts = v.parts ++ (s3 ∷ []) } =
        laws.setdata_new_law e1 e2 n bytes done2
        ∙ ap (λ (x : Shape). record x { parts = change_at n (put_bytes bytes) x.parts })
            (h2 ∙ h1 ∙ ap (λ (x : Shape). record x { parts = x.parts ++ (s ∷ []) }) h)
        ∙ ap (λ l. record v { parts = l }) (change_at-last v.parts s (put_bytes bytes)) in
      let at = ap (λ (x : Shape). get_elem? x.parts n) h3 ∙ get_elem?-last v.parts s3 in
      let (hdr, read, same) = laws.getshdr_law e3 n s3 at in
      let hdr' : Shdr = record hdr {
        sh_type = sh_type;
        sh_flags = 0;
        sh_addr = 0;
        sh_link = 0;
        sh_info = 0;
        sh_addralign = 1;
        sh_entsize = 0;
        sh_size = length bytes;
        sh_name = sh_name;
      } in
      let (e4, done4, h4) = laws.update_shdr_law e3 n hdr' s3 at in
      (
        e4,
        rw (named_new, done2, read, fits, done4, add_section) refl,
        h4
            ∙ ap
                (λ (x : Shape). record x {
                  parts = change_at n (put_header (header_of hdr')) x.parts;
                })
                h3
            ∙ ap (λ l. record v { parts = l })
                (change_at-last v.parts s3 (put_header (header_of hdr'))),
      )

  rename_lem :
      (e : E) (i n : ℕ) (hdr : Shdr) (s : Part)
      → get_elem? (view e).parts i ≡ some s
      → header_of hdr ≡ s.header
      → n < word32
      → (e' : E) × (elf.lib.update_shdr e i (record hdr { sh_name = n % word32 }) ≡ some e')
        × (view e' ≡ record (view e) { parts = change_at i (rename n) (view e).parts })
  rename_lem e i n hdr s at same small =
      let fits : n % word32 ≡ n = omega arith in
      let (e', done, h) = laws.update_shdr_law e i (record hdr { sh_name = n % word32 }) s at in
      (
        e',
        done,
        h
            ∙ ap (λ l. record (view e) { parts = l })
                (change_at-agrees i _ (rename n) (view e).parts s at
                  (ap (λ x. put_header x s) (λ k. record (same k) { sh_name = fits k }))),
      )

  -- The view of a file behind its first run.
  pub add_elf_sections-with_sections :
      (path : ElfPath E) (e : E) (s : Sound (view e)) (bytes : List ℕ)
      → path.elf_begin path.open_fd ≡ some e
      → path.closes ≡ true
      → length s.strs.data' + 9 < word32
      → length (view e).parts + 1 < word32
      → (e' : E) × (add_elf_sections elf path (profile_file bytes) ≡ went e')
        × (view e' ≡ with_sections (view e) s bytes)
  unfolding add_elf_sections
  add_elf_sections-with_sections path e s bytes opened closed few_names few_parts =
      let v = view e in
      let names = s.strs.data' in
      let at_old = NamesIn-get (length s.texts) s.index v.parts s.strs s.names_in s.there in
      let size : length names ≡ length s.texts + 1 =
        ap length s.zero_last ∙ length-append s.texts (0 ∷ []) in
      let (hdr, read, same) = laws.getshdr_law e s.index s.strs s.there in
      let same_name = ap (λ (x : Header). x.sh_name) same in
      let (e1, done1, h1) =
        rename_lem e s.index (length names + 9) hdr s.strs s.there same few_names in
      let ps1 = change_at s.index (rename (length names + 9)) v.parts in
      let count : length ps1 ≡ length v.parts = length-change_at s.index _ v.parts in
      let (e2, done2, h2) =
        add_section_lem e1 (record v { parts = ps1 }) bytes 1 (length names) h1 (omega arith) in
      let ps2 = ps1 ++ (made 1 (length names) bytes ∷ []) in
      let count2 : length ps2 ≡ length v.parts + 1 =
        length-append ps1 (made 1 (length names) bytes ∷ []) ∙ ap (λ n. n + 1) count in
      let (e3, done3, h3) =
        add_section_lem e2 (record v { parts = ps2 }) (more_names names) 3 hdr.sh_name h2
          (omega arith) in
      let h3' =
        h3 ∙ ap (λ n. record v { parts = ps2 ++ (made 3 n (more_names names) ∷ []) }) same_name in
      let (q, first) = has_first s.index (rename (length names + 9)) v.parts s.strs s.there in
      let (e4, done4, h4) =
        setshstrndx-with_index elf view laws e3
          (record v { parts = parts_then v.parts s.index s.strs bytes }) (length ps2) q h3'
          (get_elem?-before ps2 _ q 0 (get_elem?-before ps1 _ q 0 first)) (omega arith) in
      let (e5, done5, h5) = laws.elf_update_law e4 in
      (
        e5,
        rw
            (
              preparation_lem elf view laws path e s.index opened s.is_index,
              laws.getshdrstrndx_law e s.index s.is_index,
              laws.getscn_law e s.index s.strs s.there,
              laws.getdata_law e s.index s.strs s.there,
              read,
              done1,
              read_file_lem bytes,
              done2,
              done3,
              done4,
              done5,
              farewell_lem elf view laws path e5 closed,
              add_elf_sections,
            )
            refl,
        h5
            ∙ h4
            ∙ ap (λ n. with_index n (record v { parts = parts_then v.parts s.index s.strs bytes }))
                count2,
      )
