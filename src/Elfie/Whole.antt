-- ===== src/Elfie/Whole.antt =====
-- The steps of add_profile_section, and what they make of the file.
use blackbox_profiling.Base.{
  ℕ, length, get_elem?, ◌≡◌, refl, ap, ◌∙◌, some, List, [], ◌∷◌, ◌++◌, ==_iff, ◌+◌, ◌<◌, sym, subst,
  true, ◌≤◌, take-length,
}
use blackbox_profiling.Elfie.{
  did, add_size, Libelf, new_section_name, add_section_name, Shdr, Ehdr, add_section_payload,
  adjust_sec_table_offset, update_section_header, add_profile_section, read_profile_file,
}
use blackbox_profiling.Elfie.Names.{names_then, profile_name_at, old_name_at, name_at}
use blackbox_profiling.Elfie.File.{
  put_shdr, change_at, get_elem?-change_at, ElfFile, put_data, Section, LibelfLaws, change_at-last,
  get_elem?-last, change_at-twice,
}
use blackbox_profiling.Elfie.Offset.{AtMost, compute_section_offset_lem, InFile}

-- The section of names with the new name behind the others.
abbrev pub named : Section → Section
named s =
    let names = names_then s.data' new_section_name in
    record { shdr = record s.shdr { sh_size = length names }; data' = names }

-- The new section.
abbrev pub profile_section : List ℕ → ℕ → ℕ → Section
profile_section profile sh_name sh_offset = record {
  shdr = record {
    sh_type = 1;
    sh_flags = 0;
    sh_addr = 0;
    sh_link = 0;
    sh_info = 0;
    sh_addralign = 1;
    sh_entsize = 0;
    sh_size = length profile;
    sh_name = sh_name;
    sh_offset = sh_offset;
  };
  data' = profile;
}

-- The file with the section `s` of names, and the new section at `place`.
abbrev pub with_profile : ElfFile → Section → List ℕ → ℕ → ElfFile
with_profile v s profile place = record v {
  e_shoff = add_size v.e_shoff (add_size (add_size (length profile) 8) 1);
  sections =
      change_at v.shstrndx (λ _. named s) v.sections
      ++ (profile_section profile (length s.data') place ∷ []);
}

module _ {E : Type 0} (lib : Libelf E) (view : E → ElfFile) (laws : LibelfLaws lib view) where
  in_view :
      (e : E) (v : ElfFile) (i : ℕ) (s : Section)
      → view e ≡ v
      → get_elem? v.sections i ≡ some s
      → get_elem? (view e).sections i ≡ some s
  in_view e v i s h at = ap (λ (x : ElfFile). get_elem? x.sections i) h ∙ at

  add_section_name_lem :
      (e : E) (v : ElfFile) (s : Section)
      → view e ≡ v
      → get_elem? v.sections v.shstrndx ≡ some s
      → (e' : E) × (add_section_name lib e new_section_name ≡ did (length s.data', e'))
        × (view e' ≡ record v { sections = change_at v.shstrndx (λ _. named s) v.sections })
  unfolding add_section_name
  add_section_name_lem e v s h at =
      let i = v.shstrndx in
      let names = names_then s.data' new_section_name in
      let e1 = lib.flagdata (lib.setdata e i names) i in
      let v1 : ElfFile = record v { sections = change_at i (put_data names) v.sections } in
      let h1 : view e1 ≡ v1 =
        laws.flagdata_law e i names
        ∙ ap (λ (x : ElfFile). record x { sections = change_at i (put_data names) x.sections }) h in
      let at1 =
        in_view e1 v1 i (put_data names s) h1
          (get_elem?-change_at i (put_data names) v.sections s at) in
      let hdr : Shdr = record s.shdr { sh_size = length names } in
      let (e2, done, h2) = laws.update_shdr_law e1 i hdr (put_data names s) at1 in
      (
        e2,
        rw (
          laws.getshdrstrndx_law e ∙ ap (λ (x : ElfFile). some x.shstrndx) h,
          laws.getscn_law e i s (in_view e v i s h at),
          laws.getdata_law e i s (in_view e v i s h at),
          laws.getshdr_law e1 i (put_data names s) at1,
          done,
          add_section_name,
        ),
        h2
            ∙ ap (λ (x : ElfFile). record x { sections = change_at i (put_shdr hdr) x.sections }) h1
            ∙ ap (λ l. record v { sections = l })
                (change_at-twice i (put_shdr hdr) (put_data names) v.sections),
      )

  add_section_payload_lem :
      (e : E) (v : ElfFile) (profile : List ℕ)
      → view e ≡ v
      → (e' : E) × (h : Shdr) × (add_section_payload lib e profile ≡ did (length v.sections, e'))
        × (view e'
            ≡ record v { sections = v.sections ++ (record { shdr = h; data' = profile } ∷ []) })
  unfolding add_section_payload
  add_section_payload_lem e v profile h =
      let (e1, s, done1, h1) = laws.newscn_law e in
      let n = length v.sections in
      let (e2, done2, h2) = laws.newdata_law e1 n in
      let v2 : ElfFile = record v { sections = v.sections ++ (s ∷ []) } in
      let here : view e2 ≡ v2 =
        h2 ∙ h1 ∙ ap (λ (x : ElfFile). record x { sections = x.sections ++ (s ∷ []) }) h in
      (
        lib.setdata e2 n profile,
        s.shdr,
        rw (done1, h, done2, add_section_payload) refl,
        laws.setdata_new_law e1 e2 n profile done2
            ∙ ap
                (λ (x : ElfFile). record x { sections = change_at n (put_data profile) x.sections })
                here
            ∙ ap (λ l. record v { sections = l }) (change_at-last v.sections s (put_data profile)),
      )

  update_section_header_lem :
      (e : E) (v : ElfFile) (ss : List Section) (h : Shdr) (profile : List ℕ)
      (name_offset place : ℕ)
      → view e ≡ v
      → v.sections ≡ ss ++ (record { shdr = h; data' = profile } ∷ [])
      → (e' : E) × (update_section_header lib e (length ss) (length profile) name_offset place
          ≡ did e')
        × (view e' ≡ record v { sections = ss ++ (profile_section profile name_offset place ∷ []) })
  unfolding update_section_header
  update_section_header_lem e v ss h profile name_offset place same last =
      let n = length ss in
      let s : Section = record { shdr = h; data' = profile } in
      let new' = profile_section profile name_offset place in
      let at = in_view e v n s same (ap (λ l. get_elem? l n) last ∙ get_elem?-last ss s) in
      let (e1, done, h1) = laws.update_shdr_law e n new'.shdr s at in
      (
        e1,
        rw (laws.getshdr_law e n s at, done, update_section_header) refl,
        h1
            ∙ ap
                (λ (x : ElfFile). record x {
                  sections = change_at n (put_shdr new'.shdr) x.sections;
                })
                same
            ∙ ap (λ l. record v { sections = change_at n (put_shdr new'.shdr) l }) last
            ∙ ap (λ l. record v { sections = l }) (change_at-last ss s (put_shdr new'.shdr)),
      )

  adjust_sec_table_offset_lem :
      (e : E) (v : ElfFile) (extra : ℕ)
      → view e ≡ v
      → (e' : E) × (adjust_sec_table_offset lib e extra ≡ did e')
        × (view e' ≡ record v { e_shoff = add_size v.e_shoff (add_size (add_size extra 8) 1) })
  unfolding adjust_sec_table_offset
  adjust_sec_table_offset_lem e v extra h =
      let h' : Ehdr = record {
        e_shoff = add_size (view e).e_shoff (add_size (add_size extra 8) 1);
        e_shnum = length (view e).sections;
      } in
      let (e', done, h1) = laws.update_ehdr_law e h' refl in
      (
        e',
        rw (laws.getehdr_law e, done, adjust_sec_table_offset) refl,
        h1
            ∙ ap
                (λ (x : ElfFile). record x {
                  e_shoff = add_size x.e_shoff (add_size (add_size extra 8) 1);
                })
                h,
      )

  -- Where no call of libelf fails, the profile is read whole, the section of names has an offset
  -- above 0, and with the new name every section ends below 2 ^ 64, the program runs to its end.
  -- The names have the new one behind them, and the profile is the content of a new section, the
  -- last one, whose place is the end of a section that no other one begins behind.
  pub add_profile_section_lem :
      (e : E) (strs : Section) (profile : List ℕ)
      → get_elem? (view e).sections (view e).shstrndx ≡ some strs
      → 0 < strs.shdr.sh_offset
      → InFile (change_at (view e).shstrndx (λ _. named strs) (view e).sections)
      → let ss = change_at (view e).shstrndx (λ _. named strs) (view e).sections in
        (e' : E) × (k : ℕ) × (s : Section) × (get_elem? ss k ≡ some s)
        × AtMost s.shdr.sh_offset ss
        × (add_profile_section lib (some (length profile)) (some profile) (some e) true ≡ did e')
        × (view e' ≡ with_profile (view e) strs profile (s.shdr.sh_offset + s.shdr.sh_size))
  unfolding add_profile_section read_profile_file
  add_profile_section_lem e strs profile at pos small =
      let v = view e in
      let ss = change_at v.shstrndx (λ _. named strs) v.sections in
      let v1 : ElfFile = record v { sections = ss } in
      let (e0, done0, h0) = laws.flagelf_layout_law e in
      let (e1, done1, h1) = add_section_name_lem e0 v strs h0 at in
      let (k, s, at', all, done_off) =
        compute_section_offset_lem lib view laws e1 v.shstrndx (named strs)
          (in_view e1 v1 v.shstrndx (named strs) h1
            (get_elem?-change_at v.shstrndx (λ _. named strs) v.sections strs at))
          pos (subst (λ (x : ElfFile). InFile x.sections) (sym h1) small) in
      let place = s.shdr.sh_offset + s.shdr.sh_size in
      let (e2, hdr, done2, h2) = add_section_payload_lem e1 v1 profile h1 in
      let (e3, done3, h3) =
        update_section_header_lem e2 _ ss hdr profile (length strs.data') place h2 refl in
      let (e4, done4, h4) = adjust_sec_table_offset_lem e3 _ (length profile) h3 in
      let (e5, done5, h5) = laws.flagelf_dirty_law e4 in
      let (e6, done6, h6) = laws.elf_update_law e5 in
      (
        e6,
        k,
        s,
        ap (λ (x : ElfFile). get_elem? x.sections k) (sym h1) ∙ at',
        subst (λ (x : ElfFile). AtMost s.shdr.sh_offset x.sections) h1 all,
        rw
            (
              take-length profile,
              (==_iff (length profile) (length profile)).1 refl,
              done0,
              done1,
              done_off,
              done2,
              done3,
              done4,
              done5,
              done6,
              laws.elf_end_law e6,
              add_profile_section,
            )
            refl,
        h6 ∙ h5 ∙ h4,
      )

  -- Where the names end in a zero, the place that add_section_name returns is that of the new name,
  -- and every name that was there reads as before.
  pub add_section_name-name_at :
      (e : E) (s : Section) (xs : List ℕ) (i : ℕ)
      → get_elem? (view e).sections (view e).shstrndx ≡ some s
      → s.data' ≡ xs ++ (0 ∷ [])
      → i ≤ length xs
      → (e' : E) × (sh_name : ℕ) × (names : List ℕ) × (add_section_name lib e new_section_name
          ≡ did (sh_name, e'))
        × (lib.getdata e' (view e).shstrndx ≡ some names)
        × (name_at names sh_name ≡ new_section_name)
        × (name_at names i ≡ name_at s.data' i)
  add_section_name-name_at e s xs i at zero_last old =
      let n = (view e).shstrndx in
      let (e', done, h) = add_section_name_lem e (view e) s refl at in
      (
        e',
        length s.data',
        names_then s.data' new_section_name,
        done,
        laws.getdata_law e' n (named s) (
            in_view e' _ n (named s) h
              (get_elem?-change_at n (λ _. named s) (view e).sections s at)),
        profile_name_at s.data',
        subst (λ l. name_at (names_then l new_section_name) i ≡ name_at l i) (sym zero_last)
            (old_name_at xs new_section_name i old),
      )
