-- ===== src/ElfManipulator/Whole.antt =====
-- add_elf_sections and main, whole.
use blackbox_profiling.Base.{
  get_elem?, length, ℕ, ◌+◌, ◌<◌, ◌≡◌, refl, sym, ap, ◌∙◌, subst, ◌≢◌, true, Option, none, some,
  List, [], ◌∷◌, ◌++◌,
}
use blackbox_profiling.ElfManipulator.{
  main, word32, went, ElfLib, or_junk, add_elf_sections, ElfPath, Ran, is_profiled,
}
use blackbox_profiling.Elfie.Names.{name_at}
use blackbox_profiling.Elfie.File.{
  length-change_at, get_elem?-change_at_other, change_at, get_elem?-before, get_elem?-last,
}
use blackbox_profiling.ElfManipulator.Update.{profile_file}
use blackbox_profiling.ElfManipulator.Names.{
  with_sections-Sound, with_index-keeps, more_names-before,
}
use blackbox_profiling.ElfManipulator.Add.{
  made, with_sections, add_elf_sections-with_sections, NamesIn-get, more_names, rename, parts_then,
}
use blackbox_profiling.ElfManipulator.Search.{is_profiled_lem, answer}
use blackbox_profiling.ElfManipulator.Shape.{
  behind_first, Sound, first_profile, Shape, profile_of, ElfLibLaws, Part,
}
use blackbox_profiling.ElfManipulator.Again.{with_sections-first_profile}

get_elem?-made :
    (v : Shape) (s : Sound v) (bytes : List ℕ)
    → get_elem? (parts_then v.parts s.index s.strs bytes) (length v.parts)
      ≡ some (made 1 (length s.strs.data') bytes)
get_elem?-made v s bytes =
    let names = s.strs.data' in
    let ps1 = change_at s.index (rename (length names + 9)) v.parts in
    let m = made 1 (length names) bytes in
    ap (get_elem? (parts_then v.parts s.index s.strs bytes))
      (sym (length-change_at s.index _ v.parts))
    ∙ get_elem?-before (ps1 ++ (m ∷ [])) _ m (length ps1) (get_elem?-last ps1 m)

get_elem?-kept :
    (v : Shape) (s : Sound v) (bytes : List ℕ) (i : ℕ) (p : Part)
    → s.index ≢ i
    → get_elem? v.parts i ≡ some p
    → get_elem? (parts_then v.parts s.index s.strs bytes) i ≡ some p
get_elem?-kept v s bytes i p other at =
    let ps1 = change_at s.index (rename (length s.strs.data' + 9)) v.parts in
    get_elem?-before (ps1 ++ (made 1 (length s.strs.data') bytes ∷ [])) _ p i
      (get_elem?-before ps1 _ p i (get_elem?-change_at_other s.index i _ v.parts other ∙ at))

module _ {E : Type 0} (elf : ElfLib E) (view : E → Shape) (laws : ElfLibLaws elf view) where
  -- In a file that is opened and closed without fault, whose names can be read, and where no
  -- section behind section 0 has the name ".profile", and with fewer names and sections than 2 ^ 32
  -- allows, add_elf_sections succeeds. The names of the new file can be read; the first section
  -- behind section 0 with the name ".profile" is a new one whose data is the profile; and a section
  -- `i` that was there, and is not the old table of names, reads the same name and has the same
  -- data.
  pub add_elf_sections_lem :
      (path : ElfPath E) (e : E) (s : Sound (view e)) (bytes : List ℕ) (i : ℕ) (p : Part)
      → path.elf_begin path.open_fd ≡ some e
      → path.closes ≡ true
      → length s.strs.data' + 9 < word32
      → length (view e).parts + 1 < word32
      → profile_of (view e) s ≡ none
      → s.index ≢ i
      → get_elem? (view e).parts i ≡ some p
      → (e' : E) × (v' : Shape) × (s' : Sound v') × (q : Part) × (add_elf_sections elf path
            (profile_file bytes)
          ≡ went e')
        × (view e' ≡ v')
        × (profile_of v' s' ≡ some (length (view e).parts))
        × (elf.lib.getdata e' (length (view e).parts) ≡ some bytes)
        × (get_elem? v'.parts i ≡ some q)
        × (q.data' ≡ p.data')
        × (name_at s'.strs.data' q.header.sh_name ≡ name_at s.strs.data' p.header.sh_name)
  add_elf_sections_lem path e s bytes i p opened closed few_names few_parts gone other at =
      let v = view e in
      let n = length v.parts + 1 in
      let base : Shape = record v { parts = parts_then v.parts s.index s.strs bytes } in
      let v' = with_sections v s bytes in
      let (e', done, h) =
        add_elf_sections-with_sections elf view laws path e s bytes opened closed few_names
          few_parts in
      let (s', table) = with_sections-Sound v s bytes in
      let (q, at_q, data_q, name_q, _) =
        with_index-keeps n i base p (get_elem?-kept v s bytes i p other at) in
      let (r, at_r, data_r, _, _) =
        with_index-keeps n (length v.parts) base _ (get_elem?-made v s bytes) in
      (
        e',
        v',
        s',
        q,
        done,
        h,
        ap (λ l. first_profile l 1 (behind_first v'.parts)) table
            ∙ with_sections-first_profile v s bytes gone,
        laws.getdata_law e' (length v.parts) r
              (ap (λ (x : Shape). get_elem? x.parts (length v.parts)) h ∙ at_r)
            ∙ ap some data_r,
        at_q,
        data_q,
        ap (λ l. name_at l q.header.sh_name) table
            ∙ ap (name_at (more_names s.strs.data')) name_q
            ∙ more_names-before s.strs.data' s.texts p.header.sh_name s.zero_last
                (NamesIn-get (length s.texts) i v.parts p s.names_in at),
      )

  -- A run of the program on the file and the profile.
  abbrev pub run : ElfPath E → List ℕ → Ran (Option E)
  run path bytes = main elf (λ _. path) (λ _. profile_file bytes) ([] ∷ [] ∷ [] ∷ [])

  run_adds :
      (path : ElfPath E) (e : E) (s : Sound (view e)) (bytes : List ℕ)
      → path.elf_begin path.open_fd ≡ some e
      → path.closes ≡ true
      → length s.strs.data' + 9 < word32
      → length (view e).parts + 1 < word32
      → profile_of (view e) s ≡ none
      → (e' : E) × (run path bytes ≡ went (some e')) × (view e' ≡ with_sections (view e) s bytes)
  unfolding main
  run_adds path e s bytes opened closed few_names few_parts gone =
      let (e', done, h) =
        add_elf_sections-with_sections elf view laws path e s bytes opened closed few_names
          few_parts in
      let asked = is_profiled_lem elf view laws path e s opened closed ∙ ap (answer elf e) gone in
      (e', rw (asked, done, main) refl, h)

  -- Where the file is opened and closed without fault, its names can be read, no section behind
  -- section 0 has the name ".profile", and names and sections are fewer than 2 ^ 32 allows, a run
  -- of the program succeeds. Where its result is opened and closed in turn, the search of another
  -- run finds the new section, which is the first of the name: what is_profiled returns then is
  -- what reading the index of that section gives behind elf_end.
  pub main_once :
      (path : ElfPath E) (e : E) (s : Sound (view e)) (bytes : List ℕ)
      → path.elf_begin path.open_fd ≡ some e
      → path.closes ≡ true
      → length s.strs.data' + 9 < word32
      → length (view e).parts + 1 < word32
      → profile_of (view e) s ≡ none
      → (e1 : E) × (run path bytes ≡ went (some e1))
        × (elf.lib.getdata e1 (length (view e).parts) ≡ some bytes)
        × (is_profiled elf (record path { elf_begin = λ _. some e1 })
            ≡ or_junk (elf.ndxscn_ended e1 (length (view e).parts)))
  main_once path e s bytes opened closed few_names few_parts gone =
      let v = view e in
      let (e1, done1, h1) = run_adds path e s bytes opened closed few_names few_parts gone in
      let (s1, table) = with_sections-Sound v s bytes in
      let base : Shape = record v { parts = parts_then v.parts s.index s.strs bytes } in
      let (q, at, data_q, _, _) =
        with_index-keeps (length v.parts + 1) (length v.parts) base _ (get_elem?-made v s bytes) in
      let found1 =
        ap (λ l. first_profile l 1 (behind_first (with_sections v s bytes).parts)) table
        ∙ with_sections-first_profile v s bytes gone in
      let path1 = record path { elf_begin = λ _. some e1 } in
      (
        e1,
        done1,
        laws.getdata_law e1 (length v.parts) q
              (ap (λ (x : Shape). get_elem? x.parts (length v.parts)) h1 ∙ at)
            ∙ ap some data_q,
        subst
            (λ x.
              (t : Sound x)
              → profile_of x t ≡ some (length v.parts)
              → is_profiled elf path1 ≡ or_junk (elf.ndxscn_ended e1 (length v.parts)))
            h1
            (λ t there.
              is_profiled_lem elf view laws path1 e1 t refl closed ∙ ap (answer elf e1) there)
            s1 found1,
      )
