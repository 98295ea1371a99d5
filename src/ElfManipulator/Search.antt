-- ===== src/ElfManipulator/Search.antt =====
-- is_profiled against the first section of the name in the view.
use blackbox_profiling.Base.{
  Bool-cases, get_elem?, length, ℕ, ◌≤◌, ◌≡◌, refl, sym, ap, ◌∙◌, subst, inl, inr, true, Option,
  none, some, List, [], ◌∷◌, ◌++◌, append_assoc, suc,
}
use blackbox_profiling.ElfManipulator.{
  ElfPath, search_profile, farewell, Ran, went, preparation, ElfLib, or_junk, is_profiled,
  return_index,
}
use blackbox_profiling.Elfie.{Shdr}
use blackbox_profiling.ElfManipulator.Shape.{
  Shape, Part, ElfLibLaws, numbered, Header, is_profile, names_index, NamesIn, first_profile,
  behind_first, Sound, profile_of,
}
use blackbox_profiling.Elfie.Names.{name_at}

get_elem?-next :
    (before : List Part) (p : Part) (ps : List Part)
    → get_elem? (before ++ (p ∷ ps)) (length before) ≡ some p
get_elem?-next [] p ps = refl
get_elem?-next (q ∷ before) p ps = get_elem?-next before p ps

length-snoc : (before : List Part) (p : Part) → length (before ++ (p ∷ [])) ≡ suc (length before)
length-snoc [] p = refl
length-snoc (q ∷ before) p = ap suc (length-snoc before p)

-- What the search's result gives is_profiled.
abbrev pub answer : {E : Type 0} → ElfLib E → E → Option ℕ → Ran ℕ
answer elf e none = went 0
answer elf e (some k) = or_junk (elf.ndxscn_ended e k)

module _ {E : Type 0} (elf : ElfLib E) (view : E → Shape) (laws : ElfLibLaws elf view) where
  search_profile_lem :
      (e : E) (i : ℕ) (strs : Part) (xs : List ℕ) (before ps : List Part) (shdr : Option Shdr)
      → (view e).parts ≡ before ++ ps
      → get_elem? (view e).parts i ≡ some strs
      → strs.header.sh_type ≡ 3
      → strs.data' ≡ xs ++ (0 ∷ [])
      → NamesIn (length xs) ps
      → search_profile elf e i (numbered (length before) ps) shdr
        ≡ went (first_profile strs.data' (length before) ps)
  unfolding search_profile
  search_profile_lem e i strs xs before [] shdr split at table last names = refl
  search_profile_lem e i strs xs before (p ∷ ps) shdr split at table last names =
      let here = ap (λ l. get_elem? l (length before)) split ∙ get_elem?-next before p ps in
      let (h, read, same) = laws.getshdr_law e (length before) p here in
      let name =
        laws.strptr_law e i strs xs h.sh_name at table last
          (subst (λ (x : Header). x.sh_name ≤ length xs) (sym same) names.0)
        ∙ ap (λ (x : Header). some (name_at strs.data' x.sh_name)) same in
      let rest =
        search_profile_lem e i strs xs (before ++ (p ∷ [])) ps (some h)
          (split ∙ sym (append_assoc before (p ∷ []) ps)) at table last names.1 in
      elim (Bool-cases (is_profile strs.data' p)) [
        | inl hit ↦ rw (read, name, hit, search_profile) refl
        | inr miss ↦
            rw (read, name, miss, search_profile)
              (subst
                (λ n.
                  search_profile elf e i (numbered n ps) (some h)
                  ≡ went (first_profile strs.data' n ps))
                (length-snoc before p) rest)
      ]

  pub preparation_lem :
      (path : ElfPath E) (e : E) (i : ℕ)
      → path.elf_begin path.open_fd ≡ some e
      → names_index (view e) ≡ some i
      → preparation elf path ≡ went (e, i)
  unfolding preparation
  preparation_lem path e i opened at = rw (opened, laws.getshdrstrndx_law e i at, preparation) refl

  pub farewell_lem : (path : ElfPath E) (e : E) → path.closes ≡ true → farewell elf path e ≡ went tt
  unfolding farewell
  farewell_lem path e closed = rw (laws.elf_end_law e, closed, farewell) refl

  return_index_lem :
      (path : ElfPath E) (e : E) (o : Option ℕ)
      → path.closes ≡ true
      → return_index elf path e o ≡ answer elf e o
  unfolding return_index
  return_index_lem path e none closed = refl
  return_index_lem path e (some k) closed = rw (farewell_lem path e closed, return_index) refl

  search_from_first :
      (e : E) (i : ℕ) (strs : Part) (xs : List ℕ) (ps : List Part)
      → (view e).parts ≡ ps
      → get_elem? (view e).parts i ≡ some strs
      → strs.header.sh_type ≡ 3
      → strs.data' ≡ xs ++ (0 ∷ [])
      → NamesIn (length xs) ps
      → search_profile elf e i (numbered 1 (behind_first ps)) none
        ≡ went (first_profile strs.data' 1 (behind_first ps))
  unfolding search_profile
  search_from_first e i strs xs [] split at table last names = refl
  search_from_first e i strs xs (p ∷ ps) split at table last names =
      search_profile_lem e i strs xs (p ∷ []) ps none split at table last names.1

  -- In a file that is opened and closed without fault, and whose names can be read, is_profiled
  -- gives 0 where no section behind section 0 has the name ".profile"; otherwise it gives what
  -- elf_ndxscn reads, behind elf_end, of the first that has.
  pub is_profiled_lem :
      (path : ElfPath E) (e : E) (s : Sound (view e))
      → path.elf_begin path.open_fd ≡ some e
      → path.closes ≡ true
      → is_profiled elf path ≡ answer elf e (profile_of (view e) s)
  unfolding is_profiled
  is_profiled_lem path e s opened closed =
      let looked =
        search_from_first e s.index s.strs s.texts (view e).parts refl s.there s.is_table
          s.zero_last s.names_in in
      rw
        (preparation_lem path e s.index opened s.is_index, laws.nextscns_law e, looked, is_profiled)
        (return_index_lem path e (profile_of (view e) s) closed)
