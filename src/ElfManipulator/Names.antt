-- ===== src/ElfManipulator/Names.antt =====
-- The names of the sections in a file that add_elf_sections has written.
use blackbox_profiling.Base.{
  ltb, Bool-cases, drop, length-append, get_elem?, length, ℕ, zero, suc, ◌+◌, ◌≤◌, ◌≡◌, refl, sym,
  ap, ◌∙◌, subst, inl, inr, some, some-injective, List, [], ◌∷◌, ◌++◌, append_assoc, arith,
}
use blackbox_profiling.ElfManipulator.{old_shstrtab_name, shn_loreserve}
use blackbox_profiling.Elfie.{new_section_name}
use blackbox_profiling.Elfie.Names.{name_at, drop-length, name_at-before, c_string}
use blackbox_profiling.Elfie.File.{get_elem?-before, change_at, length-change_at, get_elem?-last}
use blackbox_profiling.ElfManipulator.Update.{names_index-with_index, with_index, put_link}
use blackbox_profiling.ElfManipulator.Add.{
  has_first, with_sections, parts_then, NamesIn-get, made, rename, more_names,
}
use blackbox_profiling.ElfManipulator.Shape.{Part, Sound, Shape, NamesIn}

-- The texts of the new table.
abbrev pub more_texts : List ℕ → List ℕ
more_texts names = names ++ (new_section_name ++ (0 ∷ old_shstrtab_name))

more_names-more_texts : (names : List ℕ) → more_names names ≡ more_texts names ++ (0 ∷ [])
more_names-more_texts names =
    sym (append_assoc names (new_section_name ++ (0 ∷ old_shstrtab_name)) (0 ∷ []))

length-more_texts : (names : List ℕ) → length (more_texts names) ≡ length names + 22
length-more_texts names = length-append names (new_section_name ++ (0 ∷ old_shstrtab_name))

drop-past : (xs ys : List ℕ) (k : ℕ) → drop (length xs + k) (xs ++ ys) ≡ drop k ys
drop-past [] ys k = let e : length {A = ℕ} [] + k ≡ k = omega arith in ap (λ n. drop n ys) e
drop-past (x ∷ xs) ys k =
    let e : suc (length xs) + k ≡ suc (length xs + k) = omega arith in
    ap (λ n. drop n (x ∷ (xs ++ ys))) e ∙ drop-past xs ys k

-- The three kinds of names in the new table.
pub more_names-profile :
    (names : List ℕ) → name_at (more_names names) (length names) ≡ new_section_name
more_names-profile names = ap c_string (drop-length names _)

pub more_names-renamed :
    (names : List ℕ) → name_at (more_names names) (length names + 9) ≡ old_shstrtab_name
more_names-renamed names = ap c_string (drop-past names _ 9)

pub more_names-before :
    (names xs : List ℕ) (i : ℕ)
    → names ≡ xs ++ (0 ∷ [])
    → i ≤ length xs
    → name_at (more_names names) i ≡ name_at names i
more_names-before names xs i last small =
    subst (λ l. name_at (more_names l) i ≡ name_at l i) (sym last)
      (ap (λ l. name_at l i) (append_assoc xs (0 ∷ []) _) ∙ name_at-before xs _ i small)

NamesIn-more : (m n : ℕ) (ps : List Part) → m ≤ n → NamesIn m ps → NamesIn n ps
NamesIn-more m n [] le h = tt
NamesIn-more m n (p ∷ ps) le h = (omega (arith, h.0), NamesIn-more m n ps le h.1)

NamesIn-snoc :
    (m : ℕ) (ps : List Part) (p : Part)
    → NamesIn m ps
    → p.header.sh_name ≤ m
    → NamesIn m (ps ++ (p ∷ []))
NamesIn-snoc m [] p h le = (le, tt)
NamesIn-snoc m (q ∷ ps) p h le = (h.0, NamesIn-snoc m ps p h.1 le)

NamesIn-rename :
    (m i n : ℕ) (ps : List Part) → n ≤ m → NamesIn m ps → NamesIn m (change_at i (rename n) ps)
NamesIn-rename m i n [] le h = tt
NamesIn-rename m zero n (p ∷ ps) le h = (le, h.1)
NamesIn-rename m (suc i) n (p ∷ ps) le h = (h.0, NamesIn-rename m i n ps le h.1)

NamesIn-put_link :
    (m n : ℕ) (ps : List Part) → NamesIn m ps → NamesIn m (change_at 0 (put_link n) ps)
NamesIn-put_link m n [] h = tt
NamesIn-put_link m n (p ∷ ps) h = h

NamesIn-with_index : (m n : ℕ) (v : Shape) → NamesIn m v.parts → NamesIn m (with_index n v).parts
NamesIn-with_index m n v h = elim (Bool-cases (ltb n shn_loreserve)) [
  | inl low ↦ rw low h
  | inr high ↦ rw high (NamesIn-put_link m n v.parts h)
]

put_link-keeps :
    (n i : ℕ) (ps : List Part) (p : Part)
    → get_elem? ps i ≡ some p
    → (q : Part) × (get_elem? (change_at 0 (put_link n) ps) i ≡ some q)
      × (q.data' ≡ p.data')
      × (q.header.sh_name ≡ p.header.sh_name)
      × (q.header.sh_type ≡ p.header.sh_type)
put_link-keeps n i [] p at = cc
put_link-keeps n zero (r ∷ ps) p at = (
  put_link n r,
  refl,
  ap (λ (x : Part). x.data') (some-injective r p at),
  ap (λ (x : Part). x.header.sh_name) (some-injective r p at),
  ap (λ (x : Part). x.header.sh_type) (some-injective r p at),
)
put_link-keeps n (suc i) (r ∷ ps) p at = (p, at, refl, refl, refl)

-- What the new index leaves as it is in a section.
pub with_index-keeps :
    (n i : ℕ) (v : Shape) (p : Part)
    → get_elem? v.parts i ≡ some p
    → (q : Part) × (get_elem? (with_index n v).parts i ≡ some q)
      × (q.data' ≡ p.data')
      × (q.header.sh_name ≡ p.header.sh_name)
      × (q.header.sh_type ≡ p.header.sh_type)
with_index-keeps n i v p at = elim (Bool-cases (ltb n shn_loreserve)) [
  | inl low ↦ rw low (p, at, refl, refl, refl)
  | inr high ↦ rw high (put_link-keeps n i v.parts p at)
]

pub length-with_profile :
    (v : Shape) (i : ℕ) (strs : Part) (bytes : List ℕ)
    → length (
        change_at i (rename (length strs.data' + 9)) v.parts
        ++ (made 1 (length strs.data') bytes ∷ []))
      ≡ length v.parts + 1
length-with_profile v i strs bytes =
    length-append (change_at i (rename (length strs.data' + 9)) v.parts) _
    ∙ ap (λ n. n + 1) (length-change_at i _ v.parts)

-- The names of the new file can be read, in the new table.
pub with_sections-Sound :
    (v : Shape) (s : Sound v) (bytes : List ℕ)
    → (s' : Sound (with_sections v s bytes)) × (s'.strs.data' ≡ more_names s.strs.data')
with_sections-Sound v s bytes =
    let names = s.strs.data' in
    let n = length v.parts + 1 in
    let ps1 = change_at s.index (rename (length names + 9)) v.parts in
    let ps2 = ps1 ++ (made 1 (length names) bytes ∷ []) in
    let table = made 3 s.strs.header.sh_name (more_names names) in
    let v' : Shape = record v { parts = parts_then v.parts s.index s.strs bytes } in
    let size : length names ≡ length s.texts + 1 =
      ap length s.zero_last ∙ length-append s.texts (0 ∷ []) in
    let m = length (more_texts names) in
    let room : m ≡ length names + 22 = length-more_texts names in
    let old = NamesIn-get (length s.texts) s.index v.parts s.strs s.names_in s.there in
    let (q, first) = has_first s.index (rename (length names + 9)) v.parts s.strs s.there in
    let here =
      ap (get_elem? (ps2 ++ (table ∷ []))) (sym (length-with_profile v s.index s.strs bytes))
      ∙ get_elem?-last ps2 table in
    let (t, at, bytes_kept, _, type_kept) = with_index-keeps n n v' table here in
    (
      record {
        index = n;
        strs = t;
        texts = more_texts names;
        is_index =
            names_index-with_index n v' q
              (get_elem?-before ps2 _ q 0 (get_elem?-before ps1 _ q 0 first));
        there = at;
        is_table = type_kept;
        zero_last = bytes_kept ∙ more_names-more_texts names;
        names_in = NamesIn-with_index m n v' (
            NamesIn-snoc m ps2 table
              (NamesIn-snoc m ps1 _
                (NamesIn-rename m s.index (length names + 9) v.parts (omega (arith, room))
                  (NamesIn-more (length s.texts) m v.parts (omega (arith, room, size)) s.names_in))
                (omega (arith, room)))
              (omega (arith, room, size, old)));
      },
      bytes_kept,
    )
