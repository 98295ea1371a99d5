-- ===== src/Elfie/File.antt =====
-- What the program relies on of libelf, as a view of an ELF file: where nothing fails, each call
-- does to the view what it is documented to do.
use blackbox_profiling.Base.{
  ℕ, get_elem?, length, zero, suc, ◌≡◌, refl, ap, ◌≢◌, true, some, List, [], ◌∷◌, ◌++◌, sym, subst,
  some-injective,
}
use blackbox_profiling.Elfie.{Ehdr, Shdr, Libelf}

pub record Section : Type 0 where
  pub shdr : Shdr
  pub data' : List ℕ

pub record ElfFile : Type 0 where
  pub shstrndx : ℕ
  pub e_shoff : ℕ
  pub sections : List Section

abbrev pub change_at : {A : Type 0} → ℕ → (A → A) → List A → List A
change_at i f [] = []
change_at zero f (s ∷ ss) = f s ∷ ss
change_at (suc i) f (s ∷ ss) = s ∷ change_at i f ss

pub length-change_at :
    {A : Type 0} (i : ℕ) (f : A → A) (ss : List A) → length (change_at i f ss) ≡ length ss
length-change_at i f [] = refl
length-change_at zero f (s ∷ ss) = refl
length-change_at (suc i) f (s ∷ ss) = ap suc (length-change_at i f ss)

-- A section changed at its place.
pub get_elem?-change_at :
    {A : Type 0} (i : ℕ) (f : A → A) (ss : List A) (s : A)
    → get_elem? ss i ≡ some s
    → get_elem? (change_at i f ss) i ≡ some (f s)
get_elem?-change_at i f [] s h = cc
get_elem?-change_at zero f (t ∷ ss) s h = cc
get_elem?-change_at (suc i) f (t ∷ ss) s h = get_elem?-change_at i f ss s h

pub get_elem?-change_at_other :
    {A : Type 0} (i j : ℕ) (f : A → A) (ss : List A)
    → i ≢ j
    → get_elem? (change_at i f ss) j ≡ get_elem? ss j
get_elem?-change_at_other i j f [] n = refl
get_elem?-change_at_other zero zero f (t ∷ ss) n = absurd (n refl)
get_elem?-change_at_other zero (suc j) f (t ∷ ss) n = refl
get_elem?-change_at_other (suc i) zero f (t ∷ ss) n = refl
get_elem?-change_at_other (suc i) (suc j) f (t ∷ ss) n =
    get_elem?-change_at_other i j f ss (λ e. n (ap suc e))

-- The new section is the last one.
pub get_elem?-last :
    {A : Type 0} (ss : List A) (s : A) → get_elem? (ss ++ (s ∷ [])) (length ss) ≡ some s
get_elem?-last [] s = refl
get_elem?-last (t ∷ ss) s = get_elem?-last ss s

pub get_elem?-before :
    {A : Type 0} (ss : List A) (s t : A) (i : ℕ)
    → get_elem? ss i ≡ some t
    → get_elem? (ss ++ (s ∷ [])) i ≡ some t
get_elem?-before [] s t i h = cc
get_elem?-before (u ∷ ss) s t zero h = h
get_elem?-before (u ∷ ss) s t (suc i) h = get_elem?-before ss s t i h

pub change_at-last :
    {A : Type 0} (ss : List A) (s : A) (f : A → A)
    → change_at (length ss) f (ss ++ (s ∷ [])) ≡ ss ++ (f s ∷ [])
change_at-last [] s f = refl
change_at-last (t ∷ ss) s f = ap (λ x. t ∷ x) (change_at-last ss s f)

pub change_at-twice :
    {A : Type 0} (i : ℕ) (f g : A → A) (ss : List A)
    → change_at i f (change_at i g ss) ≡ change_at i (λ s. f (g s)) ss
change_at-twice i f g [] = refl
change_at-twice zero f g (s ∷ ss) = refl
change_at-twice (suc i) f g (s ∷ ss) = ap (λ l. s ∷ l) (change_at-twice i f g ss)

-- Two functions that agree on the section there.
pub change_at-agrees :
    {A : Type 0} (i : ℕ) (f g : A → A) (ss : List A) (s : A)
    → get_elem? ss i ≡ some s
    → f s ≡ g s
    → change_at i f ss ≡ change_at i g ss
change_at-agrees i f g [] s at same = refl
change_at-agrees zero f g (t ∷ ss) s at same =
    ap (λ x. x ∷ ss) (subst (λ x. f x ≡ g x) (sym (some-injective t s at)) same)
change_at-agrees (suc i) f g (t ∷ ss) s at same =
    ap (λ l. t ∷ l) (change_at-agrees i f g ss s at same)

abbrev pub put_data : List ℕ → Section → Section
put_data d s = record s { data' = d }

abbrev pub put_shdr : Shdr → Section → Section
put_shdr h s = record s { shdr = h }

-- Each call on a section names one that is there. A new section comes last, with a descriptor and
-- data of no known content.
pub record LibelfLaws {E : Type 0} (lib : Libelf E) (view : E → ElfFile) : Type 0 where
  pub getshdrstrndx_law : (e : E) → lib.getshdrstrndx e ≡ some ((view e).shstrndx)
  pub getscn_law :
      (e : E) (i : ℕ) (s : Section) → get_elem? (view e).sections i ≡ some s → lib.getscn e i ≡ true
  pub getdata_law :
      (e : E) (i : ℕ) (s : Section)
      → get_elem? (view e).sections i ≡ some s
      → lib.getdata e i ≡ some s.data'
  pub getshdr_law :
      (e : E) (i : ℕ) (s : Section)
      → get_elem? (view e).sections i ≡ some s
      → lib.getshdr e i ≡ some s.shdr
  pub getehdr_law :
      (e : E)
      → lib.getehdr e
        ≡ some (record { e_shoff = (view e).e_shoff; e_shnum = length (view e).sections })
  -- Data that elf_newdata made is written as it is; other data has to be marked as dirty.
  pub setdata_new_law :
      (e e1 : E) (i : ℕ) (d : List ℕ)
      → lib.newdata e i ≡ some e1
      → view (lib.setdata e1 i d)
        ≡ record (view e1) { sections = change_at i (put_data d) (view e1).sections }
  pub flagdata_law :
      (e : E) (i : ℕ) (d : List ℕ)
      → view (lib.flagdata (lib.setdata e i d) i)
        ≡ record (view e) { sections = change_at i (put_data d) (view e).sections }
  pub update_shdr_law :
      (e : E) (i : ℕ) (h : Shdr) (s : Section)
      → get_elem? (view e).sections i ≡ some s
      → (e' : E) × (lib.update_shdr e i h ≡ some e')
        × (view e' ≡ record (view e) { sections = change_at i (put_shdr h) (view e).sections })
  pub update_ehdr_law :
      (e : E) (h : Ehdr)
      → h.e_shnum ≡ length (view e).sections
      → (e' : E) × (lib.update_ehdr e h ≡ some e')
        × (view e' ≡ record (view e) { e_shoff = h.e_shoff })
  pub newscn_law :
      (e : E)
      → (e' : E) × (s : Section) × (lib.newscn e ≡ some (length (view e).sections, e'))
        × (view e' ≡ record (view e) { sections = (view e).sections ++ (s ∷ []) })
  pub newdata_law : (e : E) (i : ℕ) → (e' : E) × (lib.newdata e i ≡ some e') × (view e' ≡ view e)
  pub flagelf_layout_law :
      (e : E) → (e' : E) × (lib.flagelf_layout e ≡ some e') × (view e' ≡ view e)
  pub flagelf_dirty_law : (e : E) → (e' : E) × (lib.flagelf_dirty e ≡ some e') × (view e' ≡ view e)
  pub elf_update_law : (e : E) → (e' : E) × (lib.elf_update e ≡ some e') × (view e' ≡ view e)
  pub elf_end_law : (e : E) → lib.elf_end e ≡ true
