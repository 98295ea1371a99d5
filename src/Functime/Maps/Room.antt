-- ===== src/Functime/Maps/Room.antt =====
-- The table of areas fills up over the scans, and the size of the heap is read off its line.
use blackbox_profiling.Base.{
  ℕ, Option-cases, length, drop_last, ◌+◌, ◌≤◌, ◌≡◌, refl, ◌≢◌, inl, inr, Option, none, some, List,
  [], ◌∷◌, arith, missed, ◌<◌, ◌==◌, Bool-cases, ltb→lt, ltb→le, ltb, zero, suc, ◌*◌, ap, ◌∙◌,
  ==_iff,
}
use blackbox_profiling.Functime.Maps.{
  scan_lines, MapsState, max_num_vma, MapsLine, scan_proc_maps_line, read_proc_maps_file, unknown,
  MapsVma, fill_vma, heap_of, scan_runs, ensure_heap,
}

module _ (sscanf : List ℕ → Option MapsLine) where
  abbrev pub AllParse : List (List ℕ) → Type 0
  AllParse [] = Unit {0}
  AllParse (l ∷ ls) = (sscanf (drop_last l) ≢ none) × AllParse ls

  -- The size in pages of the last heap among the lines, or the size known before.
  unfoldable pub last_heap : List (List ℕ) → ℕ → ℕ
  last_heap [] size = size
  last_heap (l ∷ ls) size =
      last_heap ls (elim (sscanf (drop_last l)) [ none ↦ size | some m ↦ heap_of m size ])

  scan_line-room :
      (nvma : ℕ) (buf defname : List ℕ) (s : MapsState) (m : MapsLine)
      → sscanf buf ≡ some m
      → s.used < max_num_vma
      → (v : MapsVma) × (s' : MapsState) × (scan_proc_maps_line sscanf nvma buf defname s
          ≡ some (v, s'))
        × (s'.used ≡ s.used + 1)
        × (s'.heap_size ≡ heap_of m s.heap_size)
  unfolding scan_proc_maps_line
  scan_line-room nvma buf defname s m e h = (
    fill_vma nvma buf defname m,
    record s {
      used = s.used + 1;
      vmas = fill_vma nvma buf defname m ∷ s.vmas;
      heap_size = heap_of m s.heap_size;
    },
    rw (e, missed s.used max_num_vma (omega arith), scan_proc_maps_line),
    refl,
    refl,
  )

  scan_lines-room :
      (nvma : ℕ) (ls : List (List ℕ)) (defname : List ℕ) (s : MapsState)
      → AllParse ls
      → s.used + length ls ≤ max_num_vma
      → (s' : MapsState) × (scan_lines sscanf nvma ls defname s ≡ some s')
        × (s'.used ≡ s.used + length ls)
        × (s'.heap_size ≡ last_heap ls s.heap_size)
  unfolding scan_lines scan_proc_maps_line last_heap
  scan_lines-room nvma [] defname s p h = (s, refl, omega arith, refl)
  scan_lines-room nvma (l ∷ ls) defname s p h = elim (Option-cases (sscanf (drop_last l))) [
    | inl e ↦ absurd (p.0 e)
    | inr (m, e) ↦
        let (v, s1, scanned, used, size) =
          scan_line-room nvma (drop_last l) defname s m e (omega arith) in
        let (s', rest, used', size') =
          scan_lines-room (nvma + 1) ls v.mappedfile s1 p.1 (omega arith) in
        (s', rw (scanned, rest, scan_lines), omega arith, rw e (rw (← size) size'))
  ]

-- A scan whose lines all parse, and for which the table has room, succeeds: it takes one slot of
-- the table for each line, and leaves the size of the last heap among the lines, or that known
-- before.
pub read_proc_maps_file_room :
    (sscanf : List ℕ → Option MapsLine) (ls : List (List ℕ)) (s : MapsState)
    → AllParse sscanf ls
    → s.used + length ls ≤ max_num_vma
    → (s' : MapsState) × (read_proc_maps_file sscanf (some ls) s ≡ some s')
      × (s'.used ≡ s.used + length ls)
      × (s'.heap_size ≡ last_heap sscanf ls s.heap_size)
unfolding read_proc_maps_file
read_proc_maps_file_room sscanf ls s p h = scan_lines-room sscanf 0 ls unknown s p h

module _ (sscanf : List ℕ → Option MapsLine) where
  scan_lines-full :
      (nvma : ℕ) (ls : List (List ℕ)) (defname : List ℕ) (s : MapsState)
      → s.used ≤ max_num_vma
      → max_num_vma < s.used + length ls
      → scan_lines sscanf nvma ls defname s ≡ none
  unfolding scan_lines scan_proc_maps_line
  scan_lines-full nvma [] defname s le h = absurd (omega arith)
  scan_lines-full nvma (l ∷ ls) defname s le h = elim (Option-cases (sscanf (drop_last l))) [
    | inl e ↦ rw (e, scan_proc_maps_line, scan_lines)
    | inr (m, e) ↦ elim (Bool-cases (s.used == max_num_vma)) [
      | inl f ↦ rw (e, f, scan_proc_maps_line, scan_lines)
      | inr f ↦
          let (v, s1, scanned, used, size) =
            scan_line-room sscanf nvma (drop_last l) defname s m e (ground arith) in
          rw (scanned, scan_lines)
            (scan_lines-full (nvma + 1) ls v.mappedfile s1 (ground arith) (omega arith))
    ]
  ]

-- A scan for which the table has no room crashes, whatever its lines say.
pub read_proc_maps_file_full :
    (sscanf : List ℕ → Option MapsLine) (ls : List (List ℕ)) (s : MapsState)
    → s.used ≤ max_num_vma
    → max_num_vma < s.used + length ls
    → read_proc_maps_file sscanf (some ls) s ≡ none
unfolding read_proc_maps_file
read_proc_maps_file_full sscanf ls s le h = scan_lines-full sscanf 0 ls unknown s le h

-- A process whose maps name no heap is scanned again in every run, and a later run crashes: the one
-- in which the lines scanned so far pass 1024.
pub scan_runs_full :
    (sscanf : List ℕ → Option MapsLine) (ls : List (List ℕ)) (n : ℕ) (s : MapsState)
    → AllParse sscanf ls
    → last_heap sscanf ls 0 ≡ 0
    → s.heap_size ≡ 0
    → s.used ≤ max_num_vma
    → max_num_vma < s.used + n * length ls
    → scan_runs sscanf (some ls) n s ≡ none
unfolding scan_runs ensure_heap
scan_runs_full sscanf ls zero s p e z le h = absurd (omega arith)
scan_runs_full sscanf ls (suc n) s p e z le h =
    elim (Bool-cases (ltb max_num_vma (s.used + length ls))) [
      | inl f ↦ rw (
        (==_iff s.heap_size 0).1 z,
        read_proc_maps_file_full sscanf ls s le (ltb→lt _ _ f),
        scan_runs,
      )
      | inr f ↦
          let (s', done, used, size) = read_proc_maps_file_room sscanf ls s p (ltb→le _ _ f) in
          rw ((==_iff s.heap_size 0).1 z, done, scan_runs)
            (scan_runs_full sscanf ls n s' p e (size ∙ ap (last_heap sscanf ls) z ∙ e)
              (omega (arith, ltb→le _ _ f)) (omega arith))
    ]
