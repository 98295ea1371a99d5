-- ===== src/FunctimeModule/Populate.antt =====
-- populate_vma_page_range and __mm_populate_mod of
-- functime_debugger/kernel/functime_kernel_module.c: fault in the pages of an address range.
pub mod Ends
use Prim.Native.Nat.{min}
use blackbox_profiling.Base.{
  ℕ, zero, suc, ◌+◌, ◌/◌, ◌%◌, Bool, true, false, not, ◌&&◌, ◌||◌, Option, none, some, List, [],
  ◌∷◌, ◌==◌, ltb, leb, if◌then◌else◌, add_word, sub_word, mul_word, page_size,
}
use blackbox_profiling.Linux.{Vma, Gup, GupFlags, GupRet, pages, failed, Faulted}

-- The flags with which the pages of an area are touched: a private writable area with a write
-- fault, and any area with a permission by force.
pub gup_flags : Vma → GupFlags
gup_flags v = record {
  write = v.vm_flags.writable && not v.vm_flags.shared;
  force = v.vm_flags.readable || v.vm_flags.writable || v.vm_flags.executable;
}

-- The assertions of the function; `locked` says whether mmap_sem is held.
abbrev pub assertions : Vma → ℕ → ℕ → Bool → Bool
assertions v start end locked =
    (start % page_size == 0)
    && (end % page_size == 0)
    && leb v.vm_start start
    && leb end v.vm_end
    && locked

-- `none` is a failed assertion.
unfoldable pub populate_vma_page_range : Gup → Vma → ℕ → ℕ → Bool → (ℕ → ℕ) → Option Faulted
populate_vma_page_range g v start end locked ptes =
    if assertions v start end locked
    then some (g.get_user_pages start (sub_word end start / page_size) (gup_flags v) ptes)
    else none

-- The variables of the loop. `vma` is the current area with those behind it.
pub record Pop : Type 0 where
  pub locked : Bool
  pub vma : List Vma
  pub nstart : ℕ
  pub ptes : ℕ → ℕ

-- `finished` has the return value: `none` for 0, or the error number.
pub data Populated : Type 0 where
  finished : Option ℕ → Pop → Populated
  bug out_of_fuel : Populated

-- The current area, or the one behind it if the loop has come to its end.
abbrev pub advance : ℕ → List Vma → List Vma
advance nstart [] = []
advance nstart (v ∷ vs) = if leb v.vm_end nstart then vs else v ∷ vs

-- The area of this round.
abbrev pub next_area : Gup → List Vma → Pop → List Vma
next_area g mmap s = if s.locked then advance s.nstart s.vma else g.find_vma mmap s.nstart

module _ (g : Gup) (mmap : List Vma) (ignore_errors : Bool) (end : ℕ) where
  -- What follows the attempt to fault in [nstart, nend).
  unfoldable pub after_fault : ℕ → ℕ → Pop → (Pop → Populated) → GupRet → Populated
  after_fault nstart nend t continue (pages n) =
      continue (record t { nstart = add_word nstart (mul_word n page_size) })
  after_fault nstart nend t continue (failed e) =
      let retry = continue (record t { nstart = nend }) in
      if ignore_errors then retry else finished (some e) (record t { nstart = nstart })

  -- A round in the area `v`, with the loop that goes on behind it.
  unfoldable pub round : Vma → List Vma → Pop → (Pop → Populated) → Populated
  unfolding populate_vma_page_range after_fault
  round v vs s continue =
      let nend = min end v.vm_end in
      let here = record s { locked = true; vma = v ∷ vs } in
      let nstart = if ltb s.nstart v.vm_start then v.vm_start else s.nstart in
      let skipped = continue (record here { nstart = nend }) in
      let touched : Populated = elim (populate_vma_page_range g v nstart nend true s.ptes) [
        | none ↦ bug
        | some f ↦
            after_fault nstart nend (record here { locked = f.locked; ptes = f.ptes }) continue
              f.ret
      ] in
      if v.vm_flags.io || v.vm_flags.pfnmap then skipped else touched

  -- The rest of the loop's body, once the area of the round is known.
  unfoldable pub visit_area : List Vma → Pop → (Pop → Populated) → Populated
  visit_area [] s continue = finished none (record s { locked = true; vma = [] })
  visit_area (v ∷ vs) s continue =
      if leb end v.vm_start
      then finished none (record s { locked = true; vma = v ∷ vs })
      else round v vs s continue

  unfoldable pub populate_loop : ℕ → Pop → Populated
  populate_loop zero s = out_of_fuel
  populate_loop (suc fuel) s =
      let body = visit_area (next_area g mmap s) s (populate_loop fuel) in
      if ltb s.nstart end then body else finished none s

-- The two assertions on the range stand first. Each round but the last moves on by a page or more,
-- so the fuel is one more than the pages of the range.
unfoldable pub mm_populate : Gup → List Vma → Bool → ℕ → ℕ → (ℕ → ℕ) → Populated
unfolding populate_loop visit_area round
mm_populate g mmap ignore_errors start len ptes =
    if start % page_size == 0 && len % page_size == 0
    then populate_loop g mmap ignore_errors (add_word start len) (len / page_size + 1)
        (record { locked = false; vma = []; nstart = start; ptes = ptes })
    else bug
