-- ===== src/Functime/Waiting.antt =====
-- The loop of handle_tracee_signals in functime_debugger/functime.c, against the signals that
-- arrive.
use blackbox_profiling.Base.{◌≡◌, Bool, true, false, refl, subst, arith}

-- Where the loop stands: before the test of `done`, between the test and sigsuspend, in sigsuspend,
-- or behind the loop.
pub data Place : Type 0 where
  testing deciding suspended left_loop : Place

-- `alive`: the tracee can still send a SIGCHLD.
pub record Waiting : Type 0 where
  pub place : Place
  pub done : Bool
  pub alive : Bool

-- A signal ends sigsuspend, and is handled at any other place too: nothing blocks it.
abbrev pub wake : Place → Place
wake testing = testing
wake deciding = deciding
wake suspended = testing
wake left_loop = left_loop

-- A step of the loop, or a signal: the tracee stops, or exits and the handler sets `done`.
pub data Step (s : Waiting) : Waiting → Type 0 where
  stay : s.place ≡ testing → s.done ≡ false → Step s (record s { place = deciding })
  suspend : s.place ≡ deciding → Step s (record s { place = suspended })
  leave : s.place ≡ testing → s.done ≡ true → Step s (record s { place = left_loop; done = false })
  halted : s.alive ≡ true → Step s (record s { place = wake s.place })
  ended : s.alive ≡ true → Step s (record { place = wake s.place; done = true; alive = false })

pub data Reach (s : Waiting) : Waiting → Type 0 where
  started : Reach s s
  moved : {t u : Waiting} → Reach s t → Step t u → Reach s u

-- Waiting in sigsuspend for a tracee that is gone.
abbrev pub lost : Waiting
lost = record { place = suspended; done = true; alive = false }

stuck : (v : Waiting) → Step lost v → ⊥
stuck v (stay p d) = cc
stuck v (suspend p) = cc
stuck v (leave p d) = cc
stuck v (halted a) = cc
stuck v (ended a) = cc

to_lost :
    (s : Waiting) → Reach s (record { place = testing; done = false; alive = true }) → Reach s lost
to_lost s r = moved (moved (moved r (stay refl refl)) (ended refl)) (suspend refl)

-- From every state in which the loop is about to test `done` while the tracee runs, a state can be
-- reached that has no next step, and in which the tracee is gone but the loop has not ended: the
-- last signal comes between the test and sigsuspend.
pub lost_wakeup :
    (s v : Waiting)
    → s.place ≡ testing
    → s.done ≡ false
    → s.alive ≡ true
    → Reach s lost × ¬ (Step lost v)
lost_wakeup s v p d a = (
  to_lost s (subst (Reach s) (λ i. record { place = p i; done = d i; alive = a i }) started),
  stuck v,
)

record Inv (s : Waiting) : Type 0 where
  told : s.done ≡ true → s.alive ≡ false
  left : s.place ≡ left_loop → s.alive ≡ false

Step-Inv : {s t : Waiting} → Inv s → Step s t → Inv t
Step-Inv h (stay p d) = ground arith
Step-Inv h (suspend p) = ground arith
Step-Inv h (leave p d) = ground arith
Step-Inv h (halted a) = ground arith
Step-Inv h (ended a) = ground arith

Reach-Inv : {s t : Waiting} → Inv s → Reach s t → Inv t
Reach-Inv h started = h
Reach-Inv h (moved r st) = Step-Inv (Reach-Inv h r) st

-- The loop never ends before the tracee has exited.
pub leaves_after_exit :
    (s u : Waiting)
    → s.place ≡ testing
    → s.done ≡ false
    → Reach s u
    → u.place ≡ left_loop
    → u.alive ≡ false
leaves_after_exit s u p d r f = (Reach-Inv (record { told = λ e. cc; left = λ e. cc }) r).left f
