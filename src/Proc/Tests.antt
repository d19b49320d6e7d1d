-- ===== src/Proc/Tests.antt =====
-- Runs on a small table of processes, and the theorems at such inputs.
use octox.Base.{ℕ, ◌+◌, ◌≡◌, refl, true, false, List, [], ◌∷◌, arith, some, done}
use octox.Proc.Defs.{
  Proc, sleeping, runnable, running, zombie, child_at, exit, alloc_proc, new, scan, reaped, keep,
  free_proc,
}
use octox.Proc.Handover.{Zombie, Runs, exit-handover}
use octox.Proc.Reap.{ScanPost, scan-post}

abbrev addr : ℕ → ℕ
addr i = 1000 + i

-- init, a parent asleep in `wait`, its child, and a child of the child.
abbrev init_proc : Proc
init_proc = record new { state = running; pid = 0 }

abbrev parent : Proc
parent = record new { state = sleeping; pid = 1; parent = some 0; chan = 1001 }

abbrev child : Proc
child = record new { state = running; pid = 2; parent = some 1 }

abbrev family : List Proc
family = init_proc ∷ parent ∷ child ∷ record new { state = runnable; pid = 3; parent = some 2 } ∷ []

exit-handover_example :
    (qs : List Proc) × (exit addr 2 0 7 family ≡ done qs)
    × Zombie 2 1 7 qs
    × Runs 1 qs
    × ((j : ℕ) → child_at 2 j qs ≡ false)
    × ((j : ℕ) → child_at 2 j family ≡ true → child_at 0 j qs ≡ true)
exit-handover_example =
    exit-handover addr 2 0 1 7 family child parent (ground arith) (ground arith) refl refl refl refl
      refl

abbrev dead : Proc
dead = record new { state = zombie; pid = 2; xstate = 7; parent = some 1 }

scan-post_example :
    ScanPost
      (λ pid. true)
      1
      false
      (init_proc ∷ parent ∷ dead ∷ [])
      (scan (λ pid. true) 1 false (init_proc ∷ parent ∷ dead ∷ []))
scan-post_example = scan-post (λ pid. true) 1 false (init_proc ∷ parent ∷ dead ∷ [])

-- The pid and the status of the child are found.
first_scan :
    scan (λ pid. true) 1 false (init_proc ∷ parent ∷ dead ∷ [])
    ≡ reaped 2 7 (init_proc ∷ parent ∷ new ∷ [])
unfolding scan keep free_proc
first_scan = refl

found_slot : (alloc_proc true true 0 (new ∷ new ∷ [])).proc ≡ some 0
unfolding alloc_proc
found_slot = refl
