-- ===== src/Tests/Kernels.antt =====
-- The theorems on the kernel's parts, at concrete inputs.
use tortoise.Base.{
  ◌≡◌, refl, arith, ℕ, ◌+◌, ◌-◌, ◌*◌, ◌≤◌, ◌<◌, ◌⊎◌, true, false, List, [], ◌∷◌, map, some, ltb,
  ◌==◌, if◌then◌else◌, u8, length, take, drop,
}
use tortoise.Base.Int.{pos, is_neg}
use tortoise.Kernel.Cred.{Cred, start, then_call, setuid, call}
use tortoise.Kernel.Cred.Ids.{UserIds, GroupIds, UserIdOf, GroupIdOf, reaches-UserIds}
use tortoise.Kernel.Cred.Calls.{call-Atomic}
use tortoise.Kernel.Klog.{klog_read, written, empty_log}
use tortoise.Kernel.Klog.Ring.{klog_read-written}
use tortoise.Kernel.Timer.{Timer, Timers, run, timer_add}
use tortoise.Kernel.Timer.Expiry.{of_slot, run-timer_add}
use tortoise.Kernel.Lowmem.{Low, low_alloc_n, low_free_n, mark}
use tortoise.Kernel.Lowmem.Search.{AllFree, SomeUsed}
use tortoise.Kernel.Lowmem.Pages.{low_alloc_n-first, low_free_n-low_alloc_n}
use tortoise.Kernel.Frames.Contig.{TakesRun, frame_alloc_contig-cases}
use tortoise.Kernel.Frames.{
  frame_alloc_contig, Frames, frame_address, frame_alloc, frame_free, frame_ref,
}
use tortoise.Kernel.Frames.Refs.{IsConsistent}
use tortoise.Kernel.Frames.Alloc.{frame_alloc-cases, frame_free-frame_address, frame_free-frame_ref}

abbrev user : Cred
user = record {
  uid = 1000;
  euid = 1000;
  suid = 1001;
  gid = 100;
  egid = 100;
  sgid = 100;
  groups = λ i. 0;
  ngroups = pos 0;
}

reaches-UserIds_example :
    UserIds (UserIdOf user) (call (setuid 1001) user).1
    × GroupIds (GroupIdOf user) (call (setuid 1001) user).1
    × ((call (setuid 1001) user).1.groups ≡ user.groups)
    × ((call (setuid 1001) user).1.ngroups ≡ user.ngroups)
reaches-UserIds_example =
    reaches-UserIds user (call (setuid 1001) user).1 (λ e. omega (arith, e)) (λ e. omega (arith, e))
      (λ e. omega (arith, e)) (then_call (setuid 1001) start)

call-Atomic_example :
    ((call (setuid 5) user).0 ≡ pos 0)
    ⊎ ((is_neg (call (setuid 5) user).0 ≡ true) × ((call (setuid 5) user).1 ≡ user))
call-Atomic_example = call-Atomic (setuid 5) user

-- A program that belongs to root, run by a user.
abbrev setuid_program : Cred
setuid_program = record user { euid = 0; suid = 0 }

abbrev hello : List ℕ
hello = 104 ∷ 101 ∷ 108 ∷ 108 ∷ 111 ∷ []

klog_read-written_example :
    klog_read (written hello empty_log) 1 3
    ≡ take 3
        (drop (if ltb 1 (length hello - 16384) then length hello - 16384 else 1) (map u8 hello))
klog_read-written_example = klog_read-written hello 1 3 (omega arith)

abbrev no_timers : Timers
no_timers i = record { expire = 0; fn = 0; arg = 0; used = false }

abbrev one_timer : Timers
one_timer i = if i == 0 then record { expire = 103; fn = 7; arg = 8; used = true } else no_timers i

added : timer_add 100 3 7 8 no_timers ≡ (1, one_timer)
unfolding timer_add tortoise.Kernel.Timer.free_slot
added = refl

run-timer_add_example :
    of_slot 0 (run (λ f a t. t) 5 100 one_timer).1
    ≡ (if ltb 5 3 then [] else record { slot = 0; callee = 7; value = 8 } ∷ [])
run-timer_add_example =
    run-timer_add (λ f a t. t) 100 3 7 8 0 5 no_timers one_timer (omega arith) (omega arith)
      (omega arith) added (λ f a t. refl)

-- The pages of the kernel are 0 to 99, and page 101 is in use.
abbrev low_pages : Low
low_pages = record { used = λ i. if ltb i 100 then true else i == 101; first = 100 }

low_alloc_n-first_example :
    ((low_alloc_n 2 low_pages ≡ (0, low_pages))
      × ((j : ℕ) → 100 ≤ j → j + 2 ≤ 1024 → SomeUsed 2 j low_pages.used))
    ⊎ ((r : ℕ) × (low_alloc_n 2 low_pages
          ≡ (r * 4096, record low_pages { used = mark r 2 low_pages.used }))
        × (100 ≤ r)
        × (r + 2 ≤ 1024)
        × AllFree 2 r low_pages.used
        × ((j : ℕ) → 100 ≤ j → j < r → SomeUsed 2 j low_pages.used))
low_alloc_n-first_example = low_alloc_n-first 2 low_pages (omega arith)

low_free_n-low_alloc_n_example :
    low_free_n (low_alloc_n 2 low_pages).0 2 (low_alloc_n 2 low_pages).1 ≡ some low_pages
unfolding low_alloc_n tortoise.Kernel.Lowmem.first_fit
low_free_n-low_alloc_n_example =
    low_free_n-low_alloc_n 2 low_pages (omega arith) (λ e. omega (arith, e))

-- Four frames, of which the first has two references.
abbrev frames : Frames
frames = record {
  fbits = λ i. i == 0;
  fref = λ i. if i == 0 then 2 else 0;
  nframes = 4;
  nfree = 3;
  fhint = 1;
}

frames-IsConsistent : IsConsistent frames
frames-IsConsistent = record {
  few_frames = omega arith;
  hint_range = omega arith;
  free_count = refl;
  counted = λ i lt e. ground arith;
  uncounted = λ i lt e. ground arith;
  count_range = λ i lt. ground arith;
}

frame_alloc-cases_example :
    ((frame_alloc frames ≡ (0, frames)) × (frames.nfree ≡ 0))
    ⊎ ((i : ℕ) × (i < frames.nframes)
        × (frames.fbits i ≡ false)
        × ((frame_alloc frames).0 ≡ frame_address i)
        × ((frame_alloc frames).1.fref i ≡ 1)
        × ((frame_alloc frames).1.nfree + 1 ≡ frames.nfree)
        × IsConsistent (frame_alloc frames).1)
frame_alloc-cases_example = frame_alloc-cases frames frames-IsConsistent

frame_free-frame_address_example :
    (s' : Frames) × (frame_free (frame_address 0) frames ≡ some s')
    × IsConsistent s'
    × (s'.fref 0 + 1 ≡ frames.fref 0)
    × (s'.nfree ≡ (if frames.fref 0 == 1 then frames.nfree + 1 else frames.nfree))
frame_free-frame_address_example =
    frame_free-frame_address frames 0 frames-IsConsistent (omega arith) refl

frame_free-frame_ref_example :
    (s' : Frames) × (frame_ref (frame_address 0) frames ≡ some s')
    × IsConsistent s'
    × (s'.fref 0 ≡ frames.fref 0 + 1)
    × (frame_free (frame_address 0) s' ≡ some frames)
frame_free-frame_ref_example =
    frame_free-frame_ref frames 0 frames-IsConsistent (omega arith) refl (omega arith)

frame_alloc_contig-cases_example :
    ((frame_alloc_contig 2 frames ≡ (0, frames))
      × ((j : ℕ) → j + 2 ≤ 4 → SomeUsed 2 j frames.fbits))
    ⊎ ((r : ℕ) × ((frame_alloc_contig 2 frames).0 ≡ frame_address r)
        × (r + 2 ≤ 4)
        × TakesRun 2 r frames (frame_alloc_contig 2 frames).1
        × ((j : ℕ) → j < r → SomeUsed 2 j frames.fbits)
        × ((frame_alloc_contig 2 frames).1.nfree + 2 ≡ 3)
        × IsConsistent (frame_alloc_contig 2 frames).1)
frame_alloc_contig-cases_example =
    frame_alloc_contig-cases 2 frames frames-IsConsistent (omega arith)
