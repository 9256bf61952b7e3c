-- ===== src/Dev/Net/Ring.antt =====
-- The receive ring `q[NQ]` of src/net.c with its indices `qh` and `qn`.
use tortoise.Base.{
  ◌≡◌, refl, arith, ℕ, ◌+◌, ◌%◌, Bool, true, false, ◌&&◌, ltb, leb, ◌==◌, not, ◌||◌, has_bit,
  if◌then◌else◌, update,
}
use tortoise.Machine.{Frame, Net, Machine}
use tortoise.Machine.Monad.{Outcome, ok, abort, stuck}
use tortoise.Dcache.{cpu_mem_written}
use tortoise.Dev.Pic.{pic_raise}
use tortoise.Dev.Net.{same_six, try_deliver, receive}

-- The place of the first frame and the number of frames, within the 64 places.
abbrev pub in_ring : Net → Bool
in_ring n = ltb n.qh 64 && leb n.qn 64

-- Whether a call returns, with the ring in bounds.
abbrev pub returns_in_ring : {A : Type 0} → Outcome A → Bool
returns_in_ring (ok a m) = in_ring m.net
returns_in_ring (abort m) = false
returns_in_ring stuck = false

-- A delivery to memory returns and keeps the ring in bounds.
pub try_deliver-in_ring :
    (m : Machine) → in_ring m.net ≡ true → returns_in_ring (try_deliver m) ≡ true
unfolding try_deliver cpu_mem_written pic_raise
try_deliver-in_ring m h = ground arith

-- The machine with the frame behind the others.
abbrev queued : Frame → Machine → Machine
queued f m = record m {
  net = record m.net { q = update m.net.q ((m.net.qh + m.net.qn) % 64) f; qn = m.net.qn + 1 };
}

if-in_ring :
    {A : Type 0} (c : Bool) (r s : Outcome A)
    → (c ≡ true → returns_in_ring r ≡ true)
    → (c ≡ false → returns_in_ring s ≡ true)
    → returns_in_ring (if c then r else s) ≡ true
if-in_ring true r s p q = p refl
if-in_ring false r s p q = q refl

room :
    (off : Bool) (qh qn : ℕ)
    → (ltb qh 64 && leb qn 64) ≡ true
    → (off || qn == 64) ≡ false
    → (ltb qh 64 && leb (qn + 1) 64) ≡ true
room off qh qn h e = ground arith

-- The arrival of a frame, of any length and for any station, returns and keeps the ring in bounds.
pub receive-in_ring :
    (f : Frame) (m : Machine) → in_ring m.net ≡ true → returns_in_ring (receive f m) ≡ true
unfolding receive
receive-in_ring f m h =
    let nd = m.net in
    if-in_ring (ltb f.len 14 || ltb 1514 f.len) _ _ (λ _. h)
      (λ _.
        if-in_ring
          (not (has_bit 3 nd.ctrl) && not (same_six f.d nd.mac) && not (same_six f.d (λ _. 0xFF))) _
          _ (λ _. h)
          (λ _.
            if-in_ring (not (has_bit 0 nd.ctrl) || nd.qn == 64) _ _ (λ _. h)
              (λ e.
                try_deliver-in_ring (queued f m) (room (not (has_bit 0 nd.ctrl)) nd.qh nd.qn h e))))
