-- ===== src/Kernel/Pipe/Queue.antt =====
-- The pipes of os/kernel/file.c as queues of bytes.
use tortoise.Base.{
  ◌≡◌, refl, sym, ap, ◌∙◌, arith, ℕ, zero, suc, ◌+◌, ◌-◌, ◌%◌, ◌^◌, ◌≤◌, ◌<◌, inl, inr, Bool, true,
  false, ◌||◌, List, [], ◌∷◌, ◌++◌, ◌==◌, if◌then◌else◌, Bool-cases, update, u32, sub32, length,
  take, drop, append-nil, append_assoc,
}
use tortoise.Base.Int.{pos, negsuc}
use tortoise.Kernel.Ring.{contents, contents-push}
use tortoise.Kernel.Pipe.{
  Pipe, take_bytes, WriteResult, returns, sleeps_with, count_or, pipe_write, epipe, eintr,
}

-- The counters are 32-bit words at most 512 apart.
pub record IsPipe (p : Pipe) : Type 0 where
  pub nread_range : p.nread < 2 ^ 32
  pub nwrite_range : p.nwrite < 2 ^ 32
  pub at_most_full : sub32 p.nwrite p.nread ≤ 512

-- The bytes that are in the pipe.
abbrev pub queued : Pipe → List ℕ
queued p = contents p.buf p.nread (sub32 p.nwrite p.nread)

-- The pipe without its first byte, and with one more.
queued-first :
    (p : Pipe)
    → IsPipe p
    → (p.nread == p.nwrite) ≡ false
    → IsPipe (record p { nread = u32 (p.nread + 1) })
      × (queued p ≡ p.buf (p.nread % 512) ∷ queued (record p { nread = u32 (p.nread + 1) }))
unfolding contents
queued-first p h some_left =
    let n : sub32 p.nwrite p.nread ≡ suc (sub32 p.nwrite (u32 (p.nread + 1))) =
      ground (arith, h.nread_range, h.nwrite_range) in
    (
      record {
        nread_range = omega arith;
        nwrite_range = h.nwrite_range;
        at_most_full = omega (arith, n, h.at_most_full);
      },
      rw n refl,
    )

queued-last :
    (p : Pipe) (c : ℕ)
    → IsPipe p
    → (sub32 p.nwrite p.nread == 512) ≡ false
    → IsPipe (record p { buf = update p.buf (p.nwrite % 512) c; nwrite = u32 (p.nwrite + 1) })
      × (queued (record p { buf = update p.buf (p.nwrite % 512) c; nwrite = u32 (p.nwrite + 1) })
          ≡ queued p ++ c ∷ [])
queued-last p c h room =
    let short : sub32 p.nwrite p.nread < 512 = ground (arith, h.at_most_full) in
    let n : sub32 (u32 (p.nwrite + 1)) p.nread ≡ suc (sub32 p.nwrite p.nread) =
      omega (arith, h.nread_range, h.nwrite_range) in
    let place : p.nwrite ≡ u32 (p.nread + sub32 p.nwrite p.nread) =
      omega (arith, h.nread_range, h.nwrite_range) in
    (
      record {
        nread_range = h.nread_range;
        nwrite_range = omega arith;
        at_most_full = omega (arith, n);
      },
      rw n (
          ap (λ w. contents (update p.buf (w % 512) c) p.nread (suc (sub32 p.nwrite p.nread))) place
          ∙ contents-push (sub32 p.nwrite p.nread) p.nread c p.buf short),
    )

equal_counters : (p : Pipe) → (p.nread == p.nwrite) ≡ true → sub32 p.nwrite p.nread ≡ 0
equal_counters p e = ground arith

take-none : (n : ℕ) → ◌≡◌ {A = List ℕ} (take n []) []
take-none zero = refl
take-none (suc n) = refl

drop-none : (n : ℕ) → ◌≡◌ {A = List ℕ} (drop n []) []
drop-none zero = refl
drop-none (suc n) = refl

empty_queue : (p : Pipe) → (p.nread == p.nwrite) ≡ true → queued p ≡ []
unfolding contents
empty_queue p e = rw (equal_counters p e) refl

pub take_bytes-queued :
    (n : ℕ) (p : Pipe)
    → IsPipe p
    → ((take_bytes n p).0 ≡ take n (queued p))
      × (queued (take_bytes n p).1 ≡ drop n (queued p))
      × IsPipe (take_bytes n p).1
unfolding take_bytes
take_bytes-queued zero p h = (refl, refl, h)
take_bytes-queued (suc n) p h = elim (Bool-cases (p.nread == p.nwrite)) [
  | inl e ↦ rw e (rw (empty_queue p e) (refl, refl, h))
  | inr e ↦
      let (next, first) = queued-first p h e in
      let (got_them, left, ok) =
        take_bytes-queued n (record p { nread = u32 (p.nread + 1) }) next in
      rw (e, first) (ap (λ l. p.buf (p.nread % 512) ∷ l) got_them, left, ok)
]

-- The bytes that a run of `pipe_write` tells its caller were written.
abbrev pub told : List ℕ → ℕ → WriteResult → List ℕ
told src i (returns (pos k)) = take (k - i) src
told src i (returns (negsuc e)) = []
told src i (sleeps_with rest) = take (length src - length rest) src

-- A count is at least the one before, an error comes only before the first byte, and what is left
-- is no more than there was.
abbrev pub Fits : List ℕ → ℕ → WriteResult → Type 0
Fits src i (returns (pos k)) = i ≤ k
Fits src i (returns (negsuc e)) = i ≡ 0
Fits src i (sleeps_with rest) = length rest ≤ length src

told-step :
    (c : ℕ) (cs : List ℕ) (i : ℕ) (r : WriteResult)
    → Fits cs (i + 1) r
    → told (c ∷ cs) i r ≡ c ∷ told cs (i + 1) r
told-step c cs i (returns (pos k)) h = let n : k - i ≡ suc (k - (i + 1)) = omega arith in rw n refl
told-step c cs i (returns (negsuc e)) h = absurd (omega arith)
told-step c cs i (sleeps_with rest) h =
    let n : suc (length cs) - length rest ≡ suc (length cs - length rest) = omega arith in rw n refl

Fits-step : (c : ℕ) (cs : List ℕ) (i : ℕ) (r : WriteResult) → Fits cs (i + 1) r → Fits (c ∷ cs) i r
Fits-step c cs i (returns (pos k)) h = omega arith
Fits-step c cs i (returns (negsuc e)) h = absurd (omega arith)
Fits-step c cs i (sleeps_with rest) h = omega arith

-- What a run of `pipe_write` does to the queue.
abbrev pub Written : List ℕ → ℕ → Pipe → WriteResult × Pipe → Type 0
Written src i p r = Fits src i r.0 × (queued r.1 ≡ queued p ++ told src i r.0) × IsPipe r.1

stopped-Written :
    (src : List ℕ) (i : ℕ) (p : Pipe) (error : ℕ)
    → IsPipe p
    → Written src i p (returns (count_or i (negsuc error)), p)
unfolding count_or
stopped-Written src i p error h = elim (Bool-cases (i == 0)) [
  | inl e ↦ rw e (ground arith, sym (append-nil (queued p)), h)
  | inr e ↦
      let n : i - i ≡ 0 = omega arith in rw e (omega arith, rw n (sym (append-nil (queued p))), h)
]

stopped_either :
    (src : List ℕ) (i : ℕ) (p : Pipe) (b : Bool)
    → IsPipe p
    → Written src i p (returns (count_or i (if b then epipe else eintr)), p)
stopped_either src i p true h = stopped-Written src i p 31 h
stopped_either src i p false h = stopped-Written src i p 3 h

self_minus : (n : ℕ) → suc n - suc n ≡ 0
self_minus n = omega arith

pub pipe_write-Written :
    (src : List ℕ) (i : ℕ) (nonblock signal : Bool) (p : Pipe)
    → IsPipe p
    → Written src i p (pipe_write src i nonblock signal p)
unfolding pipe_write
pipe_write-Written [] i nonblock signal p h =
    (omega arith, rw (take-none (i - i)) (sym (append-nil (queued p))), h)
pipe_write-Written (c ∷ cs) i nonblock signal p h =
    elim (Bool-cases (sub32 p.nwrite p.nread == 512)) [
      | inl full ↦ elim (Bool-cases (p.readers == 0 || signal)) [
        | inl stops ↦ rw (full, stops) (stopped_either (c ∷ cs) i p (p.readers == 0) h)
        | inr waits ↦ elim (Bool-cases nonblock) [
          | inl e ↦ rw (full, waits, e) (stopped-Written (c ∷ cs) i p 10 h)
          | inr e ↦
              rw (full, waits, e)
                (omega arith, rw (self_minus (length cs)) (sym (append-nil (queued p))), h)
        ]
      ]
      | inr room ↦ elim (Bool-cases (p.readers == 0)) [
        | inl none_left ↦ rw (room, none_left) (stopped-Written (c ∷ cs) i p 31 h)
        | inr some_left ↦
            let (next, more) = queued-last p c h room in
            let p' : Pipe = record p {
              buf = update p.buf (p.nwrite % 512) c;
              nwrite = u32 (p.nwrite + 1);
            } in
            let (fits, later, ok) = pipe_write-Written cs (i + 1) nonblock signal p' next in
            rw (room, some_left)
              (
                Fits-step c cs i (pipe_write cs (i + 1) nonblock signal p').0 fits,
                later
                    ∙ ap (λ l. l ++ told cs (i + 1) (pipe_write cs (i + 1) nonblock signal p').0)
                        more
                    ∙ append_assoc (queued p) (c ∷ [])
                        (told cs (i + 1) (pipe_write cs (i + 1) nonblock signal p').0)
                    ∙ ap (λ l. queued p ++ l)
                        (sym (told-step c cs i (pipe_write cs (i + 1) nonblock signal p').0 fits)),
                ok,
              )
      ]
    ]
