-- ===== src/Kernel/Pipe/Traffic.antt =====
-- Readers and writers of one pipe of os/kernel/file.c, in any order.
use tortoise.Base.{
  ◌≡◌, refl, sym, ap, ◌∙◌, arith, ℕ, ◌≤◌, inl, inr, Bool, ◌&&◌, List, [], ◌++◌, ltb, ◌==◌,
  Bool-cases, sub32, length, take, take-drop, append_assoc,
}
use tortoise.Kernel.Ring.{contents, length-contents}
use tortoise.Kernel.Pipe.{
  Pipe, ReadResult, got, failed, sleeps, take_bytes, pipe_read, pipe_write, new_pipe,
}
use tortoise.Kernel.Pipe.Queue.{IsPipe, queued, told, take_bytes-queued, pipe_write-Written}

-- A pipe, all the bytes that writers were told are written, and all that readers got.
pub record Traffic : Type 0 where
  pub pipe : Pipe
  pub sent : List ℕ
  pub received : List ℕ

abbrev pub heard : ReadResult → List ℕ
heard (got l) = l
heard (failed e) = []
heard sleeps = []

-- A run of a reader; a run of a writer, at its start or when it is woken; and the ends opened and
-- closed.
pub data Step : Traffic → Traffic → Type 0 where
  reads :
      (t : Traffic) (n : ℕ) (nonblock signal : Bool)
      → Step t (record t {
        pipe = (pipe_read n nonblock signal t.pipe).1;
        received = t.received ++ heard (pipe_read n nonblock signal t.pipe).0;
      })
  writes :
      (t : Traffic) (src : List ℕ) (i : ℕ) (nonblock signal : Bool)
      → Step t (record t {
        pipe = (pipe_write src i nonblock signal t.pipe).1;
        sent = t.sent ++ told src i (pipe_write src i nonblock signal t.pipe).0;
      })
  ends :
      (t : Traffic) (r w : ℕ)
      → Step t (record t { pipe = record t.pipe { readers = r; writers = w } })

pub data Reach (s : Traffic) : Traffic → Type 0 where
  here : Reach s s
  next : {t u : Traffic} → Reach s t → Step t u → Reach s u

abbrev InOrder : Traffic → Type 0
InOrder t = IsPipe t.pipe × (t.sent ≡ t.received ++ queued t.pipe)

-- What a reader gets is the front of the queue.
pipe_read-queued :
    (n : ℕ) (nonblock signal : Bool) (p : Pipe)
    → IsPipe p
    → (queued p
        ≡ heard (pipe_read n nonblock signal p).0 ++ queued (pipe_read n nonblock signal p).1)
      × IsPipe (pipe_read n nonblock signal p).1
unfolding pipe_read
pipe_read-queued n nonblock signal p h =
    elim (Bool-cases (p.nread == p.nwrite && ltb 0 p.writers)) [
      | inr some_left ↦
          let (front, left, ok) = take_bytes-queued n p h in
          rw some_left (
            sym (
                ap (λ l. l ++ queued (take_bytes n p).1) front
                ∙ ap (λ l. take n (queued p) ++ l) left
                ∙ take-drop n (queued p)),
            ok,
          )
      | inl empty ↦ elim (Bool-cases signal) [
        | inl e ↦ rw (empty, e) (refl, h)
        | inr e ↦ elim (Bool-cases nonblock) [
          | inl f ↦ rw (empty, e, f) (refl, h)
          | inr f ↦ rw (empty, e, f) (refl, h)
        ]
      ]
    ]

Step-InOrder : {t u : Traffic} → Step t u → InOrder t → InOrder u
Step-InOrder (reads t n nonblock signal) (h, e) =
    let (front, ok) = pipe_read-queued n nonblock signal t.pipe h in
    (
      ok,
      e
          ∙ ap (λ l. t.received ++ l) front
          ∙ sym (
              append_assoc t.received (heard (pipe_read n nonblock signal t.pipe).0)
                (queued (pipe_read n nonblock signal t.pipe).1)),
    )
Step-InOrder (writes t src i nonblock signal) (h, e) =
    let (fits, later, ok) = pipe_write-Written src i nonblock signal t.pipe h in
    let r = (pipe_write src i nonblock signal t.pipe).0 in
    (
      ok,
      ap (λ l. l ++ told src i r) e
          ∙ append_assoc t.received (queued t.pipe) (told src i r)
          ∙ ap (λ l. t.received ++ l) (sym later),
    )
Step-InOrder (ends t r w) (h, e) = (
  record {
    nread_range = h.nread_range;
    nwrite_range = h.nwrite_range;
    at_most_full = h.at_most_full;
  },
  e,
)

Reach-InOrder : {s t : Traffic} → Reach s t → InOrder s → InOrder t
Reach-InOrder here h = h
Reach-InOrder (next r st) h = Step-InOrder st (Reach-InOrder r h)

abbrev pub quiet : Traffic
quiet = record { pipe = new_pipe; sent = []; received = [] }

quiet-InOrder : InOrder quiet
unfolding contents
quiet-InOrder = (
  record { nread_range = omega arith; nwrite_range = omega arith; at_most_full = omega arith },
  refl,
)

-- In every run of a new pipe, with any readers and writers in any order that sleep and are woken at
-- any time, the bytes that writers were told are written are those that readers got, in that order,
-- followed by those still in the ring, which are at most 512.
pub queued-reach :
    (t : Traffic)
    → Reach quiet t
    → (t.sent ≡ t.received ++ queued t.pipe) × (length (queued t.pipe) ≤ 512)
queued-reach t r =
    let (h, e) = Reach-InOrder r quiet-InOrder in
    (
      e,
      omega (
        arith,
        h.at_most_full,
        length-contents (sub32 t.pipe.nwrite t.pipe.nread) t.pipe.nread t.pipe.buf,
      ),
    )
