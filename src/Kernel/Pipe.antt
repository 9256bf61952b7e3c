-- ===== src/Kernel/Pipe.antt =====
-- The pipes of os/kernel/file.c. `pipe_read` and `pipe_write` sleep only between their runs over the
-- ring, and what others do meanwhile is any change of the pipe: a run is a function, whose result
-- `sleeps` is the call that goes on when it is woken. `signal_pending` is an argument; the calls of
-- `wakeup` are left out. PIPESIZE is 512, and `nread` and `nwrite` are 32 bits wide.
pub mod Queue
pub mod Traffic
use tortoise.Base.{
  ℕ, zero, suc, ◌+◌, ◌%◌, Bool, true, false, ◌&&◌, ◌||◌, List, [], ◌∷◌, ltb, ◌==◌, if◌then◌else◌,
  update, u32, sub32,
}
use tortoise.Base.Int.{ℤ, pos, negsuc}

pub record Pipe : Type 0 where
  pub buf : ℕ → ℕ
  pub nread : ℕ
  pub nwrite : ℕ
  pub readers : ℕ
  pub writers : ℕ

-- The pipe of `sys_pipe`.
abbrev pub new_pipe : Pipe
new_pipe = record { buf = λ i. 0; nread = 0; nwrite = 0; readers = 1; writers = 1 }

-- The error numbers EINTR, EAGAIN and EPIPE.
abbrev pub eintr : ℤ
eintr = negsuc 3

abbrev pub eagain : ℤ
eagain = negsuc 10

abbrev pub epipe : ℤ
epipe = negsuc 31

pub data ReadResult : Type 0 where
  got : List ℕ → ReadResult
  failed : ℤ → ReadResult
  sleeps : ReadResult

-- The second loop of `pipe_read`.
unfoldable pub take_bytes : ℕ → Pipe → List ℕ × Pipe
take_bytes zero p = ([], p)
take_bytes (suc n) p =
    let rest = take_bytes n (record p { nread = u32 (p.nread + 1) }) in
    if p.nread == p.nwrite then ([], p) else (p.buf (p.nread % 512) ∷ rest.0, rest.1)

-- `pipe_read` up to where it sleeps or returns.
unfoldable pub pipe_read : ℕ → Bool → Bool → Pipe → ReadResult × Pipe
unfolding take_bytes
pipe_read n nonblock signal p =
    if p.nread == p.nwrite && ltb 0 p.writers
    then if signal then (failed eintr, p) else if nonblock then (failed eagain, p) else (sleeps, p)
    else (got (take_bytes n p).0, (take_bytes n p).1)

-- How far a run of `pipe_write` comes: it returns, with the number of bytes written in all or an
-- error, or sleeps with the bytes that it still has to write.
pub data WriteResult : Type 0 where
  returns : ℤ → WriteResult
  sleeps_with : List ℕ → WriteResult

-- `i ? (int)i : error`.
unfoldable pub count_or : ℕ → ℤ → ℤ
count_or i error = if i == 0 then error else pos i

-- `pipe_write` with `i` bytes written and `src` left, up to where it sleeps or returns.
unfoldable pub pipe_write : List ℕ → ℕ → Bool → Bool → Pipe → WriteResult × Pipe
unfolding count_or
pipe_write [] i nonblock signal p = (returns (pos i), p)
pipe_write (c ∷ cs) i nonblock signal p =
    let written =
      pipe_write cs (i + 1) nonblock signal
        (record p { buf = update p.buf (p.nwrite % 512) c; nwrite = u32 (p.nwrite + 1) }) in
    if sub32 p.nwrite p.nread == 512
    then if p.readers == 0 || signal
      then (returns (count_or i (if p.readers == 0 then epipe else eintr)), p)
      else if nonblock
      then (returns (count_or i eagain), p)
      else (sleeps_with (c ∷ cs), p)
    else if p.readers == 0
    then (returns (count_or i epipe), p)
    else written
