-- ===== src/Tests/Streams.antt =====
-- Runs of a pipe, a terminal and a heap, and the theorems about them.
use tortoise.Base.{sub32, ◌≡◌, refl, arith, ℕ, ◌≤◌, true, false, List, [], ◌∷◌, ◌++◌, length}
use tortoise.Kernel.Pipe.{pipe_read, pipe_write, new_pipe}
use tortoise.Kernel.Pipe.Queue.{queued, told}
use tortoise.Kernel.Pipe.Traffic.{Traffic, heard, reads, writes, here, next, quiet, queued-reach}
use tortoise.Kernel.Tty.{Tty, new_tty, feed, canon_copy, tty_input}
use tortoise.Kernel.Tty.Lines.{line_keys, HasRoom}
use tortoise.Kernel.Tty.Buffer.{IsTty, lines}
use tortoise.Kernel.Tty.Reads.{read_line, left_ready, canon_copy-feed}
use tortoise.Kernel.Tty.Overflow.{newlines, feed-newlines}
use tortoise.Libc.Malloc.{
  Block, calloc, realloc, malloc, free, take_fit, needed, before, behind, join, link,
}
use tortoise.Libc.Malloc.Heaps.{
  Partitioned, start, allocates, clears, reallocates, frees, Reach-Partitioned,
}

abbrev sent : Traffic
sent = record quiet {
  pipe = (pipe_write (1 ∷ 2 ∷ 3 ∷ []) 0 true false new_pipe).1;
  sent = [] ++ told (1 ∷ 2 ∷ 3 ∷ []) 0 (pipe_write (1 ∷ 2 ∷ 3 ∷ []) 0 true false new_pipe).0;
}

abbrev taken : Traffic
taken = record sent {
  pipe = (pipe_read 2 true false sent.pipe).1;
  received = [] ++ heard (pipe_read 2 true false sent.pipe).0;
}

queued-reach_example :
    (taken.sent ≡ taken.received ++ queued taken.pipe) × (length (queued taken.pipe) ≤ 512)
queued-reach_example =
    queued-reach taken
      (next (next here (writes quiet (1 ∷ 2 ∷ 3 ∷ []) 0 true false)) (reads sent 2 true false))

-- The keys "ab", erase, "c" and return.
abbrev keys : List ℕ
keys = 97 ∷ 98 ∷ 127 ∷ 99 ∷ 13 ∷ []

new_tty-IsTty : IsTty new_tty
new_tty-IsTty = record {
  r_range = omega arith;
  w_range = omega arith;
  e_range = omega arith;
  order = refl;
  at_most_full = omega arith;
}

keys-HasRoom : HasRoom new_tty.t keys (lines new_tty)
unfolding tortoise.Kernel.Ring.contents tortoise.Kernel.Tty.signal_of tortoise.Kernel.Tty.translated
keys-HasRoom = (omega arith, (omega arith, (omega arith, (omega arith, (omega arith, tt)))))

canon_copy-feed_example :
    ((canon_copy 10 (feed keys new_tty)).0
      ≡ (read_line 4 10 (line_keys new_tty.t keys (lines new_tty)).ready).0)
    × (lines (canon_copy 10 (feed keys new_tty)).1
        ≡ left_ready
            (read_line 4 10 (line_keys new_tty.t keys (lines new_tty)).ready).1
            (line_keys new_tty.t keys (lines new_tty)))
    × IsTty (canon_copy 10 (feed keys new_tty)).1
canon_copy-feed_example = canon_copy-feed 10 keys new_tty new_tty-IsTty keys-HasRoom

feed-newlines_example :
    (sub32 (feed (newlines 513) new_tty).e (feed (newlines 513) new_tty).r ≡ 513)
    × (sub32 (feed (newlines 513) new_tty).w (feed (newlines 513) new_tty).r ≡ 513)
feed-newlines_example = feed-newlines 513 (omega arith)

abbrev small : Block
small = record { addr = 0x4000; size = 24 }

abbrev large : Block
large = record { addr = 0x4018; size = 32 }

-- Two blocks are taken, the first of them is freed, and a smaller one takes its place
-- and grows in it.
Reach-Partitioned_example :
    Partitioned 0x4000
      (record { heap = record { free_list = []; brk = 0x4038 }; held = small ∷ large ∷ [] })
unfolding malloc calloc realloc take_fit needed free before behind join link
Reach-Partitioned_example =
    Reach-Partitioned 0x4000
      (record { heap = record { free_list = []; brk = 0x4038 }; held = small ∷ large ∷ [] })
      (reallocates (record { free_list = []; brk = 0x4038 }) [] (large ∷ []) small 16 false
        (allocates (record { free_list = small ∷ []; brk = 0x4038 }) (large ∷ []) 4 false
          (frees (record { free_list = []; brk = 0x4038 }) (large ∷ []) [] small
            (clears (record { free_list = []; brk = 0x4018 }) (small ∷ []) 5 4 true
              (allocates (record { free_list = []; brk = 0x4000 }) [] 10 true start)))))

-- What was typed comes as a line without the byte that was erased.
read_keys : (canon_copy 10 (feed keys new_tty)).0 ≡ 97 ∷ 99 ∷ 10 ∷ []
unfolding canon_copy feed
read_keys = refl
