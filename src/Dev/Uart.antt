-- ===== src/Dev/Uart.antt =====
-- The console of src/dev.c: the UART registers, `con_getc`, `con_avail` and the poll of the
-- terminal. `Host.available` is the rest of the input file, or the bytes in the receive ring;
-- the ring holds at most RXBUF - 1 bytes, so a poll takes only what fits.
use tortoise.Base.{
  ℕ, zero, suc, ◌+◌, ◌-◌, ◌%◌, Bool, true, false, not, ◌&&◌, ◌||◌, List, [], ◌∷◌, ◌++◌, Option,
  none, some, ◌==◌, if◌then◌else◌, has_bit, bit_of,
}
use tortoise.Machine.{Host}
use tortoise.Machine.Monad.{M, Void, ok, skip, ◌>>=◌, ◌>>◌, when, get, modify_dev, modify_host}
use tortoise.Dev.Pic.{pic_raise}

unfoldable pub con_putc : ℕ → M Void
con_putc c = modify_host (λ h. record h { output = h.output ++ (c % 256) ∷ [] })

abbrev pub is_empty : List ℕ → Bool
is_empty [] = true
is_empty (c ∷ cs) = false

abbrev pub con_avail : Host → Bool
con_avail h = not (is_empty h.available)

unfoldable pub uart_rx_check : M Void
unfolding pic_raise
uart_rx_check m = when (has_bit 0 m.dev.u_ctrl && con_avail m.host) (pic_raise 1) m

-- `none` is -1.
unfoldable pub con_getc : M (Option ℕ)
unfolding uart_rx_check
con_getc m = take_from m.host.available m
  where
    take_from : List ℕ → M (Option ℕ)
    take_from [] m = ok none m
    take_from (c ∷ cs) m =
        (do modify_host (λ h. record h { available = cs }); uart_rx_check; get (λ _. some c)) m

-- How many bytes of a chunk the ring still takes, and those that stay in the terminal.
abbrev pub length : List ℕ → ℕ
length [] = 0
length (c ∷ cs) = suc (length cs)

abbrev pub take : ℕ → List ℕ → List ℕ
take zero cs = []
take (suc n) [] = []
take (suc n) (c ∷ cs) = c ∷ take n cs

abbrev pub drop : ℕ → List ℕ → List ℕ
drop zero cs = cs
drop (suc n) [] = []
drop (suc n) (c ∷ cs) = drop n cs

-- One poll of the terminal, which finds the next of `arrivals`; after the last it is at its end.
unfoldable pub stdin_poll : M Void
unfolding uart_rx_check
stdin_poll m = if not m.host.in_stdin || m.host.in_eof then skip m else arrive m.host.arrivals m
  where
    arrive : List (List ℕ) → M Void
    arrive [] = modify_host (λ h. record h { in_eof = true })
    arrive (chunk ∷ later) = do
      free ← get (λ m. 4095 - length m.host.available)
      modify_host (λ h. record h {
        available = h.available ++ take free chunk;
        arrivals = (if is_empty (drop free chunk) then later else drop free chunk ∷ later);
      })
      when (not (is_empty (take free chunk))) uart_rx_check

unfoldable pub uart_rd : ℕ → M ℕ
unfolding con_getc
uart_rd off m =
    if off == 0x00
    then (do c ← con_getc; get (λ _. byte_or_zero c)) m
    else if off == 0x04
    then ok (bit_of (con_avail m.host) + 2) m
    else if off == 0x08
    then ok m.dev.u_ctrl m
    else ok 0 m
  where
    byte_or_zero : Option ℕ → ℕ
    byte_or_zero none = 0
    byte_or_zero (some c) = c

unfoldable pub uart_wr : ℕ → ℕ → M Void
unfolding con_putc uart_rx_check
uart_wr off v m =
    if off == 0x00
    then (do con_putc (v % 256); when (has_bit 1 m.dev.u_ctrl) (pic_raise 2)) m
    else if off == 0x08
    then (do modify_dev (λ d. record d { u_ctrl = v % 4 }); uart_rx_check) m
    else skip m
