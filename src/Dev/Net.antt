-- ===== src/Dev/Net.antt =====
-- The network controller of src/net.c: a ring of 64 received frames, delivery into the machine's
-- receive buffer, transmission after a delay, and the registers. The capture file is left out.
pub mod Ring
use tortoise.Base.{
  ℕ, suc, ◌+◌, ◌-◌, ◌*◌, ◌/◌, ◌%◌, ◌^◌, bit_and, bit_or, Bool, true, false, not, ◌&&◌, ◌||◌, List,
  [], ◌∷◌, ◌++◌, ltb, leb, ◌==◌, if◌then◌else◌, has_bit, bit_of, u32, u64, update, get_or,
}
use tortoise.Machine.{Frame, Net, Backend, no_backend, loop, udp, Machine}
use tortoise.Machine.Monad.{
  M, Void, ok, skip, ◌>>=◌, ◌>>◌, when, get, modify, modify_net, modify_host,
}
use tortoise.Dcache.{cpu_mem_written}
use tortoise.Dev.Pic.{pic_raise}
use tortoise.Dev.Disk.{copy_in}

-- The first queued frame goes to memory if reception is on, the last frame was taken, and the
-- receive buffer of 1536 bytes lies in RAM.
unfoldable pub try_deliver : M Void
unfolding cpu_mem_written pic_raise
try_deliver m =
    let nd = m.net in
    let f = nd.q nd.qh in
    if not (has_bit 0 nd.ctrl) || has_bit 0 nd.status || nd.rx_addr == 0 || nd.qn == 0
    then skip m
    else if ltb m.ram_size (nd.rx_addr + 1536)
    then skip m
    else (do
      modify (λ m. record m { memory = copy_in m.memory nd.rx_addr f.len f.d })
      cpu_mem_written nd.rx_addr f.len
      modify_net (λ n. record n {
        rx_len = f.len;
        status = bit_or n.status 1;
        qh = (n.qh + 1) % 64;
        qn = n.qn - 1;
        srx = u32 (n.srx + 1);
      })
      when (has_bit 1 nd.ctrl) (pic_raise 5))
        m

-- `memcmp(d, a, 6) == 0`.
abbrev pub same_six : (ℕ → ℕ) → (ℕ → ℕ) → Bool
same_six d a = d 0 == a 0 && d 1 == a 1 && d 2 == a 2 && d 3 == a 3 && d 4 == a 4 && d 5 == a 5

-- A frame from the wire: runts, giants and frames for other stations are ignored (unless the
-- controller is promiscuous), and one that finds reception off or the ring full is counted.
unfoldable pub receive : Frame → M Void
unfolding try_deliver
receive f m =
    let nd = m.net in
    if ltb f.len 14 || ltb 1514 f.len
    then skip m
    else if not (has_bit 3 nd.ctrl) && not (same_six f.d nd.mac) && not (same_six f.d (λ _. 0xFF))
    then skip m
    else if not (has_bit 0 nd.ctrl) || nd.qn == 64
    then modify_net (λ n. record n { sdrop = u32 (n.sdrop + 1) }) m
    else (do
      modify_net (λ n. record n { q = update n.q ((n.qh + n.qn) % 64) f; qn = n.qn + 1 })
      try_deliver)
        m

abbrev is_connected : Backend → Bool
is_connected no_backend = false
is_connected b = true

unfoldable pub net_rd : ℕ → M ℕ
net_rd off m =
    let nd = m.net in
    ok
      (if off == 0x00
        then nd.mac 0 + nd.mac 1 * 2 ^ 8 + nd.mac 2 * 2 ^ 16 + nd.mac 3 * 2 ^ 24
        else if off == 0x04
        then nd.mac 4 + nd.mac 5 * 2 ^ 8
        else if off == 0x08
        then nd.ctrl
        else if off == 0x0C
        then nd.status % 2 + 2 * bit_of nd.tx_pending + 4 * bit_of (is_connected nd.backend)
        else if off == 0x10
        then nd.tx_addr
        else if off == 0x14
        then nd.tx_len
        else if off == 0x18
        then nd.rx_addr
        else if off == 0x1C
        then nd.rx_len
        else if off == 0x20
        then nd.stx
        else if off == 0x24
        then nd.srx
        else if off == 0x28
        then nd.sdrop
        else 0)
      m

-- A write of the length starts a transmission, which takes an instruction for 16 bytes.
-- `reschedule` is `dev_reschedule` of src/dev.c.
unfoldable pub transmit : M Void → ℕ → M Void
transmit reschedule v m =
    let nd = m.net in
    if not (has_bit 0 nd.ctrl)
      || nd.tx_pending
      || ltb v 14
      || ltb 1514 v
      || ltb m.ram_size (nd.tx_addr + v)
    then skip m
    else (do
      modify_net (λ n. record n {
        txbuf = copy_in n.txbuf 0 v (λ i. m.memory (nd.tx_addr + i));
        txlen = v;
        tx_pending = true;
        tx_done = u64 (m.icount + u32 (v + 15) / 16);
      })
      reschedule)
        m

unfoldable pub net_wr : M Void → ℕ → ℕ → M Void
unfolding try_deliver transmit
net_wr reschedule off v =
    if off == 0x08
    then (do modify_net (λ n. record n { ctrl = v % 16 }); try_deliver)
    else if off == 0x0C
    then when (has_bit 0 v)
        (do modify_net (λ n. record n { status = bit_and n.status 0xFFFF_FFFE }); try_deliver)
    else if off == 0x10
    then modify_net (λ n. record n { tx_addr = v })
    else if off == 0x14
    then (do modify_net (λ n. record n { tx_len = v }); transmit reschedule v)
    else if off == 0x18
    then (do modify_net (λ n. record n { rx_addr = v }); try_deliver)
    else skip

unfoldable pub net_next : Net → ℕ
net_next nd = if nd.tx_pending then nd.tx_done else 2 ^ 64 - 1

abbrev count : List ℕ → ℕ
count [] = 0
count (c ∷ cs) = suc (count cs)

abbrev frame_of : List ℕ → Frame
frame_of bytes = record { len = count bytes; d = λ i. get_or bytes i 0 }

receive_all : List (List ℕ) → M Void
receive_all [] = skip
receive_all (d ∷ ds) = do receive (frame_of d); receive_all ds

-- The datagrams that one poll finds; the socket is empty after the last of the host's polls.
poll_socket : List (List (List ℕ)) → M Void
unfolding receive_all
poll_socket [] = skip
poll_socket (ds ∷ later) = do modify_host (λ h. record h { datagrams = later }); receive_all ds

abbrev is_udp : Backend → Bool
is_udp udp = true
is_udp b = false

unfoldable pub net_poll : M Void
unfolding poll_socket receive
net_poll m = if is_udp m.net.backend then poll_socket m.host.datagrams m else skip m

-- What becomes of a sent frame.
send_frame : Backend → Frame → M Void
send_frame no_backend f = skip
send_frame loop f = receive f
send_frame udp f = modify_host (λ h. record h { sent = h.sent ++ f ∷ [] })

unfoldable pub net_events : M Void
unfolding send_frame receive pic_raise
net_events m =
    if m.net.tx_pending && leb m.net.tx_done m.icount
    then (do
      modify_net (λ n. record n { tx_pending = false; stx = u32 (n.stx + 1) })
      send_frame m.net.backend (record { len = m.net.txlen; d = m.net.txbuf })
      ctrl ← get (λ m. m.net.ctrl)
      when (has_bit 2 ctrl) (pic_raise 5))
        m
    else skip m

-- `net_wait_fd() >= 0`: whether the idle loop may wait for a datagram.
abbrev pub net_may_wait : Machine → Bool
net_may_wait m =
    is_udp m.net.backend && has_bit 0 m.net.ctrl && has_bit 1 m.net.ctrl && has_bit 5 m.dev.pic_mask
