-- ===== src/Kernel/Klog/Ring.antt =====
-- The ring of os/kernel/kmem.c against the whole list of the bytes logged.
use tortoise.Base.{
  ◌≡◌, ◌≢◌, refl, sym, ap, ◌∙◌, arith, ℕ, zero, suc, ◌+◌, ◌-◌, ◌%◌, ◌^◌, ◌≤◌, ◌<◌, inl, inr, List,
  [], ◌∷◌, ◌++◌, ltb, if◌then◌else◌, Bool-cases, ltb→lt, update_cases, u32, u8, get_or, length,
  take, drop, map, length-append, append-nil, append_assoc,
}
use tortoise.Kernel.Klog.{Klog, klog_putc, copied, oldest, klog_read, empty_log, written}

-- The ring `k` holds the last 16384 bytes of `log`.
pub record Keeps (log : List ℕ) (k : Klog) : Type 0 where
  pub same_length : k.len ≡ length log
  pub recent :
      (i : ℕ) → i < length log → length log ≤ i + 16384 → k.buf (i % 16384) ≡ get_or log i 0

get_or-append : (xs : List ℕ) (x i : ℕ) → i < length xs → get_or (xs ++ x ∷ []) i 0 ≡ get_or xs i 0
get_or-append [] x i h = absurd (omega arith)
get_or-append (y ∷ ys) x zero h = refl
get_or-append (y ∷ ys) x (suc i) h = get_or-append ys x i (omega arith)

get_or-last : (xs : List ℕ) (x : ℕ) → get_or (xs ++ x ∷ []) (length xs) 0 ≡ x
get_or-last [] x = refl
get_or-last (y ∷ ys) x = get_or-last ys x

-- The places of the bytes up to one turn back are not the next one's.
same_place : (i n : ℕ) → i ≤ n → n < i + 16384 → i % 16384 ≡ n % 16384 → i ≡ n
same_place i n h h' e = omega arith

klog_putc-Keeps :
    (log : List ℕ) (c : ℕ) (k : Klog)
    → length log + 1 < 2 ^ 32
    → Keeps log k
    → Keeps (log ++ u8 c ∷ []) (klog_putc c k)
unfolding klog_putc
klog_putc-Keeps log c k short h = record {
  same_length = omega (arith, h.same_length, longer);
  recent = λ i below near. elim (update_cases k.buf (k.len % 16384) (u8 c) (i % 16384)) [
    | inl (e, new) ↦ new ∙ sym (last i below near e)
    | inr (n, old) ↦
        let inside = earlier i below n in
        old ∙ h.recent i inside (omega (arith, longer)) ∙ sym (get_or-append log (u8 c) i inside)
  ];
}
  where
    longer : length (log ++ u8 c ∷ []) ≡ length log + 1
    longer = length-append log (u8 c ∷ [])

    earlier : (i : ℕ) → i < length (log ++ u8 c ∷ []) → i % 16384 ≢ k.len % 16384 → i < length log
    earlier i below n = omega (arith, h.same_length, longer)

    last :
        (i : ℕ)
        → i < length (log ++ u8 c ∷ [])
        → length (log ++ u8 c ∷ []) ≤ i + 16384
        → i % 16384 ≡ k.len % 16384
        → get_or (log ++ u8 c ∷ []) i 0 ≡ u8 c
    last i below near e =
        let here : i ≡ length log =
          same_place i (length log) (omega (arith, longer)) (omega (arith, longer))
            (omega (arith, h.same_length)) in
        rw here (get_or-last log (u8 c))

-- Bytes written one after another.
written-Keeps :
    (cs log : List ℕ) (k : Klog)
    → length log + length cs < 2 ^ 32
    → Keeps log k
    → Keeps (log ++ map u8 cs) (written cs k)
unfolding written
written-Keeps [] log k short h = rw (append-nil log) h
written-Keeps (c ∷ cs) log k short h =
    let longer = length-append log (u8 c ∷ []) in
    rw (sym (append_assoc log (u8 c ∷ []) (map u8 cs))) (
      written-Keeps cs (log ++ u8 c ∷ []) (klog_putc c k) (omega (arith, longer))
        (klog_putc-Keeps log c k (omega arith) h))

drop-get_or : (xs : List ℕ) (i : ℕ) → i < length xs → drop i xs ≡ get_or xs i 0 ∷ drop (suc i) xs
drop-get_or [] i h = absurd (omega arith)
drop-get_or (x ∷ xs) zero h = refl
drop-get_or (x ∷ xs) (suc i) h = drop-get_or xs i (omega arith)

drop-all : (xs : List ℕ) (i : ℕ) → length xs ≤ i → drop i xs ≡ []
drop-all [] zero h = refl
drop-all [] (suc i) h = refl
drop-all (x ∷ xs) zero h = absurd (omega arith)
drop-all (x ∷ xs) (suc i) h = drop-all xs i (omega arith)

copied-take :
    (n off : ℕ) (log : List ℕ) (k : Klog)
    → length log < 2 ^ 32
    → Keeps log k
    → length log ≤ off + 16384
    → copied k off n ≡ take n (drop off log)
unfolding copied
copied-take zero off log k short h near = refl
copied-take (suc n) off log k short h near = elim (Bool-cases (ltb off k.len)) [
  | inl inside ↦
      let below : off < length log =
        (let lt = ltb→lt off k.len inside in omega (arith, h.same_length)) in
      let next : u32 (off + 1) ≡ suc off = omega arith in
      rw
        (
          inside,
          next,
          drop-get_or log off below,
          h.recent off below near,
          copied-take n (suc off) log k short h (omega arith),
        )
        refl
  | inr outside ↦ rw (outside, drop-all log off (ground (arith, h.same_length))) refl
]

empty_log-Keeps : Keeps [] empty_log
empty_log-Keeps = record { same_length = refl; recent = λ i below near. absurd (omega arith) }

length-map : (cs : List ℕ) → length (map u8 cs) ≡ length cs
length-map [] = refl
length-map (c ∷ cs) = ap suc (length-map cs)

-- While fewer than 2 ^ 32 bytes have been logged, a read of the log gives the bytes from the offset
-- asked for, or from the first of the last 16384 if that is later, `n` of them or as many as there
-- are: the ring is a window on the list of all bytes logged.
pub klog_read-written :
    (cs : List ℕ) (off n : ℕ)
    → length cs < 2 ^ 32
    → klog_read (written cs empty_log) off n
      ≡ take n (drop (if ltb off (length cs - 16384) then length cs - 16384 else off) (map u8 cs))
unfolding klog_read oldest
klog_read-written cs off n short =
    let h = written-Keeps cs [] empty_log (omega arith) empty_log-Keeps in
    let same = length-map cs in
    let first : oldest (written cs empty_log) ≡ length cs - 16384 =
      first_offset (written cs empty_log) (omega (arith, h.same_length)) in
    rw first (copied-take n _ (map u8 cs) (written cs empty_log) (omega arith) h (ground arith))
  where
    first_offset : (k : Klog) → k.len ≡ length cs → oldest k ≡ length cs - 16384
    first_offset k e = ground arith
