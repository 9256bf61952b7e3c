-- ===== src/NineP/StatRoundTrip.antt =====
-- A directory entry of lib/9pconv.c, written and read.
use tortoise.Base.{
  ◌≡◌, refl, sym, ap, ◌∙◌, arith, ℕ, suc, ◌+◌, ◌-◌, ◌^◌, ◌≤◌, ◌<◌, List, ◌++◌, Option, some, le→ltb,
  length, drop, length-append, take-append,
}
use tortoise.NineP.{◌>>=◌, p16, p32, pstr, pqid, p8}
use tortoise.NineP.Stat.{
  Stat9, size_d2m, put_strings, put_fixed, conv_d2m, get_strings, get_fixed, conv_m2d,
}
use tortoise.NineP.Primitives.{IsString, IsQid, gn-enough, g8-p8, g16-p16, g32-p32, gstr-pstr}
use tortoise.NineP.Pieces.{gstr-pstr_last}
use tortoise.NineP.Size.{length-pstr}

-- The integers are in the ranges of their C types, the strings have no NUL, and the entry has at
-- most the 65537 bytes that its size can tell.
pub record IsEntry (d : Stat9) : Type 0 where
  pub stype_range : d.stype < 2 ^ 16
  pub dev_range : d.dev < 2 ^ 32
  pub qid_range : IsQid d.qid
  pub mode_range : d.mode < 2 ^ 32
  pub atime_range : d.atime < 2 ^ 32
  pub mtime_range : d.mtime < 2 ^ 32
  pub lengthlo_range : d.lengthlo < 2 ^ 32
  pub lengthhi_range : d.lengthhi < 2 ^ 32
  pub name_string : IsString d.name
  pub uid_string : IsString d.uid
  pub gid_string : IsString d.gid
  pub muid_string : IsString d.muid
  pub whole_size : 49 + length d.name + length d.uid + length d.gid + length d.muid < 2 ^ 16 + 2

get_strings-put_strings :
    (d e : Stat9)
    → IsEntry d
    → get_strings (put_strings d) e
      ≡ some (record e { name = d.name; uid = d.uid; gid = d.gid; muid = d.muid })
unfolding get_strings put_strings
get_strings-put_strings d e h =
    rw
      (
        gstr-pstr {s = d.name} {r = pstr d.uid ++ (pstr d.gid ++ pstr d.muid)} h.name_string,
        gstr-pstr {s = d.uid} {r = pstr d.gid ++ pstr d.muid} h.uid_string,
        gstr-pstr {s = d.gid} {r = pstr d.muid} h.gid_string,
        gstr-pstr_last h.muid_string,
      )
      refl

get_fixed-put_fixed :
    (d e : Stat9) (r : List ℕ)
    → IsEntry d
    → get_fixed (put_fixed d ++ r) e
      ≡ record d { name = e.name; uid = e.uid; gid = e.gid; muid = e.muid }
unfolding get_fixed put_fixed p16 p32 pqid p8
get_fixed-put_fixed d e r h =
    rw
      (
        g16-p16 d.stype _ h.stype_range,
        g32-p32 d.dev _ h.dev_range,
        g8-p8 d.qid.qtype _ h.qid_range.qtype_range,
        g32-p32 d.qid.vers _ h.qid_range.vers_range,
        g32-p32 d.qid.path _ h.qid_range.path_range,
        g32-p32 d.qid.pathhi _ h.qid_range.pathhi_range,
        g32-p32 d.mode _ h.mode_range,
        g32-p32 d.atime _ h.atime_range,
        g32-p32 d.mtime _ h.mtime_range,
        g32-p32 d.lengthlo _ h.lengthlo_range,
        g32-p32 d.lengthhi _ h.lengthhi_range,
      )
      refl

length-put_strings :
    (d : Stat9)
    → length (put_strings d) ≡ 8 + length d.name + length d.uid + length d.gid + length d.muid
unfolding put_strings
length-put_strings d = omega (
  arith,
  length-append (pstr d.name) (pstr d.uid ++ (pstr d.gid ++ pstr d.muid)),
  length-append (pstr d.uid) (pstr d.gid ++ pstr d.muid),
  length-append (pstr d.gid) (pstr d.muid),
  length-pstr d.name,
  length-pstr d.uid,
  length-pstr d.gid,
  length-pstr d.muid,
)

length-put_fixed : (d : Stat9) → length (put_fixed d) ≡ 39
unfolding put_fixed p16 p32 pqid p8
length-put_fixed d = refl

drop-put_fixed : (d : Stat9) (r : List ℕ) → drop 39 (put_fixed d ++ r) ≡ r
unfolding put_fixed p16 p32 pqid p8
drop-put_fixed d r = refl

-- The whole entry behind its size.
entry_read :
    (d e : Stat9)
    → IsEntry d
    → get_strings (put_strings d) (get_fixed (put_fixed d ++ put_strings d) e) ≡ some d
entry_read d e h =
    ap (get_strings (put_strings d)) (get_fixed-put_fixed d e (put_strings d) h)
    ∙ get_strings-put_strings d
        (record d { name = e.name; uid = e.uid; gid = e.gid; muid = e.muid }) h

abbrev with_size : ℕ → Option Stat9 → Option (ℕ × Stat9)
with_size n o = o >>= (λ d. some (n, d))

-- An entry's bytes behind its size, with anything behind them.
entry_received :
    (d e : Stat9) (rest : ℕ) (extra : List ℕ)
    → IsEntry d
    → rest < 2 ^ 16
    → rest ≡ length (put_fixed d ++ put_strings d)
    → conv_m2d (p16 rest ++ ((put_fixed d ++ put_strings d) ++ extra)) e ≡ some (rest + 2, d)
unfolding conv_m2d p16
entry_received d e rest extra h short whole =
    let longer = length-append (put_fixed d ++ put_strings d) extra in
    let fixed = length-append (put_fixed d) (put_strings d) in
    let two : rest + 2 ≡ suc (suc (length (put_fixed d ++ put_strings d))) = omega (arith, whole) in
    rw
      (
        le→ltb (suc (suc (length ((put_fixed d ++ put_strings d) ++ extra)))) 2 (omega arith),
        g16-p16 rest ((put_fixed d ++ put_strings d) ++ extra) short,
        le→ltb (suc (suc (length ((put_fixed d ++ put_strings d) ++ extra)))) (rest + 2)
            (omega (arith, whole, longer)),
        two,
        take-append (put_fixed d ++ put_strings d) extra,
        gn-enough {p = put_fixed d ++ put_strings d} {k = 39}
            (omega (arith, fixed, length-put_fixed d)),
        drop-put_fixed d (put_strings d),
      )
      (ap (with_size (suc (suc (length (put_fixed d ++ put_strings d))))) (entry_read d e h))

-- A directory entry whose fields are in range and that fits the buffer is written, as many bytes
-- as `sizeD2M` says; and those bytes, whatever is behind them, are read back as the same entry.
pub conv_m2d-conv_d2m :
    (d e : Stat9) (n : ℕ) (extra : List ℕ)
    → IsEntry d
    → size_d2m d ≤ n
    → (bytes : List ℕ) × (conv_d2m d n ≡ some bytes)
      × (length bytes ≡ size_d2m d)
      × (conv_m2d (bytes ++ extra) e ≡ some (size_d2m d, d))
unfolding conv_d2m size_d2m p16
conv_m2d-conv_d2m d e n extra h room =
    let fields = put_fixed d ++ put_strings d in
    let inside : length (put_fixed d ++ put_strings d) ≡ size_d2m d - 2 = omega (
      arith,
      length-append (put_fixed d) (put_strings d),
      length-put_fixed d,
      length-put_strings d,
      h.whole_size,
    ) in
    let size : size_d2m d - 2 + 2 ≡ size_d2m d = omega (arith, h.whole_size) in
    (
      p16 (size_d2m d - 2) ++ fields,
      rw (le→ltb n (size_d2m d) room) refl,
      omega (arith, inside, size),
      rw size at
          (entry_received d e (size_d2m d - 2) extra h (omega (arith, h.whole_size)) (sym inside)),
    )
