-- ===== src/NineP/Stat.antt =====
-- `Stat9` of lib/include/9p.h and its conversions in lib/9pconv.c: `sizeD2M`, `convD2M`, `convM2D`
-- and `nulldir9`.
use tortoise.Base.{
  ℕ, ◌+◌, ◌-◌, List, [], ◌++◌, Option, none, some, ltb, if◌then◌else◌, u32, length, take, drop,
}
use tortoise.NineP.{◌>>=◌, Qid, p16, p32, pstr, pqid, g8, g16, g32, gn, gstr}

-- The fields `type` and `length` of the source are `stype` and `lengthlo`.
pub record Stat9 : Type 0 where
  pub stype : ℕ
  pub dev : ℕ
  pub qid : Qid
  pub mode : ℕ
  pub atime : ℕ
  pub mtime : ℕ
  pub lengthlo : ℕ
  pub lengthhi : ℕ
  pub name : List ℕ
  pub uid : List ℕ
  pub gid : List ℕ
  pub muid : List ℕ

unfoldable pub size_d2m : Stat9 → ℕ
size_d2m d = u32 (
    2
    + 2
    + 4
    + 13
    + 4
    + 4
    + 4
    + 8
    + 8
    + length d.name
    + length d.uid
    + length d.gid
    + length d.muid)

-- The four strings at the end.
unfoldable pub put_strings : Stat9 → List ℕ
unfolding pstr
put_strings d = pstr d.name ++ (pstr d.uid ++ (pstr d.gid ++ pstr d.muid))

-- The fields of fixed size behind the size.
unfoldable pub put_fixed : Stat9 → List ℕ
unfolding p16 p32 pqid
put_fixed d =
    p16 d.stype
    ++ p32 d.dev
    ++ pqid d.qid
    ++ p32 d.mode
    ++ p32 d.atime
    ++ p32 d.mtime
    ++ p32 d.lengthlo
    ++ p32 d.lengthhi

-- The bytes that `convD2M` writes to a buffer of `n` bytes; `none` is its result 0.
unfoldable pub conv_d2m : Stat9 → ℕ → Option (List ℕ)
unfolding size_d2m p16 put_fixed put_strings
conv_d2m d n =
    if ltb n (size_d2m d)
    then none
    else some (p16 (size_d2m d - 2) ++ (put_fixed d ++ put_strings d))

-- The strings, from the pointer behind the fixed fields on.
unfoldable pub get_strings : List ℕ → Stat9 → Option Stat9
unfolding gstr
get_strings p d = do
  n ← gstr p
  u ← gstr n.1
  g ← gstr u.1
  m ← gstr g.1
  some (record d { name = n.0; uid = u.0; gid = g.0; muid = m.0 })

-- The fixed fields at a pointer.
unfoldable pub get_fixed : List ℕ → Stat9 → Stat9
unfolding g8 g16 g32
get_fixed p d = record d {
  stype = g16 p;
  dev = g32 (drop 2 p);
  qid = record {
    qtype = g8 (drop 6 p);
    vers = g32 (drop 7 p);
    path = g32 (drop 11 p);
    pathhi = g32 (drop 15 p);
  };
  mode = g32 (drop 19 p);
  atime = g32 (drop 23 p);
  mtime = g32 (drop 27 p);
  lengthlo = g32 (drop 31 p);
  lengthhi = g32 (drop 35 p);
}

-- A buffer of `n` bytes is the list of them; the result has the size and the entry.
unfoldable pub conv_m2d : List ℕ → Stat9 → Option (ℕ × Stat9)
unfolding g16 gn get_fixed get_strings
conv_m2d buf d =
    if ltb (length buf) 2 then none else if ltb (length buf) (g16 buf + 2) then none else (do
      p ← gn (drop 2 (take (g16 buf + 2) buf)) 39
      d' ← get_strings (drop 39 p) (get_fixed p d)
      some (g16 buf + 2, d'))

unfoldable pub nulldir9 : Stat9
nulldir9 = record {
  stype = 0xFFFF;
  dev = 0xFFFFFFFF;
  qid = record { qtype = 0xFF; vers = 0xFFFFFFFF; path = 0xFFFFFFFF; pathhi = 0xFFFFFFFF };
  mode = 0xFFFFFFFF;
  atime = 0xFFFFFFFF;
  mtime = 0xFFFFFFFF;
  lengthlo = 0xFFFFFFFF;
  lengthhi = 0xFFFFFFFF;
  name = [];
  uid = [];
  gid = [];
  muid = [];
}
