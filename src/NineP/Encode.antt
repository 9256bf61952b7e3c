-- ===== src/NineP/Encode.antt =====
-- `sizeS2M` and `convS2M` of lib/9pconv.c.
use tortoise.Base.{
  ℕ, ◌+◌, ◌*◌, List, [], ◌∷◌, ◌++◌, ◌||◌, Option, none, some, ltb, ◌==◌, if◌then◌else◌, u32, length,
  take,
}
use tortoise.NineP.{Qid, p8, p16, p32, pstr, pqid}
use tortoise.NineP.Message.{
  MessageType, Fcall, number, tversion, rversion, tauth, rauth, tattach, rattach, rerror, tflush,
  rflush, twalk, rwalk, topen, ropen, tcreate, rcreate, tread, rread, twrite, rwrite, tclunk,
  rclunk, tremove, rremove, tstat, rstat, twstat, rwstat, unassigned,
}

unfoldable pub names_size : List (List ℕ) → ℕ
names_size [] = 0
names_size (s ∷ ss) = 2 + length s + names_size ss

-- The sum that `sizeS2M` makes, before it wraps.
unfoldable pub full_size : MessageType → Fcall → ℕ
unfolding names_size
full_size tversion f = 7 + 4 + 2 + length f.version
full_size rversion f = 7 + 4 + 2 + length f.version
full_size tauth f = 7 + 4 + 2 + length f.uname + 2 + length f.aname
full_size rauth f = 7 + 13
full_size tattach f = 7 + 4 + 4 + 2 + length f.uname + 2 + length f.aname
full_size rattach f = 7 + 13
full_size rerror f = 7 + 2 + length f.ename
full_size tflush f = 7 + 2
full_size rflush f = 7
full_size twalk f = 7 + (4 + 4 + 2) + names_size f.wname
full_size rwalk f = 7 + 2 + 13 * length f.wqid
full_size topen f = 7 + 4 + 1
full_size ropen f = 7 + 13 + 4
full_size tcreate f = 7 + 4 + 2 + length f.name + 4 + 1
full_size rcreate f = 7 + 13 + 4
full_size tread f = 7 + 4 + 8 + 4
full_size rread f = 7 + 4 + f.count
full_size twrite f = 7 + 4 + 8 + 4 + f.count
full_size rwrite f = 7 + 4
full_size tclunk f = 7 + 4
full_size rclunk f = 7
full_size tremove f = 7 + 4
full_size rremove f = 7
full_size tstat f = 7 + 4
full_size rstat f = 7 + 2 + length f.stat
full_size twstat f = 7 + 4 + 2 + length f.stat
full_size rwstat f = 7
full_size (unassigned n) f = 0

unfoldable pub size_s2m : Fcall → ℕ
unfolding full_size
size_s2m f = u32 (full_size f.mtype f)

unfoldable pub put_names : List (List ℕ) → List ℕ
unfolding pstr
put_names [] = []
put_names (s ∷ ss) = pstr s ++ put_names ss

unfoldable pub put_qids : List Qid → List ℕ
unfolding pqid
put_qids [] = []
put_qids (q ∷ qs) = pqid q ++ put_qids qs

-- The bytes behind the tag, by the type.
unfoldable pub put_fields : MessageType → Fcall → List ℕ
unfolding p8 p16 p32 pstr pqid put_names put_qids
put_fields tversion f = p32 f.msize ++ pstr f.version
put_fields rversion f = p32 f.msize ++ pstr f.version
put_fields tauth f = p32 f.afid ++ pstr f.uname ++ pstr f.aname
put_fields rauth f = pqid f.qid
put_fields tattach f = p32 f.fid ++ p32 f.afid ++ pstr f.uname ++ pstr f.aname
put_fields rattach f = pqid f.qid
put_fields rerror f = pstr f.ename
put_fields tflush f = p16 f.oldtag
put_fields rflush f = []
put_fields twalk f = p32 f.fid ++ p32 f.newfid ++ p16 (length f.wname) ++ put_names f.wname
put_fields rwalk f = p16 (length f.wqid) ++ put_qids f.wqid
put_fields topen f = p32 f.fid ++ p8 f.mode
put_fields ropen f = pqid f.qid ++ p32 f.iounit
put_fields tcreate f = p32 f.fid ++ (pstr f.name ++ (p32 f.perm ++ p8 f.mode))
put_fields rcreate f = pqid f.qid ++ p32 f.iounit
put_fields tread f = p32 f.fid ++ p32 f.offset ++ p32 f.offsethi ++ p32 f.count
put_fields rread f = p32 f.count ++ take f.count f.data_bytes
put_fields twrite f =
    p32 f.fid ++ p32 f.offset ++ p32 f.offsethi ++ p32 f.count ++ take f.count f.data_bytes
put_fields rwrite f = p32 f.count
put_fields tclunk f = p32 f.fid
put_fields rclunk f = []
put_fields tremove f = p32 f.fid
put_fields rremove f = []
put_fields tstat f = p32 f.fid
put_fields rstat f = p16 (length f.stat) ++ f.stat
put_fields twstat f = p32 f.fid ++ p16 (length f.stat) ++ f.stat
put_fields rwstat f = []
put_fields (unassigned n) f = []

-- The bytes that `convS2M` writes to a buffer of `n` bytes; `none` is its result 0.
unfoldable pub conv_s2m : Fcall → ℕ → Option (List ℕ)
unfolding size_s2m p8 p16 p32 put_fields number
conv_s2m f n =
    if size_s2m f == 0 || ltb n (size_s2m f)
    then none
    else some (p32 (size_s2m f) ++ p8 (number f.mtype) ++ p16 f.tag ++ put_fields f.mtype f)
