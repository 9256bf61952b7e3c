-- ===== src/NineP/Size.antt =====
-- The sizes of the messages of lib/9pconv.c, and their type numbers.
use tortoise.Base.{
  ◌≡◌, ◌≢◌, refl, ap, ◌∙◌, arith, ℕ, ◌+◌, ◌*◌, ◌^◌, ◌≤◌, ◌<◌, true, false, List, [], ◌∷◌, ◌++◌,
  length, take, length-append, All,
}
use tortoise.NineP.{Qid, p8, p16, p32, pstr, pqid}
use tortoise.NineP.Message.{
  MessageType, Fcall, number, message_type, tversion, rversion, tauth, rauth, tattach, rattach,
  rerror, tflush, rflush, twalk, rwalk, topen, ropen, tcreate, rcreate, tread, rread, twrite,
  rwrite, tclunk, rclunk, tremove, rremove, tstat, rstat, twstat, rwstat, unassigned,
}
use tortoise.NineP.Encode.{names_size, full_size, put_names, put_qids, put_fields}
use tortoise.NineP.Primitives.{IsString}
use tortoise.NineP.Carried.{carries_data, is_assigned, IsSendable}
use tortoise.NineP.Pieces.{take-exact}

pub length-pstr : (s : List ℕ) → length (pstr s) ≡ 2 + length s
unfolding pstr p16
length-pstr s = omega arith

length-put_names : (ss : List (List ℕ)) → length (put_names ss) ≡ names_size ss
unfolding put_names names_size
length-put_names [] = refl
length-put_names (s ∷ ss) =
    omega (arith, length-append (pstr s) (put_names ss), length-pstr s, length-put_names ss)

length-pqid : (q : Qid) → length (pqid q) ≡ 13
unfolding pqid p8 p32
length-pqid q = refl

length-put_qids : (qs : List Qid) → length (put_qids qs) ≡ 13 * length qs
unfolding put_qids
length-put_qids [] = refl
length-put_qids (q ∷ qs) =
    omega (arith, length-append (pqid q) (put_qids qs), length-pqid q, length-put_qids qs)

length-data :
    (f : Fcall) → length f.data_bytes ≡ f.count → length (take f.count f.data_bytes) ≡ f.count
length-data f e = ap length (take-exact f.data_bytes e) ∙ e

false_ne_true : false ≢ true
false_ne_true h = cc

-- The size that is sent is the number of bytes behind it and before it.
pub full_size-put_fields :
    (t : MessageType) (f : Fcall)
    → is_assigned t ≡ true
    → (carries_data t ≡ true → length f.data_bytes ≡ f.count)
    → full_size t f ≡ 7 + length (put_fields t f)
unfolding full_size put_fields p8 p16 p32
full_size-put_fields tversion f a h = omega (arith, length-pstr f.version)
full_size-put_fields rversion f a h = omega (arith, length-pstr f.version)
full_size-put_fields tauth f a h =
    omega
      (arith, length-pstr f.uname, length-pstr f.aname, length-append (pstr f.uname) (pstr f.aname))
full_size-put_fields rauth f a h = omega (arith, length-pqid f.qid)
full_size-put_fields tattach f a h =
    omega
      (arith, length-pstr f.uname, length-pstr f.aname, length-append (pstr f.uname) (pstr f.aname))
full_size-put_fields rattach f a h = omega (arith, length-pqid f.qid)
full_size-put_fields rerror f a h = omega (arith, length-pstr f.ename)
full_size-put_fields tflush f a h = omega (arith)
full_size-put_fields rflush f a h = omega (arith)
full_size-put_fields twalk f a h = omega (arith, length-put_names f.wname)
full_size-put_fields rwalk f a h = omega (arith, length-put_qids f.wqid)
full_size-put_fields topen f a h = omega (arith)
full_size-put_fields ropen f a h =
    omega (arith, length-pqid f.qid, length-append (pqid f.qid) (p32 f.iounit))
full_size-put_fields tcreate f a h =
    omega (arith, length-pstr f.name, length-append (pstr f.name) (p32 f.perm ++ p8 f.mode))
full_size-put_fields rcreate f a h =
    omega (arith, length-pqid f.qid, length-append (pqid f.qid) (p32 f.iounit))
full_size-put_fields tread f a h = omega (arith)
full_size-put_fields rread f a h = omega (arith, length-data f (h refl))
full_size-put_fields twrite f a h = omega (arith, length-data f (h refl))
full_size-put_fields rwrite f a h = omega (arith)
full_size-put_fields tclunk f a h = omega (arith)
full_size-put_fields rclunk f a h = omega (arith)
full_size-put_fields tremove f a h = omega (arith)
full_size-put_fields rremove f a h = omega (arith)
full_size-put_fields tstat f a h = omega (arith)
full_size-put_fields rstat f a h = omega (arith)
full_size-put_fields twstat f a h = omega (arith)
full_size-put_fields rwstat f a h = omega (arith)
full_size-put_fields (unassigned n) f a h = absurd (false_ne_true a)

names_size-le : (ss : List (List ℕ)) → All IsString ss → names_size ss ≤ length ss * 65538
unfolding names_size
names_size-le [] h = omega arith
names_size-le (s ∷ ss) (h, hs) = let rest = names_size-le ss hs in omega (arith, h.short)

-- The size of a message that can be sent does not wrap.
pub full_size-lt : (t : MessageType) (f : Fcall) → IsSendable f → full_size t f < 2 ^ 32
unfolding full_size
full_size-lt tversion f h = omega (arith, h.version_string.short)
full_size-lt rversion f h = omega (arith, h.version_string.short)
full_size-lt tauth f h = omega (arith, h.uname_string.short, h.aname_string.short)
full_size-lt rauth f h = omega arith
full_size-lt tattach f h = omega (arith, h.uname_string.short, h.aname_string.short)
full_size-lt rattach f h = omega arith
full_size-lt rerror f h = omega (arith, h.ename_string.short)
full_size-lt tflush f h = omega arith
full_size-lt rflush f h = omega arith
full_size-lt twalk f h = omega (arith, names_size-le f.wname h.wname_strings, h.few_names)
full_size-lt rwalk f h = omega (arith, h.few_qids)
full_size-lt topen f h = omega arith
full_size-lt ropen f h = omega arith
full_size-lt tcreate f h = omega (arith, h.name_string.short)
full_size-lt rcreate f h = omega arith
full_size-lt tread f h = omega arith
full_size-lt rread f h = omega (arith, h.count_range)
full_size-lt twrite f h = omega (arith, h.count_range)
full_size-lt rwrite f h = omega arith
full_size-lt tclunk f h = omega arith
full_size-lt rclunk f h = omega arith
full_size-lt tremove f h = omega arith
full_size-lt rremove f h = omega arith
full_size-lt tstat f h = omega arith
full_size-lt rstat f h = omega (arith, h.nstat_range)
full_size-lt twstat f h = omega (arith, h.nstat_range)
full_size-lt rwstat f h = omega arith
full_size-lt (unassigned n) f h = omega arith

pub number-lt : (t : MessageType) → is_assigned t ≡ true → number t < 2 ^ 8
unfolding number
number-lt tversion a = omega arith
number-lt rversion a = omega arith
number-lt tauth a = omega arith
number-lt rauth a = omega arith
number-lt tattach a = omega arith
number-lt rattach a = omega arith
number-lt rerror a = omega arith
number-lt tflush a = omega arith
number-lt rflush a = omega arith
number-lt twalk a = omega arith
number-lt rwalk a = omega arith
number-lt topen a = omega arith
number-lt ropen a = omega arith
number-lt tcreate a = omega arith
number-lt rcreate a = omega arith
number-lt tread a = omega arith
number-lt rread a = omega arith
number-lt twrite a = omega arith
number-lt rwrite a = omega arith
number-lt tclunk a = omega arith
number-lt rclunk a = omega arith
number-lt tremove a = omega arith
number-lt rremove a = omega arith
number-lt tstat a = omega arith
number-lt rstat a = omega arith
number-lt twstat a = omega arith
number-lt rwstat a = omega arith
number-lt (unassigned n) a = absurd (false_ne_true a)

pub message_type-number : (t : MessageType) → is_assigned t ≡ true → message_type (number t) ≡ t
unfolding message_type number
message_type-number tversion a = refl
message_type-number rversion a = refl
message_type-number tauth a = refl
message_type-number rauth a = refl
message_type-number tattach a = refl
message_type-number rattach a = refl
message_type-number rerror a = refl
message_type-number tflush a = refl
message_type-number rflush a = refl
message_type-number twalk a = refl
message_type-number rwalk a = refl
message_type-number topen a = refl
message_type-number ropen a = refl
message_type-number tcreate a = refl
message_type-number rcreate a = refl
message_type-number tread a = refl
message_type-number rread a = refl
message_type-number twrite a = refl
message_type-number rwrite a = refl
message_type-number tclunk a = refl
message_type-number rclunk a = refl
message_type-number tremove a = refl
message_type-number rremove a = refl
message_type-number tstat a = refl
message_type-number rstat a = refl
message_type-number twstat a = refl
message_type-number rwstat a = refl
message_type-number (unassigned n) a = absurd (false_ne_true a)
