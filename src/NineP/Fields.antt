-- ===== src/NineP/Fields.antt =====
-- The fields of each message of lib/9pconv.c, put and got again.
use tortoise.Base.{◌≡◌, refl, arith, [], ◌++◌, some, length}
use tortoise.NineP.{p8, p16, p32, pstr}
use tortoise.NineP.Message.{
  MessageType, Fcall, tversion, rversion, tauth, rauth, tattach, rattach, rerror, tflush, rflush,
  twalk, rwalk, topen, ropen, tcreate, rcreate, tread, rread, twrite, rwrite, tclunk, rclunk,
  tremove, rremove, tstat, rstat, twstat, rwstat, unassigned,
}
use tortoise.NineP.Encode.{put_names, put_qids, put_fields}
use tortoise.NineP.Decode.{get_fields}
use tortoise.NineP.Primitives.{gn-enough, g8-p8, g16-p16, g32-p32, gstr-pstr}
use tortoise.NineP.Carried.{carried, IsSendable}
use tortoise.NineP.Pieces.{
  gstr-pstr_last, get_names-put_names, get_qids-put_qids, at_most_16-le, few_short, count_word,
  take-all, drop-all, gn-exact, take-exact, drop-exact, data_of, none_assigned, only_qid,
  qid_iounit, name_perm,
}

-- Every field that the message carries is read back, and nothing is left.
pub get_fields-put_fields :
    (t : MessageType) (f g : Fcall)
    → t ≡ f.mtype
    → IsSendable f
    → get_fields t (put_fields t f) g ≡ some (carried t f g, [])
unfolding get_fields put_fields p8 p16 p32
get_fields-put_fields tversion f g e h =
    rw
      (
        gn-enough {p = p32 f.msize ++ pstr f.version} {k = 4} (omega arith),
        g32-p32 f.msize _ h.msize_range,
        gstr-pstr_last h.version_string,
      )
      refl
get_fields-put_fields rversion f g e h =
    rw
      (
        gn-enough {p = p32 f.msize ++ pstr f.version} {k = 4} (omega arith),
        g32-p32 f.msize _ h.msize_range,
        gstr-pstr_last h.version_string,
      )
      refl
get_fields-put_fields tauth f g e h =
    rw
      (
        gn-enough {p = p32 f.afid ++ pstr f.uname ++ pstr f.aname} {k = 4} (omega arith),
        g32-p32 f.afid _ h.afid_range,
        gstr-pstr {r = pstr f.aname} h.uname_string,
        gstr-pstr_last h.aname_string,
      )
      refl
get_fields-put_fields rauth f g e h = only_qid f g h.qid_range
get_fields-put_fields tattach f g e h =
    rw
      (
        gn-enough {p = p32 f.fid ++ p32 f.afid ++ pstr f.uname ++ pstr f.aname} {k = 8}
            (omega arith),
        g32-p32 f.fid _ h.fid_range,
        g32-p32 f.afid _ h.afid_range,
        gstr-pstr {r = pstr f.aname} h.uname_string,
        gstr-pstr_last h.aname_string,
      )
      refl
get_fields-put_fields rattach f g e h = only_qid f g h.qid_range
get_fields-put_fields rerror f g e h = rw (gstr-pstr_last h.ename_string) refl
get_fields-put_fields tflush f g e h = rw (g16-p16 f.oldtag [] h.oldtag_range) refl
get_fields-put_fields rflush f g e h = refl
get_fields-put_fields twalk f g e h =
    rw
      (
        gn-enough {p = p32 f.fid ++ p32 f.newfid ++ p16 (length f.wname) ++ put_names f.wname}
            {k = 10} (omega arith),
        g32-p32 f.fid _ h.fid_range,
        g32-p32 f.newfid _ h.newfid_range,
        g16-p16 (length f.wname) _ (few_short h.few_names),
        at_most_16-le h.few_names,
        get_names-put_names f.wname h.wname_strings,
      )
      refl
get_fields-put_fields rwalk f g e h =
    rw
      (
        gn-enough {p = p16 (length f.wqid) ++ put_qids f.wqid} {k = 2} (omega arith),
        g16-p16 (length f.wqid) _ (few_short h.few_qids),
        at_most_16-le h.few_qids,
        get_qids-put_qids f.wqid h.wqid_ranges,
      )
      refl
get_fields-put_fields topen f g e h =
    rw (g32-p32 f.fid _ h.fid_range, g8-p8 f.mode [] h.mode_range) refl
get_fields-put_fields ropen f g e h = qid_iounit f g h.qid_range h.iounit_range
get_fields-put_fields tcreate f g e h =
    rw
      (
        gn-enough {p = p32 f.fid ++ (pstr f.name ++ (p32 f.perm ++ p8 f.mode))} {k = 4}
            (omega arith),
        g32-p32 f.fid _ h.fid_range,
      )
      (name_perm f g h.name_string h.perm_range h.mode_range)
get_fields-put_fields rcreate f g e h = qid_iounit f g h.qid_range h.iounit_range
get_fields-put_fields tread f g e h =
    rw
      (
        g32-p32 f.fid _ h.fid_range,
        g32-p32 f.offset _ h.offset_range,
        g32-p32 f.offsethi _ h.offsethi_range,
        g32-p32 f.count _ (count_word h.count_range),
      )
      refl
get_fields-put_fields rread f g e h =
    rw
      (
        take-exact f.data_bytes (h.data_count (data_of e refl)),
        gn-enough {p = p32 f.count ++ f.data_bytes} {k = 4} (omega arith),
        g32-p32 f.count _ (count_word h.count_range),
        gn-exact (h.data_count (data_of e refl)),
        take-exact f.data_bytes (h.data_count (data_of e refl)),
        drop-exact f.data_bytes (h.data_count (data_of e refl)),
      )
      refl
get_fields-put_fields twrite f g e h =
    rw
      (
        take-exact f.data_bytes (h.data_count (data_of e refl)),
        gn-enough {p = p32 f.fid ++ p32 f.offset ++ p32 f.offsethi ++ p32 f.count ++ f.data_bytes}
            {k = 16} (omega arith),
        g32-p32 f.fid _ h.fid_range,
        g32-p32 f.offset _ h.offset_range,
        g32-p32 f.offsethi _ h.offsethi_range,
        g32-p32 f.count _ (count_word h.count_range),
        gn-exact (h.data_count (data_of e refl)),
        take-exact f.data_bytes (h.data_count (data_of e refl)),
        drop-exact f.data_bytes (h.data_count (data_of e refl)),
      )
      refl
get_fields-put_fields rwrite f g e h = rw (g32-p32 f.count _ (count_word h.count_range)) refl
get_fields-put_fields tclunk f g e h = rw (g32-p32 f.fid _ h.fid_range) refl
get_fields-put_fields rclunk f g e h = refl
get_fields-put_fields tremove f g e h = rw (g32-p32 f.fid _ h.fid_range) refl
get_fields-put_fields rremove f g e h = refl
get_fields-put_fields tstat f g e h = rw (g32-p32 f.fid _ h.fid_range) refl
get_fields-put_fields rstat f g e h =
    rw
      (
        gn-enough {p = p16 (length f.stat) ++ f.stat} {k = 2} (omega arith),
        g16-p16 (length f.stat) _ h.nstat_range,
        gn-exact {p = f.stat} refl,
        take-all f.stat,
        drop-all f.stat,
      )
      refl
get_fields-put_fields twstat f g e h =
    rw
      (
        gn-enough {p = p32 f.fid ++ p16 (length f.stat) ++ f.stat} {k = 6} (omega arith),
        g32-p32 f.fid _ h.fid_range,
        g16-p16 (length f.stat) _ h.nstat_range,
        gn-exact {p = f.stat} refl,
        take-all f.stat,
        drop-all f.stat,
      )
      refl
get_fields-put_fields rwstat f g e h = refl
get_fields-put_fields (unassigned n) f g e h = absurd (none_assigned n f e h.assigned)
