-- ===== src/NineP/Carried.antt =====
-- What a receiver is to get: an independent description of the fields that each message carries.
use tortoise.Base.{◌≡◌, ◌+◌, ◌^◌, ◌≤◌, ◌<◌, Bool, true, false, length, All}
use tortoise.NineP.Message.{
  MessageType, Fcall, tversion, rversion, tauth, rauth, tattach, rattach, rerror, tflush, rflush,
  twalk, rwalk, topen, ropen, tcreate, rcreate, tread, rread, twrite, rwrite, tclunk, rclunk,
  tremove, rremove, tstat, rstat, twstat, rwstat, unassigned,
}
use tortoise.NineP.Primitives.{IsString, IsQid}

-- `g` with the fields that a message of the type carries taken from `f`, and the others kept.
abbrev pub carried : MessageType → Fcall → Fcall → Fcall
carried tversion f g = record g { msize = f.msize; version = f.version }
carried rversion f g = record g { msize = f.msize; version = f.version }
carried tauth f g = record g { afid = f.afid; uname = f.uname; aname = f.aname }
carried rauth f g = record g { qid = f.qid }
carried tattach f g = record g { fid = f.fid; afid = f.afid; uname = f.uname; aname = f.aname }
carried rattach f g = record g { qid = f.qid }
carried rerror f g = record g { ename = f.ename }
carried tflush f g = record g { oldtag = f.oldtag }
carried rflush f g = g
carried twalk f g = record g { fid = f.fid; newfid = f.newfid; wname = f.wname }
carried rwalk f g = record g { wqid = f.wqid }
carried topen f g = record g { fid = f.fid; mode = f.mode }
carried ropen f g = record g { qid = f.qid; iounit = f.iounit }
carried tcreate f g = record g { fid = f.fid; name = f.name; perm = f.perm; mode = f.mode }
carried rcreate f g = record g { qid = f.qid; iounit = f.iounit }
carried tread f g = record g {
  fid = f.fid;
  offset = f.offset;
  offsethi = f.offsethi;
  count = f.count;
}
carried rread f g = record g { count = f.count; data_bytes = f.data_bytes }
carried twrite f g = record g {
  fid = f.fid;
  offset = f.offset;
  offsethi = f.offsethi;
  count = f.count;
  data_bytes = f.data_bytes;
}
carried rwrite f g = record g { count = f.count }
carried tclunk f g = record g { fid = f.fid }
carried rclunk f g = g
carried tremove f g = record g { fid = f.fid }
carried rremove f g = g
carried tstat f g = record g { fid = f.fid }
carried rstat f g = record g { stat = f.stat }
carried twstat f g = record g { fid = f.fid; stat = f.stat }
carried rwstat f g = g
carried (unassigned n) f g = g

abbrev pub carries_data : MessageType → Bool
carries_data rread = true
carries_data twrite = true
carries_data t = false

abbrev pub is_assigned : MessageType → Bool
is_assigned (unassigned n) = false
is_assigned t = true

-- The integers are in the ranges of their C types, the strings and the bytes of a stat have fewer
-- than 65536 bytes, a walk has at most 16 names or qids, and the data have `count` bytes.
pub record IsSendable (f : Fcall) : Type 0 where
  pub assigned : is_assigned f.mtype ≡ true
  pub tag_range : f.tag < 2 ^ 16
  pub fid_range : f.fid < 2 ^ 32
  pub afid_range : f.afid < 2 ^ 32
  pub newfid_range : f.newfid < 2 ^ 32
  pub msize_range : f.msize < 2 ^ 32
  pub iounit_range : f.iounit < 2 ^ 32
  pub count_range : f.count + 23 < 2 ^ 32
  pub perm_range : f.perm < 2 ^ 32
  pub oldtag_range : f.oldtag < 2 ^ 16
  pub mode_range : f.mode < 2 ^ 8
  pub offset_range : f.offset < 2 ^ 32
  pub offsethi_range : f.offsethi < 2 ^ 32
  pub version_string : IsString f.version
  pub uname_string : IsString f.uname
  pub aname_string : IsString f.aname
  pub ename_string : IsString f.ename
  pub name_string : IsString f.name
  pub wname_strings : All IsString f.wname
  pub few_names : length f.wname ≤ 16
  pub wqid_ranges : All IsQid f.wqid
  pub few_qids : length f.wqid ≤ 16
  pub qid_range : IsQid f.qid
  pub nstat_range : length f.stat < 2 ^ 16
  pub data_count : carries_data f.mtype ≡ true → length f.data_bytes ≡ f.count
