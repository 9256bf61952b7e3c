-- ===== src/Tests/Messages.antt =====
-- Messages of the file protocol, and the theorems on them at concrete inputs.
use tortoise.Base.{◌≡◌, refl, arith, ℕ, List, [], ◌∷◌, ◌++◌, some, length}
use tortoise.NineP.{Qid}
use tortoise.NineP.Message.{Fcall, twalk, rversion}
use tortoise.NineP.Encode.{size_s2m, conv_s2m}
use tortoise.NineP.Decode.{conv_m2s}
use tortoise.NineP.Primitives.{IsString}
use tortoise.NineP.Carried.{carried, IsSendable}
use tortoise.NineP.RoundTrip.{conv_m2s-conv_s2m}
use tortoise.NineP.Stat.{Stat9, size_d2m, conv_d2m, conv_m2d, nulldir9}
use tortoise.NineP.StatRoundTrip.{conv_m2d-conv_d2m}

abbrev root_qid : Qid
root_qid = record { qtype = 128; vers = 0; path = 1; pathhi = 0 }

-- A walk to `a` and from there to `bc`.
abbrev walk_message : Fcall
walk_message = record {
  mtype = twalk;
  tag = 7;
  fid = 1;
  afid = 0;
  newfid = 2;
  msize = 0;
  iounit = 0;
  count = 0;
  perm = 0;
  oldtag = 0;
  mode = 0;
  offset = 0;
  offsethi = 0;
  version = [];
  uname = [];
  aname = [];
  ename = [];
  name = [];
  wname = (97 ∷ []) ∷ (98 ∷ 99 ∷ []) ∷ [];
  wqid = [];
  qid = root_qid;
  stat = [];
  data_bytes = [];
}

abbrev blank_message : Fcall
blank_message = record walk_message { mtype = rversion; tag = 0; fid = 0; newfid = 0; wname = [] }

empty-IsString : IsString []
empty-IsString = record { no_nul = tt; short = omega arith }

walk_message-IsSendable : IsSendable walk_message
walk_message-IsSendable = record {
  assigned = refl;
  tag_range = omega arith;
  fid_range = omega arith;
  afid_range = omega arith;
  newfid_range = omega arith;
  msize_range = omega arith;
  iounit_range = omega arith;
  count_range = omega arith;
  perm_range = omega arith;
  oldtag_range = omega arith;
  mode_range = omega arith;
  offset_range = omega arith;
  offsethi_range = omega arith;
  version_string = empty-IsString;
  uname_string = empty-IsString;
  aname_string = empty-IsString;
  ename_string = empty-IsString;
  name_string = empty-IsString;
  wname_strings = (
    record { no_nul = ((λ e. omega (arith, e)), tt); short = omega arith },
    (
      record {
        no_nul = ((λ e. omega (arith, e)), ((λ e. omega (arith, e)), tt));
        short = omega arith;
      },
      tt,
    ),
  );
  few_names = omega arith;
  wqid_ranges = tt;
  few_qids = omega arith;
  qid_range = record {
    qtype_range = omega arith;
    vers_range = omega arith;
    path_range = omega arith;
    pathhi_range = omega arith;
  };
  nstat_range = omega arith;
  data_count = λ e. refl;
}

conv_m2s-conv_s2m_example :
    (bytes : List ℕ) × (conv_s2m walk_message 8192 ≡ some bytes)
    × (length bytes ≡ size_s2m walk_message)
    × (conv_m2s (bytes ++ 1 ∷ 2 ∷ []) blank_message
        ≡ some (
          size_s2m walk_message,
          carried twalk walk_message (record blank_message { mtype = twalk; tag = 7 }),
        ))
unfolding size_s2m
conv_m2s-conv_s2m_example =
    conv_m2s-conv_s2m walk_message blank_message 8192 (1 ∷ 2 ∷ []) walk_message-IsSendable
      (omega arith)

-- What a walk takes of its message.
walk_names :
    carried twalk walk_message blank_message
    ≡ record blank_message { fid = 1; newfid = 2; wname = walk_message.wname }
walk_names = refl

abbrev file_entry : Stat9
file_entry = record {
  stype = 0;
  dev = 0;
  qid = root_qid;
  mode = 493;
  atime = 10;
  mtime = 20;
  lengthlo = 30;
  lengthhi = 0;
  name = 97 ∷ [];
  uid = [];
  gid = [];
  muid = [];
}

conv_m2d-conv_d2m_example :
    (bytes : List ℕ) × (conv_d2m file_entry 64 ≡ some bytes)
    × (length bytes ≡ size_d2m file_entry)
    × (conv_m2d (bytes ++ []) nulldir9 ≡ some (size_d2m file_entry, file_entry))
unfolding size_d2m
conv_m2d-conv_d2m_example =
    conv_m2d-conv_d2m file_entry nulldir9 64 []
      (record {
        stype_range = omega arith;
        dev_range = omega arith;
        qid_range = record {
          qtype_range = omega arith;
          vers_range = omega arith;
          path_range = omega arith;
          pathhi_range = omega arith;
        };
        mode_range = omega arith;
        atime_range = omega arith;
        mtime_range = omega arith;
        lengthlo_range = omega arith;
        lengthhi_range = omega arith;
        name_string = record { no_nul = ((λ e. omega (arith, e)), tt); short = omega arith };
        uid_string = empty-IsString;
        gid_string = empty-IsString;
        muid_string = empty-IsString;
        whole_size = omega arith;
      })
      (omega arith)
