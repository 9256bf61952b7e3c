-- ===== src/NineP/Message.antt =====
-- The messages of lib/include/9p.h: the message types and `Fcall`.
use tortoise.Base.{ℕ, List, ◌==◌, if◌then◌else◌}
use tortoise.NineP.{Qid}

-- The message types, in the order of their numbers; `unassigned` is every other number.
pub data MessageType : Type 0 where
  tversion : MessageType
  rversion : MessageType
  tauth : MessageType
  rauth : MessageType
  tattach : MessageType
  rattach : MessageType
  rerror : MessageType
  tflush : MessageType
  rflush : MessageType
  twalk : MessageType
  rwalk : MessageType
  topen : MessageType
  ropen : MessageType
  tcreate : MessageType
  rcreate : MessageType
  tread : MessageType
  rread : MessageType
  twrite : MessageType
  rwrite : MessageType
  tclunk : MessageType
  rclunk : MessageType
  tremove : MessageType
  rremove : MessageType
  tstat : MessageType
  rstat : MessageType
  twstat : MessageType
  rwstat : MessageType
  unassigned : ℕ → MessageType

unfoldable pub number : MessageType → ℕ
number tversion = 100
number rversion = 101
number tauth = 102
number rauth = 103
number tattach = 104
number rattach = 105
number rerror = 107
number tflush = 108
number rflush = 109
number twalk = 110
number rwalk = 111
number topen = 112
number ropen = 113
number tcreate = 114
number rcreate = 115
number tread = 116
number rread = 117
number twrite = 118
number rwrite = 119
number tclunk = 120
number rclunk = 121
number tremove = 122
number rremove = 123
number tstat = 124
number rstat = 125
number twstat = 126
number rwstat = 127
number (unassigned n) = n

unfoldable pub message_type : ℕ → MessageType
message_type n =
    if n == 100
    then tversion
    else if n == 101
    then rversion
    else if n == 102
    then tauth
    else if n == 103
    then rauth
    else if n == 104
    then tattach
    else if n == 105
    then rattach
    else if n == 107
    then rerror
    else if n == 108
    then tflush
    else if n == 109
    then rflush
    else if n == 110
    then twalk
    else if n == 111
    then rwalk
    else if n == 112
    then topen
    else if n == 113
    then ropen
    else if n == 114
    then tcreate
    else if n == 115
    then rcreate
    else if n == 116
    then tread
    else if n == 117
    then rread
    else if n == 118
    then twrite
    else if n == 119
    then rwrite
    else if n == 120
    then tclunk
    else if n == 121
    then rclunk
    else if n == 122
    then tremove
    else if n == 123
    then rremove
    else if n == 124
    then tstat
    else if n == 125
    then rstat
    else if n == 126
    then twstat
    else if n == 127
    then rwstat
    else unassigned n

-- `Fcall`. The names and qids of a walk are lists, with `nwname` and `nwqid` their lengths, and the
-- bytes at `stat` one with `nstat` its length; the name of the type field in the source is `type`.
pub record Fcall : Type 0 where
  pub mtype : MessageType
  pub tag : ℕ
  pub fid : ℕ
  pub afid : ℕ
  pub newfid : ℕ
  pub msize : ℕ
  pub iounit : ℕ
  pub count : ℕ
  pub perm : ℕ
  pub oldtag : ℕ
  pub mode : ℕ
  pub offset : ℕ
  pub offsethi : ℕ
  pub version : List ℕ
  pub uname : List ℕ
  pub aname : List ℕ
  pub ename : List ℕ
  pub name : List ℕ
  pub wname : List (List ℕ)
  pub wqid : List Qid
  pub qid : Qid
  pub stat : List ℕ
  pub data_bytes : List ℕ
