-- ===== src/NineP/Decode.antt =====
-- `convM2S` of lib/9pconv.c.
use tortoise.Base.{
  ℕ, zero, suc, List, [], ◌∷◌, ◌||◌, Option, none, some, ltb, if◌then◌else◌, length, take, drop,
}
use tortoise.NineP.{◌>>=◌, Qid, g8, g16, g32, gn, gstr, gqid}
use tortoise.NineP.Message.{
  MessageType, Fcall, message_type, tversion, rversion, tauth, rauth, tattach, rattach, rerror,
  tflush, rflush, twalk, rwalk, topen, ropen, tcreate, rcreate, tread, rread, twrite, rwrite,
  tclunk, rclunk, tremove, rremove, tstat, rstat, twstat, rwstat, unassigned,
}

-- MAXWELEM is 16.
unfoldable pub at_most_16 : ℕ → Option ℕ
at_most_16 n = if ltb 16 n then none else some n

unfoldable pub get_names : ℕ → List ℕ → Option (List (List ℕ) × List ℕ)
unfolding gstr
get_names zero p = some ([], p)
get_names (suc n) p = do s ← gstr p; r ← get_names n s.1; some (s.0 ∷ r.0, r.1)

unfoldable pub get_qids : ℕ → List ℕ → Option (List Qid × List ℕ)
unfolding gqid
get_qids zero p = some ([], p)
get_qids (suc n) p = do q ← gqid p; r ← get_qids n q.1; some (q.0 ∷ r.0, r.1)

-- The fields behind the tag, by the type, and the pointer behind them. `none` is the result 0; what
-- it leaves in the fields is not told.
unfoldable pub get_fields : MessageType → List ℕ → Fcall → Option (Fcall × List ℕ)
unfolding g8 g16 g32 gn gstr gqid at_most_16 get_names get_qids
get_fields tversion p f = do
  p' ← gn p 4
  r ← gstr (drop 4 p')
  some (record f { msize = g32 p'; version = r.0 }, r.1)
get_fields rversion p f = do
  p' ← gn p 4
  r ← gstr (drop 4 p')
  some (record f { msize = g32 p'; version = r.0 }, r.1)
get_fields tauth p f = do
  p' ← gn p 4
  u ← gstr (drop 4 p')
  a ← gstr u.1
  some (record f { afid = g32 p'; uname = u.0; aname = a.0 }, a.1)
get_fields rauth p f = do q ← gqid p; some (record f { qid = q.0 }, q.1)
get_fields tattach p f = do
  p' ← gn p 8
  u ← gstr (drop 8 p')
  a ← gstr u.1
  some (record f { fid = g32 p'; afid = g32 (drop 4 p'); uname = u.0; aname = a.0 }, a.1)
get_fields rattach p f = do q ← gqid p; some (record f { qid = q.0 }, q.1)
get_fields rerror p f = do r ← gstr p; some (record f { ename = r.0 }, r.1)
get_fields tflush p f = do p' ← gn p 2; some (record f { oldtag = g16 p' }, drop 2 p')
get_fields rflush p f = some (f, p)
get_fields twalk p f = do
  p' ← gn p 10
  n ← at_most_16 (g16 (drop 8 p'))
  r ← get_names n (drop 10 p')
  some (record f { fid = g32 p'; newfid = g32 (drop 4 p'); wname = r.0 }, r.1)
get_fields rwalk p f = do
  p' ← gn p 2
  n ← at_most_16 (g16 p')
  r ← get_qids n (drop 2 p')
  some (record f { wqid = r.0 }, r.1)
get_fields topen p f = do
  p' ← gn p 5
  some (record f { fid = g32 p'; mode = g8 (drop 4 p') }, drop 5 p')
get_fields ropen p f = do
  q ← gqid p
  p' ← gn q.1 4
  some (record f { qid = q.0; iounit = g32 p' }, drop 4 p')
get_fields tcreate p f = do
  p' ← gn p 4
  r ← gstr (drop 4 p')
  p'' ← gn r.1 5
  some (record f { fid = g32 p'; name = r.0; perm = g32 p''; mode = g8 (drop 4 p'') }, drop 5 p'')
get_fields rcreate p f = do
  q ← gqid p
  p' ← gn q.1 4
  some (record f { qid = q.0; iounit = g32 p' }, drop 4 p')
get_fields tread p f = do
  p' ← gn p 16
  some (
    record f {
      fid = g32 p';
      offset = g32 (drop 4 p');
      offsethi = g32 (drop 8 p');
      count = g32 (drop 12 p');
    },
    drop 16 p',
  )
get_fields rread p f = do
  p' ← gn p 4
  d ← gn (drop 4 p') (g32 p')
  some (record f { count = g32 p'; data_bytes = take (g32 p') d }, drop (g32 p') d)
get_fields twrite p f = do
  p' ← gn p 16
  d ← gn (drop 16 p') (g32 (drop 12 p'))
  some (
    record f {
      fid = g32 p';
      offset = g32 (drop 4 p');
      offsethi = g32 (drop 8 p');
      count = g32 (drop 12 p');
      data_bytes = take (g32 (drop 12 p')) d;
    },
    drop (g32 (drop 12 p')) d,
  )
get_fields rwrite p f = do p' ← gn p 4; some (record f { count = g32 p' }, drop 4 p')
get_fields tclunk p f = do p' ← gn p 4; some (record f { fid = g32 p' }, drop 4 p')
get_fields rclunk p f = some (f, p)
get_fields tremove p f = do p' ← gn p 4; some (record f { fid = g32 p' }, drop 4 p')
get_fields rremove p f = some (f, p)
get_fields tstat p f = do p' ← gn p 4; some (record f { fid = g32 p' }, drop 4 p')
get_fields rstat p f = do
  p' ← gn p 2
  d ← gn (drop 2 p') (g16 p')
  some (record f { stat = take (g16 p') d }, drop (g16 p') d)
get_fields twstat p f = do
  p' ← gn p 6
  d ← gn (drop 6 p') (g16 (drop 4 p'))
  some (record f { fid = g32 p'; stat = take (g16 (drop 4 p')) d }, drop (g16 (drop 4 p')) d)
get_fields rwstat p f = some (f, p)
get_fields (unassigned n) p f = none

-- `p != end` fails.
unfoldable pub ends_there : ℕ → Fcall × List ℕ → Option (ℕ × Fcall)
ends_there size (f, []) = some (size, f)
ends_there size (f, b ∷ bs) = none

-- A buffer of `n` bytes is the list of them.
unfoldable pub conv_m2s : List ℕ → Fcall → Option (ℕ × Fcall)
unfolding g32 g16 g8 get_fields message_type ends_there
conv_m2s buf f =
    if ltb (length buf) 7
    then none
    else if ltb (g32 buf) 7 || ltb (length buf) (g32 buf)
    then none
    else (let t = message_type (g8 (drop 4 buf)) in
        get_fields t (drop 7 (take (g32 buf) buf)) (record f { mtype = t; tag = g16 (drop 5 buf) })
        >>= ends_there (g32 buf))
