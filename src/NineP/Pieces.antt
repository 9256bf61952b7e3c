-- ===== src/NineP/Pieces.antt =====
-- What a message of lib/9pconv.c is put together from: lists of names and qids, data, and fields
-- behind a string or a qid.
use tortoise.Base.{
  ◌≡◌, ◌≢◌, refl, sym, ap, ◌∙◌, arith, ℕ, ◌+◌, ◌^◌, ◌≤◌, ◌<◌, true, false, List, [], ◌∷◌, ◌++◌,
  Option, some, le→ltb, length, take, drop, append-nil, take-append, drop-append, All,
}
use tortoise.NineP.{◌>>=◌, Qid, p8, p32, pstr, pqid, g8, g32, gn, gstr, gqid}
use tortoise.NineP.Message.{MessageType, Fcall, tcreate, unassigned}
use tortoise.NineP.Encode.{put_names, put_qids}
use tortoise.NineP.Decode.{at_most_16, get_names, get_qids}
use tortoise.NineP.Primitives.{IsString, IsQid, gn-enough, g8-p8, g32-p32, gstr-pstr, gqid-pqid}
use tortoise.NineP.Carried.{carried, carries_data, is_assigned}

pub gstr-pstr_last : {s : List ℕ} → IsString s → gstr (pstr s) ≡ some (s, [])
gstr-pstr_last {s} h = rw (append-nil (pstr s)) at (gstr-pstr {s = s} {r = []} h)

pub gqid-pqid_last : {q : Qid} → IsQid q → gqid (pqid q) ≡ some (q, [])
gqid-pqid_last {q} h = rw (append-nil (pqid q)) at (gqid-pqid {q = q} {r = []} h)

pub get_names-put_names :
    (ss : List (List ℕ)) → All IsString ss → get_names (length ss) (put_names ss) ≡ some (ss, [])
unfolding get_names put_names
get_names-put_names [] h = refl
get_names-put_names (s ∷ ss) (h, hs) =
    rw (gstr-pstr {r = put_names ss} h, get_names-put_names ss hs) refl

pub get_qids-put_qids :
    (qs : List Qid) → All IsQid qs → get_qids (length qs) (put_qids qs) ≡ some (qs, [])
unfolding get_qids put_qids
get_qids-put_qids [] h = refl
get_qids-put_qids (q ∷ qs) (h, hs) =
    rw (gqid-pqid {r = put_qids qs} h, get_qids-put_qids qs hs) refl

pub at_most_16-le : {n : ℕ} → n ≤ 16 → at_most_16 n ≡ some n
unfolding at_most_16
at_most_16-le {n} h = rw (le→ltb 16 n h) refl

pub few_short : {n : ℕ} → n ≤ 16 → n < 2 ^ 16
few_short h = omega arith

pub count_word : {n : ℕ} → n + 23 < 2 ^ 32 → n < 2 ^ 32
count_word h = omega arith

pub take-all : (xs : List ℕ) → take (length xs) xs ≡ xs
take-all xs = ap (take (length xs)) (sym (append-nil xs)) ∙ take-append xs []

pub drop-all : (xs : List ℕ) → drop (length xs) xs ≡ []
drop-all xs = ap (drop (length xs)) (sym (append-nil xs)) ∙ drop-append xs []

pub gn-exact : {p : List ℕ} {k : ℕ} → length p ≡ k → gn p k ≡ some p
gn-exact {p} {k} e = gn-enough {p = p} {k = k} (omega arith)

pub take-exact : {k : ℕ} (xs : List ℕ) → length xs ≡ k → take k xs ≡ xs
take-exact xs e = ap (λ n. take n xs) (sym e) ∙ take-all xs

pub drop-exact : {k : ℕ} (xs : List ℕ) → length xs ≡ k → drop k xs ≡ []
drop-exact xs e = ap (λ n. drop n xs) (sym e) ∙ drop-all xs

pub data_of : {t t' : MessageType} → t ≡ t' → carries_data t ≡ true → carries_data t' ≡ true
data_of e h = ap carries_data (sym e) ∙ h

pub false_ne_true : false ≢ true
false_ne_true h = cc

pub none_assigned : (n : ℕ) (f : Fcall) → unassigned n ≡ f.mtype → is_assigned f.mtype ≢ true
none_assigned n f e h = false_ne_true (ap is_assigned e ∙ h)

abbrev pub set_qid : Fcall → Qid × List ℕ → Option (Fcall × List ℕ)
set_qid g q = some (record g { qid = q.0 }, q.1)

pub only_qid :
    (f g : Fcall) → IsQid f.qid → (gqid (pqid f.qid) >>= set_qid g) ≡ set_qid g (f.qid, [])
only_qid f g h = rw (gqid-pqid_last h) refl

abbrev pub set_iounit : Fcall → Qid → List ℕ → Option (Fcall × List ℕ)
set_iounit g q p = some (record g { qid = q; iounit = g32 p }, drop 4 p)

abbrev pub then_iounit : Fcall → Qid × List ℕ → Option (Fcall × List ℕ)
then_iounit g q = gn q.1 4 >>= set_iounit g q.0

abbrev pub both : Fcall → Fcall → Option (Fcall × List ℕ)
both f g = some (record g { qid = f.qid; iounit = f.iounit }, [])

pub after_qid : (f g : Fcall) → f.iounit < 2 ^ 32 → then_iounit g (f.qid, p32 f.iounit) ≡ both f g
unfolding p32
after_qid f g h =
    rw (gn-enough {p = p32 f.iounit} {k = 4} (omega arith), g32-p32 f.iounit [] h) refl

pub qid_iounit :
    (f g : Fcall)
    → IsQid f.qid
    → f.iounit < 2 ^ 32
    → (gqid (pqid f.qid ++ p32 f.iounit) >>= then_iounit g) ≡ both f g
qid_iounit f g h k = rw (gqid-pqid {q = f.qid} {r = p32 f.iounit} h) (after_qid f g k)

abbrev pub then_perm : Fcall → List ℕ × List ℕ → Option (Fcall × List ℕ)
then_perm g r =
    gn r.1 5 >>= (λ p. some (record g { name = r.0; perm = g32 p; mode = g8 (drop 4 p) }, drop 5 p))

pub perm_mode :
    (f g : Fcall)
    → f.perm < 2 ^ 32
    → f.mode < 2 ^ 8
    → then_perm (record g { fid = f.fid }) (f.name, p32 f.perm ++ p8 f.mode)
      ≡ some (carried tcreate f g, [])
unfolding p32 p8
perm_mode f g h k =
    rw
      (
        gn-enough {p = p32 f.perm ++ p8 f.mode} {k = 5} (omega arith),
        g32-p32 f.perm _ h,
        g8-p8 f.mode [] k,
      )
      refl

pub name_perm :
    (f g : Fcall)
    → IsString f.name
    → f.perm < 2 ^ 32
    → f.mode < 2 ^ 8
    → (gstr (pstr f.name ++ (p32 f.perm ++ p8 f.mode)) >>= then_perm (record g { fid = f.fid }))
      ≡ some (carried tcreate f g, [])
name_perm f g h k l =
    rw (gstr-pstr {s = f.name} {r = p32 f.perm ++ p8 f.mode} h) (perm_mode f g k l)
