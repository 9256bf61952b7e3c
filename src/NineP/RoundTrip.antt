-- ===== src/NineP/RoundTrip.antt =====
-- A message of lib/9pconv.c, sent and received: the sizes, and the whole conversion.
use tortoise.Base.{
  ◌≡◌, refl, ap, ◌∙◌, arith, ℕ, suc, ◌+◌, ◌^◌, ◌≤◌, ◌<◌, false, ◌||◌, List, ◌++◌, some, ltb, le→ltb,
  ◌==◌, length, length-append, take-append, append_assoc,
}
use tortoise.NineP.{p8, p16, p32}
use tortoise.NineP.Message.{MessageType, Fcall, number, message_type}
use tortoise.NineP.Encode.{size_s2m, put_fields, conv_s2m}
use tortoise.NineP.Decode.{conv_m2s}
use tortoise.NineP.Primitives.{g8-p8, g16-p16, g32-p32}
use tortoise.NineP.Carried.{carried, IsSendable}
use tortoise.NineP.Size.{full_size-put_fields, full_size-lt, number-lt, message_type-number}
use tortoise.NineP.Fields.{get_fields-put_fields}

-- A sendable message's bytes, read with anything behind them.
received :
    (t : MessageType) (f g : Fcall) (size : ℕ) (extra : List ℕ)
    → IsSendable f
    → t ≡ f.mtype
    → message_type (number t) ≡ t
    → number t < 2 ^ 8
    → size < 2 ^ 32
    → size ≡ suc (suc (suc (suc (suc (suc (suc (length (put_fields t f))))))))
    → conv_m2s ((p32 size ++ p8 (number t) ++ p16 f.tag) ++ (put_fields t f ++ extra)) g
      ≡ some (size, carried t f (record g { mtype = t; tag = f.tag }))
unfolding conv_m2s p8 p16 p32
received t f g size extra h e known byte short whole =
    let longer = length-append (put_fields t f) extra in
    rw
      (
        g32-p32 size (p8 (number t) ++ p16 f.tag ++ put_fields t f ++ extra) short,
        le→ltb size 7 (omega (arith, whole)),
        le→ltb (suc (suc (suc (suc (suc (suc (suc (length (put_fields t f ++ extra))))))))) size
            (omega (arith, whole, longer)),
        le→ltb (suc (suc (suc (suc (suc (suc (suc (length (put_fields t f ++ extra))))))))) 7
            (omega arith),
        g8-p8 (number t) (p16 f.tag ++ put_fields t f ++ extra) byte,
        known,
        g16-p16 f.tag (put_fields t f ++ extra) h.tag_range,
        whole,
        take-append (put_fields t f) extra,
        get_fields-put_fields t f (record g { mtype = t; tag = f.tag }) e h,
      )
      refl

-- The bytes of a message that can be sent.
message_bytes : Fcall → List ℕ
message_bytes f = p32 (size_s2m f) ++ p8 (number f.mtype) ++ p16 f.tag ++ put_fields f.mtype f

-- The size of a message that can be sent is the number of its bytes.
size_s2m-message_bytes : (f : Fcall) → IsSendable f → size_s2m f ≡ 7 + length (put_fields f.mtype f)
unfolding size_s2m
size_s2m-message_bytes f h =
    let exact = full_size-put_fields f.mtype f h.assigned h.data_count in
    let small = full_size-lt f.mtype f h in omega (arith, exact)

length-message_bytes : (f : Fcall) → IsSendable f → length (message_bytes f) ≡ size_s2m f
unfolding message_bytes p8 p16 p32
length-message_bytes f h = omega (arith, size_s2m-message_bytes f h)

-- A buffer that holds the size of a message that can be sent is filled.
conv_s2m-message_bytes :
    (f : Fcall) (n : ℕ) → IsSendable f → size_s2m f ≤ n → conv_s2m f n ≡ some (message_bytes f)
unfolding conv_s2m message_bytes
conv_s2m-message_bytes f n h room =
    let size = size_s2m-message_bytes f h in
    let ok : (size_s2m f == 0 || ltb n (size_s2m f)) ≡ false =
      fits n (size_s2m f) (length (put_fields f.mtype f)) room size in
    rw ok refl
  where
    fits : (n size k : ℕ) → size ≤ n → size ≡ 7 + k → (size == 0 || ltb n size) ≡ false
    fits n size k room e = ground arith

-- A message of any type whose fields are in range, and that fits the buffer, is written, as many bytes as
-- `sizeS2M` says; and those bytes, whatever is behind them, are read back as a message with the same
-- type, tag and fields of that type, the other fields of the receiver left as they were.
pub conv_m2s-conv_s2m :
    (f g : Fcall) (n : ℕ) (extra : List ℕ)
    → IsSendable f
    → size_s2m f ≤ n
    → (bytes : List ℕ) × (conv_s2m f n ≡ some bytes)
      × (length bytes ≡ size_s2m f)
      × (conv_m2s (bytes ++ extra) g
          ≡ some (size_s2m f, carried f.mtype f (record g { mtype = f.mtype; tag = f.tag })))
unfolding message_bytes size_s2m
conv_m2s-conv_s2m f g n extra h room = (
  message_bytes f,
  conv_s2m-message_bytes f n h room,
  length-message_bytes f h,
  ap (λ bs. conv_m2s bs g)
        (append_assoc (p32 (size_s2m f) ++ p8 (number f.mtype) ++ p16 f.tag) (put_fields f.mtype f)
          extra)
      ∙ received f.mtype f g (size_s2m f) extra h refl (message_type-number f.mtype h.assigned)
          (number-lt f.mtype h.assigned) (word f) (omega (arith, size_s2m-message_bytes f h)),
)
  where
    word : (f : Fcall) → size_s2m f < 2 ^ 32
    word f = omega arith
