-- ===== src/Protobuf/Fields.antt =====
-- The growable buffer, and whole fields written to it and read back.
use strimserver.Prelude.{
  ℕ, zero, suc, ◌+◌, ◌*◌, ◌/◌, ◌%◌, ◌^◌, ◌≤◌, ◌<◌, ◌≡◌, refl, ap, ◌∙◌, Bool, true, false, some,
  List, [], ◌∷◌, ◌++◌, append_assoc, arith, ltb, ◌==◌, if◌then◌else◌, if_both, not, length,
  length-append,
}
use strimserver.Controller.Types.{u64_mod}
use strimserver.Protobuf.{
  wt_varint, wt_len, Buf, double_until, reserve, append, put_u8, varint_bytes, put_varint, put_tag,
  put_len, PutEnv, put_bytes, put_int64, put_bool, rd_varint, rd_varint_from, rd_tag, split_at,
  rd_len, rd_skip,
}
use strimserver.Protobuf.Varint.{rd_varint-varint_bytes}

-- The bytes lie in the allocation.
pub record IsFit (b : Buf) : Type 0 where
  pub within : length b.bytes ≤ b.cap

double_until_enough :
    (fuel need ncap : ℕ) → 0 < ncap → need ≤ ncap + fuel → need ≤ double_until fuel need ncap
unfolding double_until
double_until_enough zero need ncap pos h = omega (arith, h)
double_until_enough (suc fuel) need ncap pos h =
    let rest = double_until_enough fuel need (ncap * 2) (omega arith) (omega arith) in ground arith

-- A reserve never touches the bytes; if it succeeds, `extra` more of them fit.
reserve-room :
    (alloc : Bool) (b : Buf) (extra : ℕ)
    → let r = reserve alloc b extra in
      (r.0.bytes ≡ b.bytes)
      × (r.1 ≡ true → length b.bytes + extra ≤ r.0.cap)
      × (r.1 ≡ false → r.0 ≡ b)
unfolding reserve
reserve-room alloc b extra =
    let need = length b.bytes + extra in
    let first = if b.cap == 0 then 64 else b.cap in
    let grown = double_until_enough need need first (ground arith) (ground arith) in ground arith

append-IsFit : (alloc : Bool) (b : Buf) (bytes : List ℕ) → IsFit b → IsFit (append alloc b bytes)
unfolding append
append-IsFit alloc b bytes fit =
    ground (arith, reserve-room alloc b (length bytes), length-append b.bytes bytes)

put_tag-IsFit : (alloc : Bool) (b : Buf) (field wt : ℕ) → IsFit b → IsFit (put_tag alloc b field wt)
unfolding put_tag put_varint
put_tag-IsFit alloc b field wt fit =
    append-IsFit alloc b (varint_bytes 10 ((field * 8) % u64_mod + wt)) fit

put_bytes-IsFit :
    (env : PutEnv) (b : Buf) (field : ℕ) (bytes : List ℕ)
    → IsFit b
    → IsFit (put_bytes env b field bytes)
unfolding put_bytes put_len put_varint
put_bytes-IsFit env b field [] fit = fit
put_bytes-IsFit env b field (x ∷ xs) fit =
    append-IsFit env.data_alloc _ (x ∷ xs)
      (append-IsFit env.len_alloc _ _ (put_tag-IsFit env.tag_alloc b field wt_len fit))

-- Whatever realloc answers, no field writer copies a byte behind the allocation of its buffer.
pub put-IsFit :
    (env : PutEnv) (b : Buf) (field : ℕ) (bytes : List ℕ) (v : ℕ) (flag : Bool)
    → IsFit b
    → IsFit (put_bytes env b field bytes)
      × IsFit (put_int64 env b field v)
      × IsFit (put_bool env b field flag)
unfolding put_int64 put_bool put_varint put_u8
put-IsFit env b field bytes v flag fit =
    let tag = put_tag-IsFit env.tag_alloc b field wt_varint fit in
    (
      put_bytes-IsFit env b field bytes fit,
      if_both IsFit (v == 0) _ _ fit (append-IsFit env.len_alloc _ _ tag),
      if_both IsFit (not flag) _ _ fit (append-IsFit env.len_alloc _ _ tag),
    )

-- With the allocation granted, the bytes are appended.
append-granted : (b : Buf) (bytes : List ℕ) → (append true b bytes).bytes ≡ b.bytes ++ bytes
unfolding append reserve
append-granted b bytes = ground arith

abbrev pub granted : PutEnv
granted = record { tag_alloc = true; len_alloc = true; data_alloc = true }

pub split_at-append : (xs ys : List ℕ) → split_at (length xs) (xs ++ ys) ≡ (xs, ys)
unfolding split_at
split_at-append [] ys = refl
split_at-append (x ∷ xs) ys = rw (split_at-append xs ys) refl

rd_tag_read :
    (r rest : List ℕ) (tag : ℕ)
    → rd_varint r ≡ some (tag, rest)
    → rd_tag r ≡ some (tag / 8 % 2 ^ 32, tag % 8, rest)
unfolding rd_varint rd_varint_from rd_tag
rd_tag_read [] rest tag h = cc h
rd_tag_read (x ∷ xs) rest tag h = rw (h, rd_tag) refl

-- The tag of a field in range comes back, with its wire type.
rd_tag-varint_bytes :
    (field wt : ℕ) (rest : List ℕ)
    → field < 2 ^ 29
    → wt < 8
    → rd_tag (varint_bytes 10 ((field * 8) % u64_mod + wt) ++ rest) ≡ some (field, wt, rest)
rd_tag-varint_bytes field wt rest h small =
    let tag = (field * 8) % u64_mod + wt in
    rd_tag_read (varint_bytes 10 tag ++ rest) rest tag
      (rd_varint-varint_bytes tag rest (omega arith)).1
    ∙ ap (λ f. some (f, tag % 8, rest)) (omega arith)
    ∙ ap (λ w. some (field, w, rest)) (omega arith)

rd_len-varint_bytes :
    (xs rest : List ℕ)
    → length xs < u64_mod
    → rd_len (varint_bytes 10 (length xs) ++ (xs ++ rest)) ≡ some (xs, rest)
unfolding rd_len
rd_len-varint_bytes xs rest h =
    let enough : ltb (length (xs ++ rest)) (length xs) ≡ false =
      ground (arith, length-append xs rest) in
    rw
      (
        (rd_varint-varint_bytes (length xs) (xs ++ rest) h).1,
        enough,
        split_at-append xs rest,
        rd_len,
      )
      refl

put_bytes-granted :
    (b : Buf) (field x : ℕ) (xs : List ℕ)
    → (put_bytes granted b field (x ∷ xs)).bytes
      ≡ b.bytes
        ++ (varint_bytes 10 ((field * 8) % u64_mod + wt_len)
            ++ (varint_bytes 10 (length (x ∷ xs)) ++ (x ∷ xs)))
unfolding put_bytes put_len put_tag put_varint
put_bytes-granted b field x xs =
    let tag = varint_bytes 10 ((field * 8) % u64_mod + wt_len) in
    let len = varint_bytes 10 (length (x ∷ xs)) in
    append-granted (put_varint true (put_tag true b field wt_len) (length (x ∷ xs))) (x ∷ xs)
    ∙ ap (λ w. w ++ (x ∷ xs))
        (append-granted (put_tag true b field wt_len) len
          ∙ ap (λ w. w ++ len) (append-granted b tag))
    ∙ append_assoc (b.bytes ++ tag) len (x ∷ xs)
    ∙ append_assoc b.bytes tag (len ++ (x ∷ xs))

put_int64-granted :
    (b : Buf) (field v : ℕ)
    → 0 < v
    → (put_int64 granted b field v).bytes
      ≡ b.bytes ++ (varint_bytes 10 ((field * 8) % u64_mod + wt_varint) ++ varint_bytes 10 v)
unfolding put_int64 put_tag put_varint
put_int64-granted b field v pos =
    let tag = varint_bytes 10 ((field * 8) % u64_mod + wt_varint) in
    let kept : (v == 0) ≡ false = ground arith in
    rw kept (
      append-granted (put_tag true b field wt_varint) (varint_bytes 10 v)
      ∙ ap (λ w. w ++ varint_bytes 10 v) (append-granted b tag)
      ∙ append_assoc b.bytes tag (varint_bytes 10 v))

-- What a walker finds of a length-delimited field.
pub record IsLenField (wire : List ℕ) (field : ℕ) (xs rest : List ℕ) : Type 0 where
  pub body : List ℕ
  pub tag : rd_tag (wire ++ rest) ≡ some (field, wt_len, body)
  pub payload : rd_len body ≡ some (xs, rest)
  pub skipped : rd_skip body wt_len ≡ some rest

-- A field number is put and a payload of bytes that is not empty, with no allocation refused: the
-- buffer grows by one field, from which a walker reads the same number, the wire type LEN and the
-- same payload, and which it can as well skip; both leave exactly the bytes behind the field.
pub put_bytes-IsLenField :
    (b : Buf) (field x : ℕ) (xs rest : List ℕ)
    → field < 2 ^ 29
    → length (x ∷ xs) < u64_mod
    → (wire : List ℕ) × ((put_bytes granted b field (x ∷ xs)).bytes ≡ b.bytes ++ wire)
      × IsLenField wire field (x ∷ xs) rest
unfolding rd_skip
put_bytes-IsLenField b field x xs rest small fits =
    let tag = varint_bytes 10 ((field * 8) % u64_mod + wt_len) in
    let len = varint_bytes 10 (length (x ∷ xs)) in
    let read = rd_len-varint_bytes (x ∷ xs) rest fits in
    (
      tag ++ (len ++ (x ∷ xs)),
      put_bytes-granted b field x xs,
      record {
        body = len ++ ((x ∷ xs) ++ rest);
        tag =
            ap rd_tag (
              append_assoc tag (len ++ (x ∷ xs)) rest
              ∙ ap (λ w. tag ++ w) (append_assoc len (x ∷ xs) rest))
            ∙ rd_tag-varint_bytes field wt_len (len ++ ((x ∷ xs) ++ rest)) small (omega arith);
        payload = read;
        skipped = rw (read, rd_skip) refl;
      },
    )

-- What a walker finds of an integer field.
pub record IsVarintField (wire : List ℕ) (field v : ℕ) (rest : List ℕ) : Type 0 where
  pub body : List ℕ
  pub tag : rd_tag (wire ++ rest) ≡ some (field, wt_varint, body)
  pub value : rd_varint body ≡ some (v, rest)
  pub skipped : rd_skip body wt_varint ≡ some rest

-- A field number is put and a 64-bit integer other than 0, with no allocation refused: the buffer
-- grows by one field, from which a walker reads the same number, the wire type VARINT and the same
-- integer, and which it can as well skip; both leave exactly the bytes behind the field.
pub put_int64-IsVarintField :
    (b : Buf) (field v : ℕ) (rest : List ℕ)
    → field < 2 ^ 29
    → 0 < v
    → v < u64_mod
    → (wire : List ℕ) × ((put_int64 granted b field v).bytes ≡ b.bytes ++ wire)
      × IsVarintField wire field v rest
unfolding rd_skip
put_int64-IsVarintField b field v rest small pos fits =
    let tag = varint_bytes 10 ((field * 8) % u64_mod + wt_varint) in
    let value = varint_bytes 10 v in
    let read = (rd_varint-varint_bytes v rest fits).1 in
    (
      tag ++ value,
      put_int64-granted b field v pos,
      record {
        body = value ++ rest;
        tag =
            ap rd_tag (append_assoc tag value rest)
            ∙ rd_tag-varint_bytes field wt_varint (value ++ rest) small (omega arith);
        value = read;
        skipped = rw (read, rd_skip) refl;
      },
    )
