-- ===== src/Frames/RoundTrip.antt =====
-- A frame that is written is read back whole, however the socket cuts it.
use strimserver.Prelude.{
  ℕ, zero, suc, ◌+◌, ◌-◌, ◌^◌, ◌≤◌, ◌<◌, ◌≡◌, refl, ap, sym, ◌∙◌, subst, true, false, some, List,
  [], ◌∷◌, ◌++◌, append_assoc, append-nil, arith, ltb, leb, ◌==◌, if_true, if_false, if_both,
  if◌then◌else◌, length, length-append, Bool-cases, inl, inr,
}
use strimserver.Protobuf.{split_at}
use strimserver.Messages.{big_endian}
use strimserver.Frames.{
  byte_of, frame_header, frame_write, FrameReader, frame_reader_reset, parse_header, some_of,
  is_empty, Fill, ready, fill_payload, fill,
}

-- A read of some of the bytes that are wanted.
record IsRead (xs rest : List ℕ) (cut : List ℕ × List ℕ) : Type 0 where
  left : List ℕ
  whole : xs ≡ cut.0 ++ left
  behind : cut.1 ≡ left ++ rest
  fewer : length left < length xs

split_at-IsRead :
    (n : ℕ) (x : ℕ) (xs rest : List ℕ)
    → n ≤ length xs
    → IsRead (x ∷ xs) rest (split_at (suc n) (x ∷ xs ++ rest))
unfolding split_at
split_at-IsRead zero x xs rest h = record {
  left = xs;
  whole = refl;
  behind = refl;
  fewer = omega arith;
}
split_at-IsRead (suc n) x [] rest h = absurd (omega arith)
split_at-IsRead (suc n) x (y ∷ xs) rest h =
    let later = split_at-IsRead n y xs rest (omega arith) in
    record {
      left = later.left;
      whole = ap (λ w. x ∷ w) later.whole;
      behind = later.behind;
      fewer = omega (arith, later.fewer);
    }

some_of-IsRead :
    (amount wanted x : ℕ) (xs rest : List ℕ)
    → wanted ≡ suc (length xs)
    → IsRead (x ∷ xs) rest (split_at (some_of amount wanted) (x ∷ xs ++ rest))
some_of-IsRead amount wanted x xs rest h = elim (Bool-cases (ltb amount wanted)) [
  | inl few ↦
      subst (λ n. IsRead (x ∷ xs) rest (split_at n (x ∷ xs ++ rest)))
        (sym (if_true (ltb amount wanted) (suc amount) wanted few))
        (split_at-IsRead amount x xs rest (ground (arith, few, h)))
  | inr all ↦
      subst (λ n. IsRead (x ∷ xs) rest (split_at n (x ∷ xs ++ rest)))
        (sym (if_false (ltb amount wanted) (suc amount) wanted all ∙ h))
        (split_at-IsRead (length xs) x xs rest (omega arith))
]

fill-header :
    (amount : ℕ → ℕ) (fuel i : ℕ) (r : FrameReader) (x : ℕ) (input : List ℕ)
    → ltb (length r.hdr) 9 ≡ true
    → (let h = split_at (some_of (amount i) (9 - length r.hdr)) (x ∷ input) in
        fill amount (suc fuel) i r (x ∷ input)
        ≡ fill amount fuel (suc i) (record r { hdr = r.hdr ++ h.0 }) h.1)
unfolding fill
fill-header amount fuel i r x input few = if_true (ltb (length r.hdr) 9) _ _ few

-- The header is read whole before the payload.
header_phase :
    (amount : ℕ → ℕ) (want : Fill) (fuel m i : ℕ) (r : FrameReader) (xs rest : List ℕ)
    → length r.hdr + length xs ≡ 9
    → length xs + m ≤ fuel
    → ((k j : ℕ) → m ≤ k → fill amount k j (record r { hdr = r.hdr ++ xs }) rest ≡ want)
    → fill amount fuel i r (xs ++ rest) ≡ want
header_phase amount want fuel m i r [] rest nine enough later =
    ap (λ h. fill amount fuel i (record r { hdr = h }) rest) (sym (append-nil r.hdr))
    ∙ later fuel i (omega (arith, enough))
header_phase amount want zero m i r (x ∷ xs) rest nine enough later = absurd (omega (arith, enough))
header_phase amount want (suc fuel) m i r (x ∷ xs) rest nine enough later =
    let read : IsRead (x ∷ xs) rest
        (split_at (some_of (amount i) (9 - length r.hdr)) (x ∷ xs ++ rest)) =
      some_of-IsRead (amount i) (9 - length r.hdr) x xs rest (omega (arith, nine)) in
    let got = (split_at (some_of (amount i) (9 - length r.hdr)) (x ∷ xs ++ rest)).0 in
    let r' : FrameReader = record r { hdr = r.hdr ++ got } in
    let counted = length-append got read.left in
    let counted' = length-append r.hdr got in
    let whole = ap length read.whole in
    fill-header amount fuel i r x (xs ++ rest) (ground (arith, nine))
    ∙ ap (λ w. fill amount fuel (suc i) r' w) read.behind
    ∙ header_phase amount want fuel m (suc i) r' read.left rest
        (omega (arith, counted, counted', whole, nine)) (omega (arith, read.fewer, enough))
        (λ k j h.
          ap (λ w. fill amount k j (record r { hdr = w }) rest)
            (append_assoc r.hdr got read.left ∙ ap (λ w. r.hdr ++ w) (sym read.whole))
          ∙ later k j h)

-- The payload, once the header is parsed.
record IsParsed (p : FrameReader) : Type 0 where
  full : ltb (length p.hdr) 9 ≡ false
  same : (got : List ℕ) → parse_header (record p { payload = got }) ≡ record p { payload = got }

fill-payload :
    (amount : ℕ → ℕ) (fuel i : ℕ) (r p : FrameReader) (x : ℕ) (input : List ℕ)
    → ltb (length r.hdr) 9 ≡ false
    → (if is_empty r.payload then parse_header r else r) ≡ p
    → (p.payload_len == 0) ≡ false
    → (let b = fill_payload amount i p (x ∷ input) in
        fill amount (suc fuel) i r (x ∷ input) ≡ (
          if leb b.0.payload_len (length b.0.payload)
          then ready b.0 b.1
          else fill amount fuel (suc i) b.0 b.1))
unfolding fill
fill-payload amount fuel i r p x input full parsed some_len =
    if_false (ltb (length r.hdr) 9) _ _ full
    ∙ subst
        (λ q.
          let b = fill_payload amount i q (x ∷ input) in
          (if q.payload_len == 0
            then ready q (x ∷ input)
            else if leb b.0.payload_len (length b.0.payload)
            then ready b.0 b.1
            else fill amount fuel (suc i) b.0 b.1)
          ≡ (let c = fill_payload amount i p (x ∷ input) in
              if leb c.0.payload_len (length c.0.payload)
              then ready c.0 c.1
              else fill amount fuel (suc i) c.0 c.1))
        (sym parsed) (if_false (p.payload_len == 0) _ _ some_len)

payload_settled :
    (amount : ℕ → ℕ) (fuel i : ℕ) (p : FrameReader) (left rest : List ℕ)
    → p.payload_len ≡ length p.payload + length left
    → ((y : ℕ) (ys : List ℕ)
        → left ≡ y ∷ ys
        → fill amount fuel i p (y ∷ ys ++ rest)
          ≡ ready (record p { payload = p.payload ++ y ∷ ys }) rest)
    → (if leb p.payload_len (length p.payload)
        then ready p (left ++ rest)
        else fill amount fuel i p (left ++ rest))
      ≡ ready (record p { payload = p.payload ++ left }) rest
payload_settled amount fuel i p [] rest len later =
    if_true (leb p.payload_len (length p.payload)) _ _ (ground (arith, len))
    ∙ ap (λ w. ready (record p { payload = w }) rest) (sym (append-nil p.payload))
payload_settled amount fuel i p (y ∷ ys) rest len later =
    if_false (leb p.payload_len (length p.payload)) _ _ (ground (arith, len)) ∙ later y ys refl

payload_phase :
    (amount : ℕ → ℕ) (fuel i : ℕ) (p : FrameReader) (x : ℕ) (xs rest : List ℕ)
    → IsParsed p
    → p.payload_len ≡ length p.payload + suc (length xs)
    → suc (length xs) ≤ fuel
    → (r : FrameReader) → ltb (length r.hdr) 9 ≡ false
    → (if is_empty r.payload then parse_header r else r) ≡ p
    → fill amount fuel i r (x ∷ xs ++ rest)
      ≡ ready (record p { payload = p.payload ++ x ∷ xs }) rest
unfolding fill_payload
payload_phase amount zero i p x xs rest parsed len enough r full same =
    absurd (omega (arith, enough))
payload_phase amount (suc fuel) i p x xs rest parsed len enough r full same =
    let n = p.payload_len - length p.payload in
    let cut = split_at (some_of (amount i) n) (x ∷ xs ++ rest) in
    let read : IsRead (x ∷ xs) rest cut =
      some_of-IsRead (amount i) n x xs rest (omega (arith, len)) in
    let p' : FrameReader = record p { payload = p.payload ++ cut.0 } in
    let counted = length-append cut.0 read.left in
    let counted' = length-append p.payload cut.0 in
    let whole = ap length read.whole in
    let round = fill-payload amount fuel i r p x (xs ++ rest) full same (ground (arith, len)) in
    round
    ∙ ap
        (λ w.
          if leb p'.payload_len (length p'.payload)
          then ready p' w
          else fill amount fuel (suc i) p' w)
        read.behind
    ∙ payload_settled amount fuel (suc i) p' read.left rest
        (omega (arith, len, counted, counted', whole))
        (λ y ys eq.
          payload_phase amount fuel (suc i) p' y ys rest
            (record { full = parsed.full; same = parsed.same })
            (omega (arith, len, counted, counted', whole, ap length eq))
            (omega (arith, read.fewer, ap length eq, enough)) p' parsed.full
            (if_both (λ q. q ≡ p') (is_empty p'.payload) _ _ (parsed.same p'.payload) refl))
    ∙ ap (λ w. ready (record p { payload = w }) rest)
        (append_assoc p.payload cut.0 read.left ∙ ap (λ w. p.payload ++ w) (sym read.whole))

len_bytes : (v : ℕ) → v < 2 ^ 24 → big_endian 0 (byte_of v 16 ∷ byte_of v 8 ∷ byte_of v 0 ∷ []) ≡ v
len_bytes v small = omega arith

sid_bytes :
    (v : ℕ)
    → v < 2 ^ 32
    → big_endian 0 (byte_of v 24 ∷ byte_of v 16 ∷ byte_of v 8 ∷ byte_of v 0 ∷ []) ≡ v
sid_bytes v small = omega arith

-- The reader that a frame leaves.
abbrev pub frame_read : (type flags sid : ℕ) → List ℕ → FrameReader
frame_read type flags sid payload = record {
  hdr = frame_header (length payload) type flags sid;
  payload = payload;
  payload_len = length payload;
  type = type;
  flags = flags;
  sid = sid;
}

parse_header-frame_header :
    (r : FrameReader) (len type flags sid : ℕ)
    → len < 2 ^ 24
    → sid < 2 ^ 32
    → r.hdr ≡ frame_header len type flags sid
    → parse_header r ≡ record r { payload_len = len; type = type; flags = flags; sid = sid }
unfolding parse_header split_at frame_header
parse_header-frame_header r len type flags sid small id_small same =
    rw (same, len_bytes len small, sid_bytes sid id_small) refl

fill-empty :
    (amount : ℕ → ℕ) (fuel i : ℕ) (r p : FrameReader) (input : List ℕ)
    → ltb (length r.hdr) 9 ≡ false
    → (if is_empty r.payload then parse_header r else r) ≡ p
    → (p.payload_len == 0) ≡ true
    → fill amount (suc fuel) i r input ≡ ready p input
unfolding fill
fill-empty amount fuel i r p input full same no_len =
    if_false (ltb (length r.hdr) 9) _ _ full
    ∙ if_true ((if is_empty r.payload then parse_header r else r).payload_len == 0) _ _
        (ap (λ (q : FrameReader). q.payload_len == 0) same ∙ no_len)
    ∙ ap (λ q. ready q input) same

-- The first round behind the header parses it.
first_parse :
    (type flags sid : ℕ) (payload : List ℕ) (r : FrameReader)
    → length payload < 2 ^ 24
    → sid < 2 ^ 32
    → r.hdr ≡ frame_header (length payload) type flags sid
    → r.payload ≡ []
    → (if is_empty r.payload then parse_header r else r)
      ≡ record (frame_read type flags sid payload) { payload = [] }
first_parse type flags sid payload r small id_small same fresh =
    if_true (is_empty r.payload) (parse_header r) r (ap is_empty fresh)
    ∙ parse_header-frame_header r (length payload) type flags sid small id_small same
    ∙ rw (same, fresh) refl

frame_header-full :
    (len type flags sid : ℕ) → ltb (length (frame_header len type flags sid)) 9 ≡ false
unfolding frame_header
frame_header-full len type flags sid = refl

-- The payload behind a header.
body_phase :
    (amount : ℕ → ℕ) (fuel i type flags sid : ℕ) (payload rest : List ℕ) (r : FrameReader)
    → length payload < 2 ^ 24
    → sid < 2 ^ 32
    → length payload < fuel
    → r.hdr ≡ frame_header (length payload) type flags sid
    → r.payload ≡ []
    → fill amount fuel i r (payload ++ rest) ≡ ready (frame_read type flags sid payload) rest
body_phase amount zero i type flags sid payload rest r small id_small enough same fresh =
    absurd (omega (arith, enough))
body_phase amount (suc fuel) i type flags sid [] rest r small id_small enough same fresh =
    fill-empty amount fuel i r (frame_read type flags sid []) rest
      (ap (λ h. ltb (length h) 9) same ∙ frame_header-full 0 type flags sid)
      (first_parse type flags sid [] r small id_small same fresh) refl
body_phase amount (suc fuel) i type flags sid (x ∷ xs) rest r small id_small enough same fresh =
    let len = suc (length xs) in
    let header = frame_header-full len type flags sid in
    payload_phase amount (suc fuel) i (record (frame_read type flags sid (x ∷ xs)) { payload = [] })
      x xs rest
      (record {
        full = header;
        same = λ got. parse_header-frame_header _ len type flags sid small id_small refl;
      })
      (omega arith) (omega (arith, enough)) r (ap (λ h. ltb (length h) 9) same ∙ header)
      (first_parse type flags sid (x ∷ xs) r small id_small same fresh)

-- A frame with at most 2 ^ 24 - 1 bytes of payload and a stream of 32 bits is written, and a reader
-- that was reset reads it back, whatever the socket gives in each read: with a round for each byte
-- and one more, it ends with the frame's type, flags, stream and payload, and what is behind the
-- frame is still on the socket.
pub fill-frame_write :
    (amount : ℕ → ℕ) (type flags sid : ℕ) (payload rest : List ℕ) (r : FrameReader)
    → length payload < 2 ^ 24
    → sid < 2 ^ 32
    → (let bytes = frame_header (length payload) type flags sid ++ payload in
        (frame_write type flags sid payload ≡ some bytes)
        × (fill amount (suc (length bytes)) 0 (frame_reader_reset r) (bytes ++ rest)
            ≡ ready (frame_read type flags sid payload) rest))
unfolding frame_write frame_header frame_reader_reset
fill-frame_write amount type flags sid payload rest r small id_small = (
  if_false (ltb 0xffffff (length payload)) _ _ (ground (arith, small)),
  header_phase amount (ready (frame_read type flags sid payload) rest) _ (suc (length payload)) 0
      (frame_reader_reset r) (frame_header (length payload) type flags sid) (payload ++ rest) refl
      (omega (arith))
      (λ k j h.
        body_phase amount k j type flags sid payload rest _ small id_small (omega (arith, h)) refl
          refl),
)
