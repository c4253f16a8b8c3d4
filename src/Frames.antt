-- ===== src/Frames.antt =====
-- Frames on the socket of core/controller/c/containerd/h2c.c (frame_write, frame_reader_fill).
-- realloc succeeds.
use strimserver.Prelude.{
  ℕ, zero, suc, ◌+◌, ◌-◌, ◌*◌, ◌/◌, ◌%◌, ◌^◌, Bool, true, false, Option, none, some, List, [], ◌∷◌,
  ◌++◌, ltb, leb, ◌==◌, if◌then◌else◌, length,
}
use strimserver.Protobuf.{split_at}
use strimserver.Messages.{big_endian}
pub mod RoundTrip

abbrev pub byte_of : (v place : ℕ) → ℕ
byte_of v place = v / 2 ^ place % 256

-- The nine bytes of a frame header.
unfoldable pub frame_header : (len type flags sid : ℕ) → List ℕ
frame_header len type flags sid =
    byte_of len 16
    ∷ byte_of len 8
    ∷ byte_of len 0
    ∷ type
    ∷ flags
    ∷ byte_of sid 24
    ∷ byte_of sid 16
    ∷ byte_of sid 8
    ∷ byte_of sid 0
    ∷ []

-- What is written; `none` is -1.
unfoldable pub frame_write : (type flags sid : ℕ) → List ℕ → Option (List ℕ)
unfolding frame_header
frame_write type flags sid payload =
    if ltb 0xffffff (length payload)
    then none
    else some (frame_header (length payload) type flags sid ++ payload)

-- frame_reader: `hdr` and `payload` are the bytes so far.
pub record FrameReader : Type 0 where
  pub hdr : List ℕ
  pub payload : List ℕ
  pub payload_len : ℕ
  pub type : ℕ
  pub flags : ℕ
  pub sid : ℕ

unfoldable pub frame_reader_reset : FrameReader → FrameReader
frame_reader_reset r = record r { hdr = []; payload = [] }

-- With a header of nine bytes.
unfoldable pub parse_header : FrameReader → FrameReader
unfolding split_at
parse_header r = elim (split_at 3 r.hdr).1 [
  | [] ↦ r
  | type ∷ more ↦ elim more [
    | [] ↦ r
    | flags ∷ sid ↦ record r {
      payload_len = big_endian 0 (split_at 3 r.hdr).0;
      type = type;
      flags = flags;
      sid = big_endian 0 sid;
    }
  ]
]

-- A read gives one byte at least, and no more than it is asked for.
abbrev pub some_of : (amount wanted : ℕ) → ℕ
some_of amount wanted = if ltb amount wanted then suc amount else wanted

abbrev pub is_empty : List ℕ → Bool
is_empty [] = true
is_empty (b ∷ rest) = false

-- `ready` is 1; `starved` is 0, or -1 if the socket is closed or broken.
pub data Fill : Type 0 where
  ready : FrameReader → (rest : List ℕ) → Fill
  starved : FrameReader → Fill

-- The read into the payload.
unfoldable pub fill_payload :
    (amount : ℕ → ℕ) → (i : ℕ) → FrameReader → List ℕ → FrameReader × List ℕ
unfolding split_at
fill_payload amount i p input =
    let b = split_at (some_of (amount i) (p.payload_len - length p.payload)) input in
    (record p { payload = p.payload ++ b.0 }, b.1)

-- frame_reader_fill, where the socket holds the input and `amount` decides how much the read of each
-- round gives.
unfoldable pub fill : (amount : ℕ → ℕ) → (fuel i : ℕ) → FrameReader → List ℕ → Fill
unfolding parse_header split_at fill_payload
fill amount zero i r input = starved r
fill amount (suc fuel) i r input =
    let h = split_at (some_of (amount i) (9 - length r.hdr)) input in
    let behind_header = fill amount fuel (suc i) (record r { hdr = r.hdr ++ h.0 }) h.1 in
    let p = if is_empty r.payload then parse_header r else r in
    let b = fill_payload amount i p input in
    let later = fill amount fuel (suc i) b.0 b.1 in
    if ltb (length r.hdr) 9
    then if is_empty input then starved r else behind_header
    else if p.payload_len == 0
    then ready p input
    else if is_empty input
    then starved p
    else if leb b.0.payload_len (length b.0.payload)
    then ready b.0 b.1
    else later
