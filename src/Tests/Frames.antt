-- ===== src/Tests/Frames.antt =====
-- A ping that arrives in two reads, with a byte of the next frame behind it.
use strimserver.Prelude.{ℕ, suc, ◌+◌, ◌≡◌, refl, some, List, [], ◌∷◌, ◌++◌, arith, length}
use strimserver.Frames.{
  frame_header, frame_write, FrameReader, frame_reader_reset, ready, starved, fill,
}
use strimserver.Frames.RoundTrip.{frame_read, fill-frame_write}

abbrev opaque_data : List ℕ
opaque_data = 1 ∷ 2 ∷ 3 ∷ 4 ∷ 5 ∷ 6 ∷ 7 ∷ 8 ∷ []

abbrev used_reader : FrameReader
used_reader = record {
  hdr = 1 ∷ [];
  payload = 9 ∷ [];
  payload_len = 4;
  type = 0;
  flags = 0;
  sid = 5;
}

abbrev amounts : ℕ → ℕ
amounts i = 6 + i

fill-frame_write_example :
    let bytes = frame_header (length opaque_data) 6 1 0 ++ opaque_data in
    (frame_write 6 1 0 opaque_data ≡ some bytes)
    × (fill amounts (suc (length bytes)) 0 (frame_reader_reset used_reader) (bytes ++ 255 ∷ [])
        ≡ ready (frame_read 6 1 0 opaque_data) (255 ∷ []))
fill-frame_write_example =
    fill-frame_write amounts 6 1 0 opaque_data (255 ∷ []) used_reader (omega arith) (omega arith)

-- A frame whose last byte is missing.
short_frame :
    fill amounts 18 0 (frame_reader_reset used_reader) (0 ∷ 0 ∷ 2 ∷ 0 ∷ 0 ∷ 0 ∷ 0 ∷ 0 ∷ 1 ∷ 7 ∷ [])
    ≡ starved (record {
      hdr = 0 ∷ 0 ∷ 2 ∷ 0 ∷ 0 ∷ 0 ∷ 0 ∷ 0 ∷ 1 ∷ [];
      payload = 7 ∷ [];
      payload_len = 2;
      type = 0;
      flags = 0;
      sid = 1;
    })
unfolding fill frame_reader_reset
short_frame = refl
