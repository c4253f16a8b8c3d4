-- ===== src/Tests/Messages.antt =====
-- A subscription that gets two messages in three DATA frames.
use strimserver.Prelude.{ℕ, ◌≡◌, refl, true, false, List, [], ◌∷◌, arith, pos, Given}
use strimserver.Messages.{Stream, feed_frames, handle_data_frame}
use strimserver.Messages.Bytes.{steps}
use strimserver.Messages.Feed.{wants_header, joined, feed_frames-steps}
use strimserver.Messages.Delivery.{IsDelivered, feed_frames-IsDelivered}
use strimserver.Messages.Windows.{InRange, in_range, handle_data_frame-InRange}

abbrev subscription : Stream
subscription = record {
  id = 1;
  subscribe = true;
  done = false;
  status = 0;
  err = pos 0;
  recv_window = pos 65535;
  conn_recv_window = pos 65535;
  in_body = false;
  hdr = [];
  msglen = 0;
  got = [];
  queue = [];
  q_bytes = 0;
  q_closed = false;
  has_resp = false;
  resp_cap = 0;
  resp_len = 0;
  msg_count = 0;
  frames = [];
}

abbrev messages : List (List ℕ)
messages = (7 ∷ 8 ∷ []) ∷ [] ∷ []

abbrev frames : List (List ℕ)
frames = (0 ∷ 0 ∷ []) ∷ (0 ∷ 0 ∷ 2 ∷ 7 ∷ []) ∷ (8 ∷ 0 ∷ 0 ∷ 0 ∷ 0 ∷ 0 ∷ []) ∷ []

feed_frames-steps_example : feed_frames subscription frames ≡ steps subscription (joined frames)
feed_frames-steps_example = feed_frames-steps subscription frames (wants_header refl (omega arith))

feed_frames-IsDelivered_example :
    IsDelivered subscription messages (feed_frames subscription frames)
feed_frames-IsDelivered_example =
    feed_frames-IsDelivered subscription messages frames
      (record { subscribed = refl; live = refl; closed = refl; empty = refl }) (omega arith) refl

-- A padded frame: one byte of padding behind five bytes of a header.
handle_data_frame-InRange_example :
    Given InRange (handle_data_frame subscription true false (1 ∷ 0 ∷ 0 ∷ 0 ∷ 0 ∷ 2 ∷ 9 ∷ []))
handle_data_frame-InRange_example =
    handle_data_frame-InRange subscription true false (1 ∷ 0 ∷ 0 ∷ 0 ∷ 0 ∷ 2 ∷ 9 ∷ [])
      (in_range (omega arith, omega arith) (omega arith, omega arith))
      (wants_header refl (omega arith))
