-- ===== src/Messages.antt =====
-- The gRPC messages of a stream in core/controller/c/containerd/h2c.c: handle_data_frame and
-- stream_feed_data, at a stream that was found. malloc and realloc succeed.

pub mod Bytes
pub mod Rounds
pub mod Feed
pub mod Delivery
pub mod Windows
use strimserver.Prelude.{
  ℕ, zero, suc, ◌+◌, ◌-◌, ◌*◌, Bool, true, false, not, ◌&&◌, ◌||◌, List, [], ◌∷◌, ◌++◌, ltb, leb,
  ◌==◌, if◌then◌else◌, length, ℤ, pos, negsuc, ◌+ℤ◌, ◌-ℤ◌, ltb_ℤ, eq_ℤ, ◌>>=◌, Option, none, some,
  ◌||◌,
}
use strimserver.Protobuf.{split_at}

-- H2C_MAX_MSG and H2C_QUEUE_MAX_BYTES
abbrev pub max_msg : ℕ
max_msg = 16 * 1024 * 1024

abbrev pub queue_max_bytes : ℕ
queue_max_bytes = 4 * 1024 * 1024

-- H2C_ERR_PROTO and H2C_ERR_TOOBIG
abbrev pub err_proto : ℤ
err_proto = negsuc 2

abbrev pub err_toobig : ℤ
err_toobig = negsuc 5

-- H2C_STATUS_INTERNAL
abbrev pub status_internal : ℕ
status_internal = 13

-- H2_ERR_*
pub data H2Error : Type 0 where
  protocol internal flow_control frame_size cancel : H2Error

-- Frames that this code writes.
pub data Frame : Type 0 where
  rst : (id : ℕ) → H2Error → Frame
  window_update : (id increment : ℕ) → Frame

-- strim_h2c_stream and the part of strim_h2c that its DATA frames touch. `done` is SS_DONE,
-- `in_body` is rasm_state, `hdr` the bytes of rasm_hdr so far, and `got` the first rasm_got bytes of
-- the message, in rasm_buf or in resp.
pub record Stream : Type 0 where
  pub id : ℕ
  pub subscribe : Bool
  pub done : Bool
  pub status : ℕ
  pub err : ℤ
  pub recv_window : ℤ
  pub conn_recv_window : ℤ
  pub in_body : Bool
  pub hdr : List ℕ
  pub msglen : ℕ
  pub got : List ℕ
  pub queue : List (List ℕ)
  pub q_bytes : ℕ
  pub q_closed : Bool
  pub has_resp : Bool
  pub resp_cap : ℕ
  pub resp_len : ℕ
  pub msg_count : ℕ
  pub frames : List Frame

unfoldable pub stream_abort : Stream → H2Error → ℤ → Stream
stream_abort s h2_code err_code = record s {
  frames = s.frames ++ rst s.id h2_code ∷ [];
  done = true;
  status = status_internal;
  err = err_code;
}

unfoldable pub credit_message : Stream → (total : ℕ) → Stream
credit_message s total =
    if total == 0
    then s
    else if ltb_ℤ (pos 0x7fffffff -ℤ pos total) s.recv_window
    then s
    else if ltb_ℤ (pos 0x7fffffff -ℤ pos total) s.conn_recv_window
    then s
    else record s {
      recv_window = s.recv_window +ℤ pos total;
      conn_recv_window = s.conn_recv_window +ℤ pos total;
      frames = s.frames ++ window_update s.id total ∷ window_update 0 total ∷ [];
    }

-- The caller's buffer is too small for the message.
unfoldable pub cancel_toobig : Stream → Stream
cancel_toobig s = record s {
  frames = s.frames ++ rst s.id cancel ∷ [];
  done = true;
  err = err_toobig;
  status = 0;
  q_closed = true;
}

-- Bytes with the most significant one first.
abbrev pub big_endian : (acc : ℕ) → List ℕ → ℕ
big_endian acc [] = acc
big_endian acc (b ∷ rest) = big_endian (acc * 256 + b) rest

unfoldable pub begin_body : Stream → (flag len : ℕ) → Stream
unfolding stream_abort cancel_toobig
begin_body s flag len =
    let sized = record s { msglen = len } in
    let body = record sized { in_body = true; got = [] } in
    if not (flag == 0)
    then stream_abort s internal err_proto
    else if ltb max_msg len
    then stream_abort sized frame_size err_toobig
    else if not s.subscribe && s.has_resp && ltb s.resp_cap len
    then cancel_toobig (record sized { got = [] })
    else body

-- The five bytes of the header are there.
unfoldable pub header_done : Stream → Stream
unfolding begin_body
header_done s = elim s.hdr [ [] ↦ s | flag ∷ len ↦ begin_body s flag (big_endian 0 len) ]

abbrev pub next_message : Stream → Stream
next_message s = record s { in_body = false; hdr = [] }

-- A complete message of a subscription: queue_push.
unfoldable pub queue_message : Stream → Stream
unfolding stream_abort
queue_message s =
    let queued = record s { queue = s.queue ++ s.got ∷ []; q_bytes = s.q_bytes + s.msglen } in
    if ltb queue_max_bytes (s.q_bytes + s.msglen)
    then stream_abort s flow_control err_proto
    else next_message queued

-- The response of a unary call.
unfoldable pub unary_message : Stream → Stream
unfolding stream_abort credit_message
unary_message s =
    let counted = record s { resp_len = length s.got; msg_count = s.msg_count + 1 } in
    if ltb 1 counted.msg_count
    then stream_abort counted protocol err_proto
    else next_message (credit_message counted (length s.got + 5))

unfoldable pub message_done : Stream → Stream
unfolding queue_message unary_message
message_done s = if s.subscribe then queue_message s else unary_message s

unfoldable pub settle_body : Stream → Stream
unfolding message_done
settle_body s = if leb s.msglen (length s.got) then message_done s else s

unfoldable pub add_header : Stream → List ℕ → Stream
unfolding header_done
add_header s taken =
    let s' = record s { hdr = s.hdr ++ taken } in
    if ltb (length s'.hdr) 5 then s' else header_done s'

unfoldable pub add_body : Stream → List ℕ → Stream
unfolding settle_body
add_body s taken = settle_body (record s { got = s.got ++ taken })

-- The second half of a round: the bytes of the body that are there.
unfoldable pub body_round : Stream → List ℕ → Stream × List ℕ
unfolding add_body split_at
body_round s input =
    let (taken, rest) = split_at (s.msglen - length s.got) input in
    if s.in_body then (add_body s taken, rest) else (s, input)

-- A round of the loop.
unfoldable pub feed_round : Stream → List ℕ → Stream × List ℕ
unfolding add_header body_round split_at
feed_round s input =
    let (taken, rest) = split_at (5 - length s.hdr) input in
    if s.in_body then body_round s input else body_round (add_header s taken) rest

-- stream_feed_data: a round takes a byte at least, so the number of bytes is fuel enough; it returns
-- when the stream is aborted.
unfoldable pub feed : (fuel : ℕ) → Stream → List ℕ → Stream
unfolding feed_round
feed fuel s [] = s
feed zero s (b ∷ input) = s
feed (suc fuel) s (b ∷ input) =
    let (s', rest) = feed_round s (b ∷ input) in
    let later = feed fuel s' rest in if s'.done then s' else later

unfoldable pub stream_feed_data : Stream → List ℕ → Stream
unfolding feed
stream_feed_data s input = feed (length input) s input

-- The DATA frames of a stream that is finished are drained.
unfoldable pub feed_frame : Stream → List ℕ → Stream
unfolding stream_feed_data
feed_frame s chunk = if s.done then s else stream_feed_data s chunk

unfoldable pub feed_frames : Stream → List (List ℕ) → Stream
unfolding feed_frame
feed_frames s [] = s
feed_frames s (chunk ∷ chunks) = feed_frames (feed_frame s chunk) chunks

-- The data of a payload: `none` at a wrong padding. The first byte of a padded payload is the number
-- of bytes at its end that do not count.
unfoldable pub unpadded : (padded : Bool) → List ℕ → Option (List ℕ)
unfolding split_at
unpadded false payload = some payload
unpadded true [] = none
unpadded true (pad ∷ rest) =
    if ltb (length rest) pad then none else some (split_at (length rest - pad) rest).0

-- The whole payload counts for the windows.
unfoldable pub debit : Stream → (len : ℕ) → Stream
debit s len = record s {
  recv_window = s.recv_window -ℤ pos len;
  conn_recv_window = s.conn_recv_window -ℤ pos len;
}

-- A stream that ends inside a message is aborted.
unfoldable pub end_stream : Bool → Stream → Stream
unfolding stream_abort
end_stream last s = if last && s.in_body then stream_abort s protocol err_proto else s

-- handle_data_frame at a stream that was found; `none` is -1.
unfoldable pub handle_data_frame : Stream → (padded last : Bool) → List ℕ → Option Stream
unfolding stream_feed_data unpadded debit end_stream
handle_data_frame s padded last payload =
    let len = pos (length payload) in
    if s.done
    then if not (eq_ℤ s.err (pos 0)) then some s else none
    else if ltb_ℤ s.conn_recv_window len || ltb_ℤ s.recv_window len
    then none
    else unpadded padded payload
      >>= (λ input. some (end_stream last (stream_feed_data (debit s (length payload)) input)))
