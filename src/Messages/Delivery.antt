-- ===== src/Messages/Delivery.antt =====
-- What a subscription delivers.
use strimserver.Prelude.{
  ℕ, suc, ◌+◌, ◌/◌, ◌%◌, ◌^◌, ◌≤◌, ◌<◌, ◌≡◌, refl, ap, sym, ◌∙◌, subst, true, false, not, ◌&&◌,
  List, [], ◌∷◌, ◌++◌, append-nil, append_assoc, arith, ltb, if_true, if_false, length,
  length-append,
}
use strimserver.Messages.{
  Stream, max_msg, queue_max_bytes, big_endian, begin_body, header_done, queue_message,
  message_done, settle_body, add_body, feed_frames,
}
use strimserver.Messages.Bytes.{steps, after_header, steps-append, steps-body, steps-header}
use strimserver.Messages.Rounds.{settle_body-open, settle_body-full}
use strimserver.Messages.Feed.{
  add_header-full, after_header-body, wants_header, joined, feed_frames-steps,
}

-- A gRPC message that is not compressed: the flag, the length in four bytes, and the body.
abbrev pub encoded : List ℕ → List ℕ
encoded m =
    let n = length m in
    0 ∷ (n / 2 ^ 24 % 256) ∷ (n / 2 ^ 16 % 256) ∷ (n / 2 ^ 8 % 256) ∷ (n % 256) ∷ m

abbrev pub encoded_all : List (List ℕ) → List ℕ
encoded_all [] = []
encoded_all (m ∷ ms) = encoded m ++ encoded_all ms

abbrev pub total_bytes : List (List ℕ) → ℕ
total_bytes [] = 0
total_bytes (m ∷ ms) = length m + total_bytes ms

-- A subscription that waits for a message.
pub record IsWaiting (s : Stream) : Type 0 where
  pub subscribed : s.subscribe ≡ true
  pub live : s.done ≡ false
  pub closed : s.in_body ≡ false
  pub empty : s.hdr ≡ []

big_endian_lem :
    (n : ℕ)
    → n < 2 ^ 32
    → big_endian 0 ((n / 2 ^ 24 % 256) ∷ (n / 2 ^ 16 % 256) ∷ (n / 2 ^ 8 % 256) ∷ (n % 256) ∷ [])
      ≡ n
big_endian_lem n small = omega arith

-- The stream with the header of a message read.
abbrev opened_for : Stream → ℕ → List ℕ → Stream
opened_for s n hdr = record s { hdr = hdr; msglen = n; in_body = true; got = [] }

begin_body-opened :
    (s : Stream) (n : ℕ)
    → s.subscribe ≡ true
    → n ≤ max_msg
    → begin_body s 0 n ≡ record s { msglen = n; in_body = true; got = [] }
unfolding begin_body
begin_body-opened s n subscribed small =
    let within : ltb max_msg n ≡ false = ground arith in
    let none_resp : (not s.subscribe && s.has_resp && ltb s.resp_cap n) ≡ false =
      rw subscribed refl in
    if_false (ltb max_msg n) _ _ within
    ∙ if_false (not s.subscribe && s.has_resp && ltb s.resp_cap n) _ _ none_resp

-- The five bytes before a body of n bytes.
abbrev head : ℕ → List ℕ
head n = 0 ∷ (n / 2 ^ 24 % 256) ∷ (n / 2 ^ 16 % 256) ∷ (n / 2 ^ 8 % 256) ∷ (n % 256) ∷ []

header_done-opened :
    (s : Stream) (n : ℕ)
    → s.subscribe ≡ true
    → n ≤ max_msg
    → header_done (record s { hdr = head n }) ≡ opened_for s n (head n)
unfolding header_done
header_done-opened s n subscribed small =
    let s' : Stream = record s { hdr = head n } in
    ap (λ len. begin_body s' 0 len) (big_endian_lem n (omega (arith, small)))
    ∙ begin_body-opened s' n subscribed small

steps-head :
    (s : Stream) (n : ℕ)
    → IsWaiting s
    → n ≤ max_msg
    → steps s (head n) ≡ settle_body (opened_for s n (head n))
steps-head s n waiting small =
    let none_yet : length s.hdr ≡ 0 = ap length waiting.empty in
    let all : length (s.hdr ++ head n) ≡ 5 =
      length-append s.hdr (head n) ∙ omega (arith, none_yet) in
    let full : ltb (length (s.hdr ++ head n)) 5 ≡ false = ground (arith, all) in
    steps-header s 0 ((n / 2 ^ 24 % 256) ∷ (n / 2 ^ 16 % 256) ∷ (n / 2 ^ 8 % 256) ∷ (n % 256) ∷ [])
      waiting.live waiting.closed (omega (arith, none_yet))
    ∙ ap after_header (add_header-full s (head n) full)
    ∙ ap (λ h. after_header (header_done (record s { hdr = h ++ head n }))) waiting.empty
    ∙ ap after_header (header_done-opened s n waiting.subscribed small)
    ∙ after_header-body (opened_for s n (head n)) refl

settle_body-whole :
    (s : Stream) (m : List ℕ)
    → s.done ≡ false
    → let o = opened_for s (length m) (head (length m)) in
      steps (settle_body o) m ≡ message_done (record o { got = m })
unfolding steps add_body
settle_body-whole s [] live = settle_body-full (opened_for s 0 (head 0)) (omega arith)
settle_body-whole s (b ∷ m) live =
    let n = length (b ∷ m) in
    let o : Stream = opened_for s n (head n) in
    let same : suc (length m) ≤ n = omega arith in
    ap (λ t. steps t (b ∷ m)) (settle_body-open o (omega arith))
    ∙ steps-body o b m live refl (omega (arith, same))
    ∙ settle_body-full (record o { got = b ∷ m }) (omega arith)

-- The stream behind a message.
abbrev delivered : Stream → List ℕ → Stream
delivered s m = record s {
  hdr = [];
  msglen = length m;
  in_body = false;
  got = m;
  queue = s.queue ++ m ∷ [];
  q_bytes = s.q_bytes + length m;
}

message_done-delivered :
    (s : Stream) (m : List ℕ)
    → s.subscribe ≡ true
    → s.q_bytes + length m ≤ queue_max_bytes
    → message_done (record s { hdr = head (length m); msglen = length m; in_body = true; got = m })
      ≡ delivered s m
unfolding message_done queue_message
message_done-delivered s m subscribed fits =
    let within : ltb queue_max_bytes (s.q_bytes + length m) ≡ false = ground (arith, fits) in
    if_true s.subscribe _ _ subscribed
    ∙ if_false (ltb queue_max_bytes (s.q_bytes + length m)) _ _ within

steps-encoded :
    (s : Stream) (m : List ℕ)
    → IsWaiting s
    → s.q_bytes + length m ≤ queue_max_bytes
    → steps s (encoded m) ≡ delivered s m
steps-encoded s m waiting fits =
    let n = length m in
    steps-append s (head n) m
    ∙ ap (λ t. steps t m) (steps-head s n waiting (omega (arith, fits)))
    ∙ settle_body-whole s m waiting.live
    ∙ message_done-delivered s m waiting.subscribed fits

-- The messages are in the queue, in their order, and the stream waits for the next one.
pub record IsDelivered (s : Stream) (ms : List (List ℕ)) (s' : Stream) : Type 0 where
  pub queued : s'.queue ≡ s.queue ++ ms
  pub counted : s'.q_bytes ≡ s.q_bytes + total_bytes ms
  pub waits : IsWaiting s'
  pub quiet : s'.frames ≡ s.frames

steps-IsDelivered :
    (s : Stream) (ms : List (List ℕ))
    → IsWaiting s
    → s.q_bytes + total_bytes ms ≤ queue_max_bytes
    → IsDelivered s ms (steps s (encoded_all ms))
unfolding steps
steps-IsDelivered s [] waiting fits = record {
  queued = sym (append-nil s.queue);
  counted = omega arith;
  waits = waiting;
  quiet = refl;
}
steps-IsDelivered s (m ∷ ms) waiting fits =
    let s' : Stream = delivered s m in
    let again : IsWaiting s' = record {
      subscribed = waiting.subscribed;
      live = waiting.live;
      closed = refl;
      empty = refl;
    } in
    let later = steps-IsDelivered s' ms again (omega (arith, fits)) in
    let one : steps s (encoded_all (m ∷ ms)) ≡ steps s' (encoded_all ms) =
      steps-append s (encoded m) (encoded_all ms)
      ∙ ap (λ t. steps t (encoded_all ms)) (steps-encoded s m waiting (omega (arith, fits))) in
    subst (IsDelivered s (m ∷ ms)) (sym one) (record {
      queued = later.queued ∙ append_assoc s.queue (m ∷ []) ms;
      counted = omega (arith, later.counted);
      waits = later.waits;
      quiet = later.quiet;
    })

-- However the DATA frames cut them, the messages that a server sends on a subscription arrive whole
-- and in their order at the end of the queue, their bytes are counted, no frame is sent, and the
-- stream waits for the next message. The stream waits for a message before, and the messages fit the
-- bound of the queue.
pub feed_frames-IsDelivered :
    (s : Stream) (ms chunks : List (List ℕ))
    → IsWaiting s
    → s.q_bytes + total_bytes ms ≤ queue_max_bytes
    → joined chunks ≡ encoded_all ms
    → IsDelivered s ms (feed_frames s chunks)
feed_frames-IsDelivered s ms chunks waiting fits same =
    let ready = wants_header waiting.closed (omega (arith, ap length waiting.empty)) in
    subst (IsDelivered s ms) (sym (feed_frames-steps s chunks ready ∙ ap (λ w. steps s w) same))
      (steps-IsDelivered s ms waiting fits)
