-- ===== src/Messages/Windows.antt =====
-- The receive windows of flow control.
use strimserver.Prelude.{
  ℕ, ◌+◌, ◌≡◌, refl, sym, subst, Bool, true, false, not, ◌&&◌, ◌||◌, List, [], ◌∷◌, ◌++◌, Option,
  none, some, Given, Given-bind, arith, ltb, leb, ◌==◌, if_both, if_split, length, ℤ, pos, ◌≤ℤ◌,
  ◌-ℤ◌, ◌+ℤ◌, ltb_ℤ, eq_ℤ,
}
use strimserver.Messages.{
  Stream, max_msg, queue_max_bytes, stream_abort, credit_message, cancel_toobig, begin_body,
  header_done, big_endian, queue_message, unary_message, message_done, settle_body, add_header,
  add_body, stream_feed_data, unpadded, debit, end_stream, handle_data_frame,
}
use strimserver.Messages.Bytes.{step, steps, after_header}
use strimserver.Messages.Feed.{IsReady, wants_body, wants_header, is_over, stream_feed_data-steps}

-- A window of HTTP/2: from 0 to 2 ^ 31 - 1.
abbrev pub IsWindow : ℤ → Type 0
IsWindow w = (pos 0 ≤ℤ w) × (w ≤ℤ pos 0x7fffffff)

pub data InRange (s : Stream) : Type 0 where
  in_range : IsWindow s.recv_window → IsWindow s.conn_recv_window → InRange s

credited :
    (w : ℤ) (total : ℕ)
    → IsWindow w
    → ltb_ℤ (pos 0x7fffffff -ℤ pos total) w ≡ false
    → IsWindow (w +ℤ pos total)
credited w total (low, high) room = (ground (arith, low, room), ground (arith, low, high, room))

debited : (w : ℤ) (len : ℕ) → IsWindow w → ltb_ℤ w (pos len) ≡ false → IsWindow (w -ℤ pos len)
debited w len (low, high) enough = (ground (arith, low, enough), ground (arith, low, high, enough))

credit_message-InRange : (s : Stream) (total : ℕ) → InRange s → InRange (credit_message s total)
unfolding credit_message
credit_message-InRange s total (in_range mine conn) =
    let range = in_range mine conn in
    if_both InRange (total == 0) s _ range (
      if_split InRange (ltb_ℤ (pos 0x7fffffff -ℤ pos total) s.recv_window) s _ (λ _. range)
        (λ a.
          if_split InRange (ltb_ℤ (pos 0x7fffffff -ℤ pos total) s.conn_recv_window) s _ (λ _. range)
            (λ b.
              in_range (credited s.recv_window total mine a)
                (credited s.conn_recv_window total conn b))))

-- What keeps the windows keeps the range.
same_range :
    (s t : Stream)
    → InRange s
    → t.recv_window ≡ s.recv_window
    → t.conn_recv_window ≡ s.conn_recv_window
    → InRange t
same_range s t (in_range mine conn) a b =
    in_range (subst IsWindow (sym a) mine) (subst IsWindow (sym b) conn)

message_done-InRange : (s : Stream) → InRange s → InRange (message_done s)
unfolding message_done queue_message unary_message stream_abort
message_done-InRange s range =
    let counted : Stream = record s { resp_len = length s.got; msg_count = s.msg_count + 1 } in
    let paid =
      credit_message-InRange counted (length s.got + 5) (same_range s counted range refl refl) in
    if_both InRange s.subscribe (queue_message s) (unary_message s)
      (if_both InRange (ltb queue_max_bytes (s.q_bytes + s.msglen)) _ _
        (same_range s _ range refl refl) (same_range s _ range refl refl))
      (if_both InRange (ltb 1 (s.msg_count + 1)) _ _ (same_range s _ range refl refl)
        (same_range _ _ paid refl refl))

begin_body-InRange : (s : Stream) (flag len : ℕ) → InRange s → InRange (begin_body s flag len)
unfolding begin_body stream_abort cancel_toobig
begin_body-InRange s flag len range =
    let same =
      λ (t : Stream) (a : t.recv_window ≡ s.recv_window)
          (b : t.conn_recv_window ≡ s.conn_recv_window).
        same_range s t range a b in
    if_both InRange (not (flag == 0)) _ _ (same _ refl refl) (
      if_both InRange (ltb max_msg len) _ _ (same _ refl refl) (
        if_both InRange (not s.subscribe && s.has_resp && ltb s.resp_cap len) _ _ (same _ refl refl)
          (same _ refl refl)))

header_done-InRange : (s : Stream) → InRange s → InRange (header_done s)
unfolding header_done
header_done-InRange s range = by_header s.hdr
  where
    by_header :
        (hdr : List ℕ)
        → InRange (elim hdr [ [] ↦ s | flag ∷ len ↦ begin_body s flag (big_endian 0 len) ])
    by_header [] = range
    by_header (flag ∷ len) = begin_body-InRange s flag (big_endian 0 len) range

settle_body-InRange : (s : Stream) → InRange s → InRange (settle_body s)
unfolding settle_body
settle_body-InRange s range =
    if_both InRange (leb s.msglen (length s.got)) _ _ (message_done-InRange s range) range

after_header-InRange : (s : Stream) → InRange s → InRange (after_header s)
unfolding after_header
after_header-InRange s range = if_both InRange s.in_body _ s (settle_body-InRange s range) range

add_body-InRange : (s : Stream) (taken : List ℕ) → InRange s → InRange (add_body s taken)
unfolding add_body
add_body-InRange s taken range =
    settle_body-InRange (record s { got = s.got ++ taken }) (same_range s _ range refl refl)

add_header-InRange : (s : Stream) (taken : List ℕ) → InRange s → InRange (add_header s taken)
unfolding add_header
add_header-InRange s taken range =
    let s' : Stream = record s { hdr = s.hdr ++ taken } in
    let range' = same_range s s' range refl refl in
    if_both InRange (ltb (length s'.hdr) 5) s' (header_done s') range'
      (header_done-InRange s' range')

step-InRange : (s : Stream) (b : ℕ) → InRange s → InRange (step s b)
unfolding step
step-InRange s b range = if_both InRange s.done s _ range (
    if_both InRange s.in_body (add_body s (b ∷ [])) (after_header (add_header s (b ∷ [])))
      (add_body-InRange s (b ∷ []) range)
      (after_header-InRange _ (add_header-InRange s (b ∷ []) range)))

steps-InRange : (s : Stream) (input : List ℕ) → InRange s → InRange (steps s input)
unfolding steps
steps-InRange s [] range = range
steps-InRange s (b ∷ input) range = steps-InRange (step s b) input (step-InRange s b range)

end_stream-InRange : (last : Bool) (s : Stream) → InRange s → InRange (end_stream last s)
unfolding end_stream stream_abort
end_stream-InRange last s range =
    if_both InRange (last && s.in_body) _ s (same_range s _ range refl refl) range

IsReady-debit : (s : Stream) (len : ℕ) → IsReady s → IsReady (debit s len)
unfolding debit
IsReady-debit s len (is_over over) = is_over over
IsReady-debit s len (wants_body body below) = wants_body body below
IsReady-debit s len (wants_header closed vacant) = wants_header closed vacant

neither : (a b : Bool) → (a || b) ≡ false → (a ≡ false) × (b ≡ false)
neither true b e = absurd (cc e)
neither false b e = (refl, e)

debit-InRange :
    (s : Stream) (len : ℕ)
    → InRange s
    → (ltb_ℤ s.conn_recv_window (pos len) || ltb_ℤ s.recv_window (pos len)) ≡ false
    → InRange (debit s len)
unfolding debit
debit-InRange s len (in_range mine conn) enough =
    let (a, b) =
      neither (ltb_ℤ s.conn_recv_window (pos len)) (ltb_ℤ s.recv_window (pos len)) enough in
    in_range (debited s.recv_window len mine b) (debited s.conn_recv_window len conn a)

fed-InRange :
    (s : Stream) (input : List ℕ)
    → s.done ≡ false
    → IsReady s
    → InRange s
    → InRange (stream_feed_data s input)
fed-InRange s input live ready range =
    subst InRange (sym (stream_feed_data-steps s input ready live)) (steps-InRange s input range)

-- No DATA frame takes a receive window below 0 or above 2 ^ 31 - 1, the stream's or the connection's,
-- whatever it holds and whatever is credited for the messages that it completes: if the handler
-- accepts the frame, the windows are in their range again. The stream is ready before.
pub handle_data_frame-InRange :
    (s : Stream) (padded last : Bool) (payload : List ℕ)
    → InRange s
    → IsReady s
    → Given InRange (handle_data_frame s padded last payload)
unfolding handle_data_frame
handle_data_frame-InRange s padded last payload (in_range mine conn) ready =
    let P : Option Stream → Type 0 = λ o. Given InRange o in
    let len = length payload in
    let range = in_range mine conn in
    if_split P s.done _ _ (λ _. if_both P (not (eq_ℤ s.err (pos 0))) (some s) none range tt)
      (λ live.
        if_split P (ltb_ℤ s.conn_recv_window (pos len) || ltb_ℤ s.recv_window (pos len)) none _
          (λ _. tt)
          (λ enough. Given-bind InRange (unpadded padded payload) _ (λ input.
            end_stream-InRange last _ (
              fed-InRange (debit s len) input live (IsReady-debit s len ready)
                (debit-InRange s len range enough)))))
