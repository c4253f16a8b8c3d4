-- ===== src/Messages/Rounds.antt =====
-- A round of stream_feed_data takes the bytes that the specification takes one by one.
use strimserver.Prelude.{
  ℕ, zero, suc, ◌+◌, ◌-◌, ◌≤◌, ◌<◌, ◌≡◌, refl, ap, sym, ◌∙◌, subst, true, false, not, ◌&&◌, ◌⊎◌,
  List, [], ◌∷◌, ◌++◌, append-nil, arith, ltb, leb, ◌==◌, if_both, if_true, if_false, length,
  length-append, Bool-cases, inl, inr,
}
use strimserver.Protobuf.{split_at}
use strimserver.Messages.{
  Stream, max_msg, stream_abort, cancel_toobig, begin_body, header_done, queue_message,
  unary_message, message_done, settle_body, add_body, body_round, big_endian, queue_max_bytes,
}
use strimserver.Messages.Bytes.{steps, steps-append, steps-body}

-- The parts of a list that is cut.
pub record IsCut (n : ℕ) (input : List ℕ) (cut : List ℕ × List ℕ) : Type 0 where
  pub whole : input ≡ cut.0 ++ cut.1
  pub short : length cut.0 ≤ n
  pub full : (cut.1 ≡ []) ⊎ (length cut.0 ≡ n)

pub split_at-IsCut : (n : ℕ) (input : List ℕ) → IsCut n input (split_at n input)
unfolding split_at
split_at-IsCut zero input = record { whole = refl; short = omega arith; full = inr refl }
split_at-IsCut (suc n) [] = record { whole = refl; short = omega arith; full = inl refl }
split_at-IsCut (suc n) (b ∷ input) =
    let later = split_at-IsCut n input in
    record {
      whole = ap (λ w. b ∷ w) later.whole;
      short = omega (arith, later.short);
      full = elim later.full [ inl ended ↦ inl ended | inr same ↦ inr (ap suc same) ];
    }

-- After a message the header of the next one begins, or the stream is over.
data IsBetween (s : Stream) : Type 0 where
  over : s.done ≡ true → IsBetween s
  between : s.in_body ≡ false → s.hdr ≡ [] → IsBetween s

message_done-IsBetween : (s : Stream) → IsBetween (message_done s)
unfolding message_done queue_message unary_message stream_abort
message_done-IsBetween s =
    if_both IsBetween s.subscribe (queue_message s) (unary_message s)
      (if_both IsBetween (ltb queue_max_bytes (s.q_bytes + s.msglen)) _ _ (over refl)
        (between refl refl))
      (if_both IsBetween (ltb 1 (s.msg_count + 1)) _ _ (over refl) (between refl refl))

-- A header opens a body, or ends the stream.
pub data IsOpened (s : Stream) : Type 0 where
  opened : s.in_body ≡ true → s.done ≡ false → s.got ≡ [] → IsOpened s
  ended : s.in_body ≡ false → s.done ≡ true → IsOpened s

begin_body-IsOpened :
    (s : Stream) (flag len : ℕ)
    → s.in_body ≡ false
    → s.done ≡ false
    → IsOpened (begin_body s flag len)
unfolding begin_body stream_abort cancel_toobig
begin_body-IsOpened s flag len closed live =
    if_both IsOpened (not (flag == 0)) _ _ (ended closed refl) (
      if_both IsOpened (ltb max_msg len) _ _ (ended closed refl) (
        if_both IsOpened (not s.subscribe && s.has_resp && ltb s.resp_cap len) _ _
          (ended closed refl) (opened refl live refl)))

pub header_done-IsOpened :
    (s : Stream) → s.in_body ≡ false → s.done ≡ false → 5 ≤ length s.hdr → IsOpened (header_done s)
unfolding header_done
header_done-IsOpened s closed live enough = by_header s.hdr enough
  where
    by_header :
        (hdr : List ℕ)
        → 5 ≤ length hdr
        → IsOpened (elim hdr [ [] ↦ s | flag ∷ len ↦ begin_body s flag (big_endian 0 len) ])
    by_header [] short = absurd (omega arith)
    by_header (flag ∷ len) long = begin_body-IsOpened s flag (big_endian 0 len) closed live

-- Why the loop ends or goes on.
pub data Next (s : Stream) (rest : List ℕ) : Type 0 where
  stopped : s.done ≡ true → Next s rest
  finished : rest ≡ [] → Next s rest
  in_a_body : s.in_body ≡ true → length s.got < s.msglen → Next s rest
  in_a_header : s.in_body ≡ false → length s.hdr < 5 → Next s rest

pub record IsStep (before : Stream) (input : List ℕ) (r : Stream × List ℕ) : Type 0 where
  pub same : steps before input ≡ steps r.0 r.1
  pub fewer : length r.1 ≤ length input
  pub next : Next r.0 r.1

pub Next-message_done : (s : Stream) (rest : List ℕ) → Next (message_done s) rest
Next-message_done s rest = elim (message_done-IsBetween s) [
  | over e ↦ stopped e
  | between closed none_yet ↦ in_a_header closed (rw none_yet (omega arith))
]

pub settle_body-full : (s : Stream) → s.msglen ≤ length s.got → settle_body s ≡ message_done s
unfolding settle_body
settle_body-full s full = if_true (leb s.msglen (length s.got)) (message_done s) s (ground arith)

pub settle_body-open : (s : Stream) → length s.got < s.msglen → settle_body s ≡ s
unfolding settle_body
settle_body-open s vacant = if_false (leb s.msglen (length s.got)) (message_done s) s (ground arith)

add_body-nothing : (s : Stream) → add_body s [] ≡ settle_body s
unfolding add_body
add_body-nothing s = ap (λ g. settle_body (record s { got = g })) (append-nil s.got)

steps-taken :
    (s : Stream) (input taken rest : List ℕ)
    → s.done ≡ false
    → s.in_body ≡ true
    → length s.got < s.msglen
    → input ≡ taken ++ rest
    → length taken ≤ s.msglen - length s.got
    → steps s input ≡ steps (add_body s taken) rest
steps-taken s input [] rest live body vacant whole short =
    ap (λ w. steps s w) whole
    ∙ ap (λ t. steps t rest) (sym (add_body-nothing s ∙ settle_body-open s vacant))
steps-taken s input (b ∷ taken) rest live body vacant whole short =
    ap (λ w. steps s w) whole
    ∙ steps-append s (b ∷ taken) rest
    ∙ ap (λ t. steps t rest) (steps-body s b taken live body (omega arith))

-- After the bytes of a body that are there, it is complete, or nothing is left.
taken-Next :
    (s : Stream) (taken rest : List ℕ)
    → length s.got < s.msglen
    → (rest ≡ []) ⊎ (length taken ≡ s.msglen - length s.got)
    → Next (add_body s taken) rest
unfolding add_body
taken-Next s taken rest below (inl none_left) = finished none_left
taken-Next s taken rest below (inr all) =
    let s' : Stream = record s { got = s.got ++ taken } in
    let full : s.msglen ≤ length (s.got ++ taken) = omega (arith, length-append s.got taken, all) in
    subst (λ t. Next t rest) (sym (settle_body-full s' full)) (Next-message_done s' rest)

vacant-IsStep :
    (s : Stream) (input taken rest : List ℕ)
    → s.done ≡ false
    → s.in_body ≡ true
    → length s.got < s.msglen
    → IsCut (s.msglen - length s.got) input (taken, rest)
    → IsStep (settle_body s) input (add_body s taken, rest)
vacant-IsStep s input taken rest live body below parts = record {
  same =
      ap (λ t. steps t input) (settle_body-open s below)
      ∙ steps-taken s input taken rest live body below parts.whole parts.short;
  fewer = omega (arith, ap length parts.whole, length-append taken rest);
  next = taken-Next s taken rest below parts.full;
}

full-IsStep :
    (s : Stream) (input taken rest : List ℕ)
    → s.msglen ≤ length s.got
    → IsCut (s.msglen - length s.got) input (taken, rest)
    → IsStep (settle_body s) input (add_body s taken, rest)
full-IsStep s input [] rest full parts =
    let settled = add_body-nothing s in
    record {
      same = ap (λ t. steps t input) (sym settled) ∙ ap (λ w. steps (add_body s []) w) parts.whole;
      fewer = omega (arith, ap length parts.whole);
      next =
          subst (λ t. Next t rest) (sym (settled ∙ settle_body-full s full))
            (Next-message_done s rest);
    }
full-IsStep s input (b ∷ taken) rest full parts = absurd (omega (arith, full, parts.short))

-- The bytes of a body, from a stream that is settled first.
pub body-IsStep :
    (s : Stream) (input : List ℕ)
    → s.done ≡ false
    → s.in_body ≡ true
    → IsStep (settle_body s) input (body_round s input)
unfolding body_round
body-IsStep s input live body =
    let cut = split_at (s.msglen - length s.got) input in
    let parts = split_at-IsCut (s.msglen - length s.got) input in
    subst (λ r. IsStep (settle_body s) input r)
      (sym (if_true s.in_body (add_body s cut.0, cut.1) (s, input) body))
      (elim (Bool-cases (leb s.msglen (length s.got))) [
        | inl full ↦ full-IsStep s input cut.0 cut.1 (ground (arith, full)) parts
        | inr below ↦ vacant-IsStep s input cut.0 cut.1 live body (ground (arith, below)) parts
      ])
