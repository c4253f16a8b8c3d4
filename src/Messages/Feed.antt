-- ===== src/Messages/Feed.antt =====
-- stream_feed_data is the specification, however the bytes are cut into DATA frames.
use strimserver.Prelude.{
  ℕ, zero, suc, ◌-◌, ◌≤◌, ◌<◌, ◌≡◌, refl, ap, sym, ◌∙◌, subst, true, false, ◌⊎◌, List, [], ◌∷◌,
  ◌++◌, append-nil, arith, ltb, leb, if_true, if_false, length, length-append, Bool-cases, inl, inr,
}
use strimserver.Protobuf.{split_at}
use strimserver.Messages.{
  Stream, header_done, settle_body, add_header, add_body, body_round, feed_round, feed,
  stream_feed_data, feed_frame, feed_frames, message_done,
}
use strimserver.Messages.Bytes.{
  step, step-done, step-body, step-header, steps, after_header, steps-append, steps-done,
  steps-header, add_header-open, after_header-closed,
}
use strimserver.Messages.Rounds.{
  IsCut, split_at-IsCut, IsOpened, opened, ended, header_done-IsOpened, IsStep, body-IsStep,
  settle_body-full, Next-message_done, settle_body-open, Next, stopped, finished, in_a_body,
  in_a_header,
}

-- A round, with the bytes that it takes.
record IsTaken (s : Stream) (input : List ℕ) (r : Stream × List ℕ) : Type 0 where
  same : steps s input ≡ steps r.0 r.1
  next : Next r.0 r.1
  shorter : length r.1 < length input

cut-shorter :
    (n b : ℕ) (input : List ℕ) (cut : List ℕ × List ℕ)
    → 1 ≤ n
    → IsCut n (b ∷ input) cut
    → length cut.1 < length (b ∷ input)
cut-shorter n b input cut some_room parts = elim parts.full [
  | inl none_left ↦ rw none_left (omega arith)
  | inr all ↦ omega (arith, all, some_room, ap length parts.whole, length-append cut.0 cut.1)
]

body_round-cut :
    (s : Stream) (input : List ℕ)
    → s.in_body ≡ true
    → (body_round s input).1 ≡ (split_at (s.msglen - length s.got) input).1
unfolding body_round
body_round-cut s input body =
    let cut = split_at (s.msglen - length s.got) input in
    ap (λ (r : Stream × List ℕ). r.1) (if_true s.in_body (add_body s cut.0, cut.1) (s, input) body)

body_round-closed :
    (s : Stream) (input : List ℕ) → s.in_body ≡ false → body_round s input ≡ (s, input)
unfolding body_round
body_round-closed s input closed = if_false s.in_body _ (s, input) closed

in_body-IsTaken :
    (s : Stream) (b : ℕ) (input : List ℕ)
    → s.done ≡ false
    → s.in_body ≡ true
    → length s.got < s.msglen
    → IsTaken s (b ∷ input) (feed_round s (b ∷ input))
unfolding feed_round
in_body-IsTaken s b input live body below =
    let all = b ∷ input in
    let step = body-IsStep s all live body in
    let cut = split_at (s.msglen - length s.got) all in
    let fewer =
      cut-shorter (s.msglen - length s.got) b input cut (omega (arith, below))
        (split_at-IsCut (s.msglen - length s.got) all) in
    subst (λ r. IsTaken s all r) (sym (if_true s.in_body (body_round s all) _ body))
      (record {
        same = ap (λ t. steps t all) (sym (settle_body-open s below)) ∙ step.same;
        next = step.next;
        shorter = rw (body_round-cut s all body) fewer;
      })

-- The header bytes that are there.
header-taken :
    (s : Stream) (input taken rest : List ℕ)
    → s.done ≡ false
    → s.in_body ≡ false
    → length s.hdr < 5
    → input ≡ taken ++ rest
    → length taken ≤ 5 - length s.hdr
    → steps s input ≡ steps (after_header (add_header s taken)) rest
header-taken s input [] rest live closed vacant whole short =
    let nothing : add_header s [] ≡ s =
      add_header-open s [] (omega (arith, vacant))
      ∙ ap (λ h. record s { hdr = h }) (append-nil s.hdr) in
    ap (λ w. steps s w) whole
    ∙ ap (λ t. steps t rest) (sym (ap after_header nothing ∙ after_header-closed s closed))
header-taken s input (b ∷ taken) rest live closed vacant whole short =
    ap (λ w. steps s w) whole
    ∙ steps-append s (b ∷ taken) rest
    ∙ ap (λ t. steps t rest) (steps-header s b taken live closed (omega arith))

pub add_header-full :
    (s : Stream) (taken : List ℕ)
    → ltb (length (s.hdr ++ taken)) 5 ≡ false
    → add_header s taken ≡ header_done (record s { hdr = s.hdr ++ taken })
unfolding add_header
add_header-full s taken full = if_false (ltb (length (s.hdr ++ taken)) 5) _ _ full

-- What the header bytes lead to.
closed-IsStep :
    (s : Stream) (rest : List ℕ)
    → s.in_body ≡ false
    → (s.done ≡ true) ⊎ (rest ≡ [])
    → IsStep (after_header s) rest (body_round s rest)
closed-IsStep s rest closed why =
    let same = ap (λ t. steps t rest) (after_header-closed s closed) in
    let fewer : length rest ≤ length rest = omega arith in
    subst (λ r. IsStep (after_header s) rest r) (sym (body_round-closed s rest closed))
      (record {
        same = same;
        fewer = fewer;
        next = elim why [ inl over ↦ stopped over | inr none_left ↦ finished none_left ];
      })

pub after_header-body : (s : Stream) → s.in_body ≡ true → after_header s ≡ settle_body s
unfolding after_header
after_header-body s body = if_true s.in_body (settle_body s) s body

opened-IsStep :
    (s : Stream) (rest : List ℕ) → IsOpened s → IsStep (after_header s) rest (body_round s rest)
opened-IsStep s rest (opened body live empty) =
    subst (λ t. IsStep t rest (body_round s rest)) (sym (after_header-body s body))
      (body-IsStep s rest live body)
opened-IsStep s rest (ended closed over) = closed-IsStep s rest closed (inl over)

add_header-IsStep :
    (s : Stream) (taken rest : List ℕ)
    → s.done ≡ false
    → s.in_body ≡ false
    → length s.hdr < 5
    → (rest ≡ []) ⊎ (length taken ≡ 5 - length s.hdr)
    → IsStep (after_header (add_header s taken)) rest (body_round (add_header s taken) rest)
add_header-IsStep s taken rest live closed vacant why =
    elim (Bool-cases (ltb (length (s.hdr ++ taken)) 5)) [
      | inl short ↦
          let part = add_header-open s taken (ground (arith, short, length-append s.hdr taken)) in
          let none_left : rest ≡ [] = elim why [
            | inl e ↦ e
            | inr all ↦ absurd (ground (arith, short, all, vacant, length-append s.hdr taken))
          ] in
          subst (λ t. IsStep (after_header t) rest (body_round t rest)) (sym part)
            (closed-IsStep (record s { hdr = s.hdr ++ taken }) rest closed (inr none_left))
      | inr full ↦
          let s' : Stream = record s { hdr = s.hdr ++ taken } in
          subst (λ t. IsStep (after_header t) rest (body_round t rest))
            (sym (add_header-full s taken full))
            (opened-IsStep (header_done s') rest
              (header_done-IsOpened s' closed live (ground (arith, full))))
    ]

in_header-IsTaken :
    (s : Stream) (b : ℕ) (input : List ℕ)
    → s.done ≡ false
    → s.in_body ≡ false
    → length s.hdr < 5
    → IsTaken s (b ∷ input) (feed_round s (b ∷ input))
unfolding feed_round
in_header-IsTaken s b input live closed vacant =
    let all = b ∷ input in
    let cut = split_at (5 - length s.hdr) all in
    let parts = split_at-IsCut (5 - length s.hdr) all in
    let step = add_header-IsStep s cut.0 cut.1 live closed vacant parts.full in
    let fewer = cut-shorter (5 - length s.hdr) b input cut (omega (arith, vacant)) parts in
    subst (λ r. IsTaken s all r)
      (sym (if_false s.in_body _ (body_round (add_header s cut.0) cut.1) closed))
      (record {
        same =
            header-taken s all cut.0 cut.1 live closed vacant parts.whole parts.short ∙ step.same;
        next = step.next;
        shorter = omega (arith, step.fewer, fewer);
      })

round-IsTaken :
    (s : Stream) (b : ℕ) (input : List ℕ)
    → s.done ≡ false
    → Next s (b ∷ input)
    → IsTaken s (b ∷ input) (feed_round s (b ∷ input))
round-IsTaken s b input live (stopped over) = absurd (cc (sym live ∙ over))
round-IsTaken s b input live (finished none_left) = absurd (cc none_left)
round-IsTaken s b input live (in_a_body body below) = in_body-IsTaken s b input live body below
round-IsTaken s b input live (in_a_header closed vacant) =
    in_header-IsTaken s b input live closed vacant

feed-steps :
    (fuel : ℕ) (s : Stream) (input : List ℕ)
    → length input ≤ fuel
    → s.done ≡ false
    → Next s input
    → feed fuel s input ≡ steps s input
unfolding feed steps
feed-steps fuel s [] enough live next = refl
feed-steps zero s (b ∷ input) enough live next = absurd (omega arith)
feed-steps (suc fuel) s (b ∷ input) enough live next =
    let r = feed_round s (b ∷ input) in
    let t = round-IsTaken s b input live next in
    elim (Bool-cases r.0.done) [
      | inl over ↦
          if_true r.0.done r.0 (feed fuel r.0 r.1) over ∙ sym (steps-done r.0 r.1 over) ∙ sym t.same
      | inr on ↦
          if_false r.0.done r.0 (feed fuel r.0 r.1) on
          ∙ feed-steps fuel r.0 r.1 (omega (arith, enough, t.shorter)) on t.next
          ∙ sym t.same
    ]

-- A stream between two DATA frames.
pub data IsReady (s : Stream) : Type 0 where
  is_over : s.done ≡ true → IsReady s
  wants_body : s.in_body ≡ true → length s.got < s.msglen → IsReady s
  wants_header : s.in_body ≡ false → length s.hdr < 5 → IsReady s

IsReady-message_done : (s : Stream) → IsReady (message_done s)
IsReady-message_done s = elim (Next-message_done s (0 ∷ [])) [
  | stopped over ↦ is_over over
  | finished none_left ↦ absurd (cc none_left)
  | in_a_body body below ↦ wants_body body below
  | in_a_header closed vacant ↦ wants_header closed vacant
]

settle_body-IsReady : (s : Stream) → s.in_body ≡ true → IsReady (settle_body s)
settle_body-IsReady s body = elim (Bool-cases (leb s.msglen (length s.got))) [
  | inl full ↦
      subst IsReady (sym (settle_body-full s (ground (arith, full)))) (IsReady-message_done s)
  | inr below ↦
      subst IsReady (sym (settle_body-open s (ground (arith, below))))
        (wants_body body (ground (arith, below)))
]

after_header-IsReady : (s : Stream) → IsOpened s → IsReady (after_header s)
after_header-IsReady s (opened body live empty) =
    subst IsReady (sym (after_header-body s body)) (settle_body-IsReady s body)
after_header-IsReady s (ended closed over) =
    subst IsReady (sym (after_header-closed s closed)) (is_over over)

add_body-IsReady : (s : Stream) (taken : List ℕ) → s.in_body ≡ true → IsReady (add_body s taken)
unfolding add_body
add_body-IsReady s taken body = settle_body-IsReady (record s { got = s.got ++ taken }) body

header_byte-IsReady :
    (s : Stream) (b : ℕ)
    → s.done ≡ false
    → s.in_body ≡ false
    → IsReady (after_header (add_header s (b ∷ [])))
header_byte-IsReady s b live closed =
    let s' : Stream = record s { hdr = s.hdr ++ b ∷ [] } in
    elim (Bool-cases (ltb (length (s.hdr ++ b ∷ [])) 5)) [
      | inl short ↦
          let fits : length (s.hdr ++ b ∷ []) < 5 = ground (arith, short) in
          let part =
            add_header-open s (b ∷ []) (omega (arith, fits, length-append s.hdr (b ∷ []))) in
          subst IsReady (sym (ap after_header part ∙ after_header-closed s' closed))
            (wants_header closed fits)
      | inr full ↦
          subst (λ t. IsReady (after_header t)) (sym (add_header-full s (b ∷ []) full))
            (after_header-IsReady (header_done s')
              (header_done-IsOpened s' closed live (ground (arith, full))))
    ]

step-IsReady : (s : Stream) (b : ℕ) → IsReady s → IsReady (step s b)
step-IsReady s b ready = elim (Bool-cases s.done) [
  | inl over ↦ subst IsReady (sym (step-done s b over)) ready
  | inr live ↦ elim (Bool-cases s.in_body) [
    | inl body ↦ subst IsReady (sym (step-body s b live body)) (add_body-IsReady s (b ∷ []) body)
    | inr closed ↦
        subst IsReady (sym (step-header s b live closed)) (header_byte-IsReady s b live closed)
  ]
]

steps-IsReady : (s : Stream) (input : List ℕ) → IsReady s → IsReady (steps s input)
unfolding steps
steps-IsReady s [] ready = ready
steps-IsReady s (b ∷ input) ready = steps-IsReady (step s b) input (step-IsReady s b ready)

pub stream_feed_data-steps :
    (s : Stream) (chunk : List ℕ)
    → IsReady s
    → s.done ≡ false
    → stream_feed_data s chunk ≡ steps s chunk
unfolding stream_feed_data
stream_feed_data-steps s chunk ready live =
    feed-steps (length chunk) s chunk (omega arith) live (ready-Next ready)
  where
    ready-Next : IsReady s → Next s chunk
    ready-Next (is_over over) = stopped over
    ready-Next (wants_body body below) = in_a_body body below
    ready-Next (wants_header closed vacant) = in_a_header closed vacant

feed_frame-steps : (s : Stream) (chunk : List ℕ) → IsReady s → feed_frame s chunk ≡ steps s chunk
unfolding feed_frame
feed_frame-steps s chunk ready = elim (Bool-cases s.done) [
  | inl over ↦ if_true s.done s (stream_feed_data s chunk) over ∙ sym (steps-done s chunk over)
  | inr live ↦
      if_false s.done s (stream_feed_data s chunk) live ∙ stream_feed_data-steps s chunk ready live
]

-- All the bytes of the frames.
abbrev pub joined : List (List ℕ) → List ℕ
joined [] = []
joined (chunk ∷ chunks) = chunk ++ joined chunks

-- However a byte stream is cut into DATA frames, the stream ends up as the specification says that
-- takes one byte at a time: two ways of cutting the same bytes lead to the same messages, results,
-- windows and frames. The stream is ready: over, or with room for a byte where the next one goes.
pub feed_frames-steps :
    (s : Stream) (chunks : List (List ℕ))
    → IsReady s
    → feed_frames s chunks ≡ steps s (joined chunks)
unfolding feed_frames steps
feed_frames-steps s [] ready = refl
feed_frames-steps s (chunk ∷ chunks) ready =
    let one = feed_frame-steps s chunk ready in
    ap (λ t. feed_frames t chunks) one
    ∙ feed_frames-steps (steps s chunk) chunks (steps-IsReady s chunk ready)
    ∙ sym (steps-append s chunk (joined chunks))
