-- ===== src/Messages/Bytes.antt =====
-- The reassembler takes chunks; a byte at a time it does the same.
use strimserver.Prelude.{
  ℕ, suc, ◌+◌, ◌≤◌, ◌<◌, ◌≡◌, refl, ap, ◌∙◌, true, false, List, [], ◌∷◌, ◌++◌, append_assoc, arith,
  ltb, leb, if◌then◌else◌, if_true, if_false, length, length-append,
}
use strimserver.Messages.{Stream, header_done, settle_body, add_header, add_body}

-- A message without a body is complete at once.
unfoldable pub after_header : Stream → Stream
after_header s = if s.in_body then settle_body s else s

-- The specification: one byte.
unfoldable pub step : Stream → ℕ → Stream
unfolding after_header
step s b =
    if s.done
    then s
    else if s.in_body
    then add_body s (b ∷ [])
    else after_header (add_header s (b ∷ []))

unfoldable pub steps : Stream → List ℕ → Stream
steps s [] = s
steps s (b ∷ input) = steps (step s b) input

pub steps-append : (s : Stream) (xs ys : List ℕ) → steps s (xs ++ ys) ≡ steps (steps s xs) ys
unfolding steps
steps-append s [] ys = refl
steps-append s (x ∷ xs) ys = steps-append (step s x) xs ys

pub step-done : (s : Stream) (b : ℕ) → s.done ≡ true → step s b ≡ s
unfolding step
step-done s b over = if_true s.done s _ over

pub step-body :
    (s : Stream) (b : ℕ) → s.done ≡ false → s.in_body ≡ true → step s b ≡ add_body s (b ∷ [])
unfolding step
step-body s b live body = if_false s.done s _ live ∙ if_true s.in_body (add_body s (b ∷ [])) _ body

pub step-header :
    (s : Stream) (b : ℕ)
    → s.done ≡ false
    → s.in_body ≡ false
    → step s b ≡ after_header (add_header s (b ∷ []))
unfolding step
step-header s b live body =
    if_false s.done s _ live ∙ if_false s.in_body _ (after_header (add_header s (b ∷ []))) body

pub steps-done : (s : Stream) (input : List ℕ) → s.done ≡ true → steps s input ≡ s
unfolding steps
steps-done s [] over = refl
steps-done s (b ∷ input) over =
    ap (λ t. steps t input) (step-done s b over) ∙ steps-done s input over

-- A body that is still open takes a byte and stays open.
pub add_body-open :
    (s : Stream) (taken : List ℕ)
    → length s.got + length taken < s.msglen
    → add_body s taken ≡ record s { got = s.got ++ taken }
unfolding add_body settle_body
add_body-open s taken fits =
    let still : leb s.msglen (length (s.got ++ taken)) ≡ false =
      ground (arith, length-append s.got taken, fits) in
    if_false (leb s.msglen (length (s.got ++ taken))) _ (record s { got = s.got ++ taken }) still

add_body-add_body :
    (s : Stream) (xs ys : List ℕ)
    → add_body (record s { got = s.got ++ xs }) ys ≡ add_body s (xs ++ ys)
unfolding add_body
add_body-add_body s xs ys = ap (λ g. settle_body (record s { got = g })) (append_assoc s.got xs ys)

-- The bytes of a body, one by one.
pub steps-body :
    (s : Stream) (b : ℕ) (taken : List ℕ)
    → s.done ≡ false
    → s.in_body ≡ true
    → length s.got + suc (length taken) ≤ s.msglen
    → steps s (b ∷ taken) ≡ add_body s (b ∷ taken)
unfolding steps
steps-body s b [] live body fits = step-body s b live body
steps-body s b (c ∷ taken) live body fits =
    let s' : Stream = record s { got = s.got ++ b ∷ [] } in
    let fewer : length (s.got ++ b ∷ []) + suc (length taken) ≤ s.msglen =
      omega (arith, length-append s.got (b ∷ []), fits) in
    let one : step s b ≡ s' =
      step-body s b live body ∙ add_body-open s (b ∷ []) (omega (arith, fits)) in
    ap (λ t. steps t (c ∷ taken)) one
    ∙ steps-body s' c taken live body fewer
    ∙ add_body-add_body s (b ∷ []) (c ∷ taken)

-- The same for a header.
pub add_header-open :
    (s : Stream) (taken : List ℕ)
    → length s.hdr + length taken < 5
    → add_header s taken ≡ record s { hdr = s.hdr ++ taken }
unfolding add_header
add_header-open s taken fits =
    let still : ltb (length (s.hdr ++ taken)) 5 ≡ true =
      ground (arith, length-append s.hdr taken, fits) in
    if_true (ltb (length (s.hdr ++ taken)) 5) (record s { hdr = s.hdr ++ taken }) _ still

add_header-add_header :
    (s : Stream) (xs ys : List ℕ)
    → add_header (record s { hdr = s.hdr ++ xs }) ys ≡ add_header s (xs ++ ys)
unfolding add_header
add_header-add_header s xs ys =
    ap (λ h. if ltb (length h) 5 then record s { hdr = h } else header_done (record s { hdr = h }))
      (append_assoc s.hdr xs ys)

pub after_header-closed : (s : Stream) → s.in_body ≡ false → after_header s ≡ s
unfolding after_header
after_header-closed s closed = if_false s.in_body _ s closed

pub steps-header :
    (s : Stream) (b : ℕ) (taken : List ℕ)
    → s.done ≡ false
    → s.in_body ≡ false
    → length s.hdr + suc (length taken) ≤ 5
    → steps s (b ∷ taken) ≡ after_header (add_header s (b ∷ taken))
unfolding steps
steps-header s b [] live closed fits = step-header s b live closed
steps-header s b (c ∷ taken) live closed fits =
    let s' : Stream = record s { hdr = s.hdr ++ b ∷ [] } in
    let fewer : length (s.hdr ++ b ∷ []) + suc (length taken) ≤ 5 =
      omega (arith, length-append s.hdr (b ∷ []), fits) in
    let one : step s b ≡ s' =
      step-header s b live closed
      ∙ ap after_header (add_header-open s (b ∷ []) (omega (arith, fits)))
      ∙ after_header-closed s' closed in
    ap (λ t. steps t (c ∷ taken)) one
    ∙ steps-header s' c taken live closed fewer
    ∙ ap after_header (add_header-add_header s (b ∷ []) (c ∷ taken))
