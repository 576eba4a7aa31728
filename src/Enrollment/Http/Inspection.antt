-- ===== src/Enrollment/Http/Inspection.antt =====
-- What the buffer of `read_request` shows while a request comes in.
use nirantara.Common.{
  ℕ, ◌+◌, ◌≤◌, ◌<◌, ◌≡◌, ◌≢◌, ◌∙◌, ap, sym, subst, Bool, inl, inr, Option, none, some, ◌++◌, length,
  length-append, append_assoc, All, All-append_left, Option-cases, arith,
}
use nirantara.Common.Text.{Bytes, cstr, strstr}
use nirantara.Common.Text.Search.{
  cstr-append, cstr-All, strstr_splits, strstr-append, starts_with-length,
}
use nirantara.Enrollment.Http.{crlf, blank_line, request_max_bytes, parse_content_length}
use nirantara.Enrollment.Http.Headers.{parse_content_length-append}
use nirantara.Enrollment.Http.Request.{
  partial, length_before, or_parsed, progress, inspect, measure,
}

module _ (has_memory : ℕ → Bool) (headers body : Bytes) where
  abbrev pub request : Bytes
  request = (headers ++ blank_line) ++ body

  -- A request: its headers hold no NUL and no blank line, and declare the length of the body, and it
  -- fits the buffer.
  pub record IsRequest : Type 0 where
    pub no_nul : All (λ c. c ≢ 0) (headers ++ blank_line)
    pub first : strstr (headers ++ blank_line) blank_line ≡ some (headers, blank_line)
    pub declared :
        parse_content_length has_memory (headers ++ blank_line) (length headers)
        ≡ some (length body)
    pub fits : length request ≤ request_max_bytes

  -- The content length, where it is known, is that of the body.
  abbrev pub IsKnown : Option ℕ → Type 0
  IsKnown none = Unit
  IsKnown (some n) = n ≡ length body

  module _ (is : IsRequest) where
    pub inspect_short :
        (buf y : Bytes) (known : Option ℕ)
        → headers ++ blank_line ≡ buf ++ y
        → 0 < length y
        → inspect has_memory buf known ≡ partial known
    unfolding inspect
    inspect_short buf y known e pos =
        let whole : cstr buf ≡ buf =
          cstr-All buf
            (All-append_left (λ c. c ≢ 0) buf y (subst (All (λ c. c ≢ 0)) e is.no_nul)) in
        elim (Option-cases (strstr buf blank_line)) [
          | inl none_found ↦
              ap (λ t. progress has_memory buf t known (length_before (strstr t blank_line))) whole
              ∙ ap (λ o. progress has_memory buf buf known (length_before o)) none_found
          | inr ((f, r), found) ↦
              let later = strstr-append buf blank_line y f r found in
              let same : some (f, r ++ y) ≡ some (headers, blank_line) =
                sym later ∙ ap (λ s. strstr s blank_line) (sym e) ∙ is.first in
              let rest : r ++ y ≡ blank_line = cc in
              let long =
                starts_with-length r blank_line (strstr_splits buf blank_line f r found).1 in
              absurd (omega (arith, ap length rest, length-append r y))
        ]

    parse_whole :
        (z : Bytes)
        → parse_content_length has_memory ((headers ++ blank_line) ++ z) (length headers)
          ≡ some (length body)
    parse_whole z =
        let shift : (t : Bytes) → (headers ++ blank_line) ++ t ≡ (headers ++ crlf) ++ (crlf ++ t) =
          λ t. append_assoc headers blank_line t ∙ sym (append_assoc headers crlf (crlf ++ t)) in
        let at_end : headers ++ blank_line ≡ (headers ++ crlf) ++ crlf =
          sym (append_assoc headers crlf crlf) in
        ap (λ s. parse_content_length has_memory s (length headers)) (shift z)
        ∙ parse_content_length-append has_memory headers (crlf ++ z)
        ∙ sym (parse_content_length-append has_memory headers crlf)
        ∙ ap (λ s. parse_content_length has_memory s (length headers)) (sym at_end)
        ∙ is.declared

    pub inspect_long :
        (z : Bytes) (known : Option ℕ)
        → IsKnown known
        → inspect has_memory ((headers ++ blank_line) ++ z) known
          ≡ measure
              (length ((headers ++ blank_line) ++ z))
              (length headers + 4)
              (some (length body))
    unfolding inspect
    inspect_long z known k =
        let buf = (headers ++ blank_line) ++ z in
        let found =
          strstr-append (headers ++ blank_line) blank_line (cstr z) headers blank_line is.first in
        ap (λ t. progress has_memory buf t known (length_before (strstr t blank_line)))
          (cstr-append (headers ++ blank_line) z is.no_nul)
        ∙ ap
            (λ o.
              progress has_memory buf ((headers ++ blank_line) ++ cstr z) known (length_before o))
            found
        ∙ ap (measure (length buf) (length headers + 4)) (parsed known k (parse_whole (cstr z)))
      where
        parsed :
            (known : Option ℕ) {p : Option ℕ}
            → IsKnown known
            → p ≡ some (length body)
            → or_parsed known p ≡ some (length body)
        parsed none k e = e
        parsed (some n) k e = ap some k
