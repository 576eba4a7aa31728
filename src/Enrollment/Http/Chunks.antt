-- ===== src/Enrollment/Http/Chunks.antt =====
-- `read_request` reads a request the same however it is cut into chunks.
use nirantara.Common.{
  ℕ, ◌+◌, ◌-◌, ◌≤◌, ◌<◌, ◌≡◌, ◌⊎◌, refl, ◌∙◌, ap, sym, Bool, true, false, inl, inr, Option, none,
  some, List, [], ◌∷◌, ◌++◌, ltb, leb, length, take_all, length-eq-zero, length-append,
  append_assoc, append-nil, All, Bool-cases, leb→le, lt→ltb, arith,
}
use nirantara.Common.Text.{Bytes, equal}
use nirantara.Common.Text.Search.{equal_nil}
use nirantara.Enrollment.Http.{blank_line, request_max_bytes}
use nirantara.Enrollment.Http.Request.{
  Received, chunk, recv_interrupted, recv_failed, inspect, measure, proceed, receive_loop,
  read_request,
}
use nirantara.Enrollment.Http.Inspection.{request, IsRequest, IsKnown, inspect_short, inspect_long}

-- What the calls bring: no errors, and no end of the connection.
abbrev pub joined : List Received → Bytes
joined [] = []
joined (chunk bytes ∷ calls) = bytes ++ joined calls
joined (recv_interrupted ∷ calls) = joined calls
joined (recv_failed ∷ calls) = joined calls

abbrev pub IsGood : Received → Type 0
IsGood (chunk bytes) = 0 < length bytes
IsGood recv_interrupted = Unit
IsGood recv_failed = ⊥

-- Of two splits of one list, one front is a prefix of the other.
splits_cases :
    (a b c d : Bytes)
    → a ++ b ≡ c ++ d
    → ((y : Bytes) × (c ≡ a ++ y) × (0 < length y)) ⊎ ((z : Bytes) × (a ≡ c ++ z) × (d ≡ z ++ b))
splits_cases [] b [] d h = inr ([], refl, sym h)
splits_cases [] b (y ∷ c) d h = inl (y ∷ c, refl, omega arith)
splits_cases (x ∷ a) b [] d h = inr (x ∷ a, refl, sym h)
splits_cases (x ∷ a) b (y ∷ c) d h = elim (splits_cases a b c d (cc)) [
  | inl (w, e, pos) ↦ inl (w, cc, pos)
  | inr (w, e, f) ↦ inr (w, cc, f)
]

module _ (has_memory : ℕ → Bool) (headers body : Bytes) where
  abbrev whole_request : Bytes
  whole_request = request has_memory headers body

  module _ (is : IsRequest has_memory headers body) where
    -- A chunk that the buffer holds behind `buf` is taken whole.
    received :
        (bytes : Bytes) (calls : List Received) (buf : Bytes) (known : Option ℕ)
        → 0 < length bytes
        → length buf + length bytes ≤ request_max_bytes
        → receive_loop has_memory (chunk bytes ∷ calls) buf known
          ≡ proceed has_memory
              (buf ++ bytes)
              (λ k. receive_loop has_memory calls (buf ++ bytes) k)
              (inspect has_memory (buf ++ bytes) known)
    unfolding receive_loop
    received bytes calls buf known pos room =
        let whole = take_all (request_max_bytes - length buf) bytes (omega arith) in
        let open_ : ltb (length buf) request_max_bytes ≡ true = ground arith in
        let some_bytes : equal bytes [] ≡ false = equal_nil bytes pos in
        rw (open_, some_bytes, whole)

    passed_over :
        (calls : List Received) (buf : Bytes) (known : Option ℕ)
        → length buf < request_max_bytes
        → receive_loop has_memory (recv_interrupted ∷ calls) buf known
          ≡ receive_loop has_memory calls buf known
    unfolding receive_loop
    passed_over calls buf known h = rw (lt→ltb _ _ h)

    receive_whole :
        (calls : List Received) (buf : Bytes) (known : Option ℕ)
        → IsKnown has_memory headers body known
        → All IsGood calls
        → buf ++ joined calls ≡ whole_request
        → length buf < length whole_request
        → receive_loop has_memory calls buf known ≡ some whole_request
    receive_whole [] buf known k good e h =
        absurd (omega (arith, ap length e, length-append buf []))
    receive_whole (recv_interrupted ∷ calls) buf known k good e h =
        passed_over calls buf known (omega (arith, is.fits))
        ∙ receive_whole calls buf known k good.1 e h
    receive_whole (recv_failed ∷ calls) buf known k good e h = absurd good.0
    receive_whole (chunk bytes ∷ calls) buf known k good e h =
        let buf' = buf ++ bytes in
        let split : buf' ++ joined calls ≡ whole_request =
          append_assoc buf bytes (joined calls) ∙ e in
        let sizes = ap length split in
        let total = length-append buf' (joined calls) in
        let front = length-append buf bytes in
        received bytes calls buf known good.0 (omega (arith, is.fits, sizes, total, front))
        ∙ elim (splits_cases buf' (joined calls) (headers ++ blank_line) body split) [
          | inl (y, prefix, pos) ↦
              ap (proceed has_memory buf' (λ k. receive_loop has_memory calls buf' k))
                (inspect_short has_memory headers body is buf' y known prefix pos)
              ∙ receive_whole calls buf' known k good.1 split (
                  omega (
                    arith,
                    ap length prefix,
                    length-append buf' y,
                    length-append (headers ++ blank_line) body,
                  ))
          | inr (z, prefix, rest) ↦
              ap (proceed has_memory buf' (λ k. receive_loop has_memory calls buf' k)) (
                ap (λ b. inspect has_memory b known) prefix
                ∙ inspect_long has_memory headers body is z known k
                ∙ ap (λ b. measure (length b) (length headers + 4) (some (length body)))
                    (sym prefix))
              ∙ finish calls buf' split
                  (receive_whole calls buf' (some (length body)) refl good.1 split)
        ]
      where
        -- The whole request is there, or the loop goes on.
        finish :
            (calls : List Received) (buf' : Bytes)
            → buf' ++ joined calls ≡ whole_request
            → (length buf' < length whole_request
                → receive_loop has_memory calls buf' (some (length body)) ≡ some whole_request)
            → proceed has_memory buf'
                (λ k. receive_loop has_memory calls buf' k)
                (measure (length buf') (length headers + 4) (some (length body)))
              ≡ some whole_request
        finish calls buf' split more =
            let need = length headers + 4 + length body in
            let all : length whole_request ≡ need = omega (
              arith,
              length-append (headers ++ blank_line) body,
              length-append headers blank_line,
            ) in
            let parts = length-append buf' (joined calls) in
            elim (Bool-cases (leb need (length buf'))) [
              | inl e ↦
                  let enough = leb→le _ _ e in
                  rw e (
                    ap some (
                      take_all need buf' (omega (arith, ap length split))
                      ∙ sym (append-nil buf')
                      ∙ ap (λ s. buf' ++ s)
                          (sym (length-eq-zero (joined calls) (omega (arith, ap length split))))
                      ∙ split))
              | inr e ↦ let short : length buf' < need = ground arith in rw e (more (omega arith))
            ]

    -- A request whose headers hold no NUL and no blank line and declare the length of its body, and
    -- which fits the buffer, is read whole, and exactly, however it is cut into chunks, and however
    -- often `recv` is interrupted, where it does not fail and there is memory for the buffer.
    pub read_request_chunks :
        (calls : List Received)
        → has_memory (request_max_bytes + 1) ≡ true
        → All IsGood calls
        → joined calls ≡ whole_request
        → read_request has_memory calls ≡ some whole_request
    unfolding read_request
    read_request_chunks calls memory good e = rw memory (
        receive_whole calls [] none tt good e (
          omega
            (arith, length-append (headers ++ blank_line) body, length-append headers blank_line)))
