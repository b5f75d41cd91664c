-- ===== src/Monitoring/Checker/Prefix.antt =====
-- packages/monitoring/src/checker.ts: what the search of a body finds, in terms of the whole text of
-- the part that is read.
use link_alive.Common.{
  ℕ, zero, suc, ◌+◌, ◌-◌, ◌≤◌, ◌<◌, ◌≡◌, refl, sym, ◌∙◌, ap, Bool, true, false, ◌||◌, List, [], ◌∷◌,
  ◌++◌, Result, ok, throw, length, take, length-take, arith, leb, ltb, if-holds_cases, Bool-cases,
  inl, inr,
}
use mathlib.Core.List.{append_assoc}
use link_alive.Monitoring.Checker.Failures.{Thrown}
use link_alive.Monitoring.Checker.Keyword.{
  max_body_bytes, Decoder, Body, ended, broken, chunk, includes, slice_last, Inspection,
  inspect_tail, after_chunk, inspect_chunks, inspect_keyword,
}
use link_alive.Monitoring.Checker.Search.{includes-append, slice_last-absent, slice_last-kept}

-- The body arrives to its end, without an error and before the check is aborted.
abbrev pub IsWhole : Body → Type 0
IsWhole ended = Unit
IsWhole (broken e aborted) = ⊥
IsWhole (chunk bytes aborted body) = (aborted ≡ false) × IsWhole body

module _ (decoder : Decoder) where
  open decoder use {State, start, decode, flush}

  -- The text of the first bytes of the body, as many as the limit leaves.
  unfoldable pub text_within : State → (room : ℕ) → Body → List ℕ
  text_within state zero body = flush state
  text_within state (suc room) ended = flush state
  text_within state (suc room) (broken e aborted) = flush state
  text_within state (suc room) (chunk bytes aborted body) =
      let bounded = take (suc room) bytes in
      let left = suc room - length bounded in
      let decoded = decode state bounded (ltb 0 left) in
      decoded.0 ++ text_within decoded.1 left body

  unfoldable pub body_text : Body → List ℕ
  unfolding text_within
  body_text body = text_within start max_body_bytes body

-- The search ends without an error, with what a search of the text finds, within the limit.
abbrev pub Finds : List ℕ → Result Thrown Inspection → List ℕ → Type 0
Finds keyword (ok r) t = (r.found ≡ includes keyword t) × (r.inspected ≤ max_body_bytes)
Finds keyword (throw e) t = ⊥

Finds-moved :
    (keyword : List ℕ) (r : Result Thrown Inspection) (s t : List ℕ)
    → includes keyword s ≡ includes keyword t
    → Finds keyword r s
    → Finds keyword r t
Finds-moved keyword (ok r) s t same (found, bounded) = (found ∙ same, bounded)
Finds-moved keyword (throw e) s t same h = h

-- What a chunk that is not the last one leaves to the rest of the loop.
Finds-kept :
    (keyword overlap new later : List ℕ) (r : Result Thrown Inspection)
    → 0 < length keyword
    → includes keyword (overlap ++ new) ≡ false
    → Finds keyword r (slice_last (length keyword - 1) (overlap ++ new) ++ later)
    → Finds keyword r (overlap ++ (new ++ later))
Finds-kept keyword overlap new later r positive absent h =
    Finds-moved keyword r _ _
      (slice_last-kept keyword (overlap ++ new) later positive absent
        ∙ ap (includes keyword) (append_assoc overlap new later))
      h

-- A chunk in which the keyword ends.
found_in :
    (keyword overlap new later : List ℕ)
    → includes keyword (overlap ++ new) ≡ true
    → true ≡ includes keyword (overlap ++ (new ++ later))
found_in keyword overlap new later h = sym (
    ap (includes keyword) (sym (append_assoc overlap new later))
    ∙ includes-append keyword (overlap ++ new) later h)

includes-nothing : (keyword : List ℕ) → 0 < length keyword → includes keyword [] ≡ false
unfolding includes
includes-nothing [] h = absurd (omega arith)
includes-nothing (c ∷ keyword) h = refl

-- A text that is cut is as long as the cut.
take-short :
    (n : ℕ) (bytes : List ℕ) → length (take n bytes) < length bytes → length (take n bytes) ≡ n
take-short zero bytes h = refl
take-short (suc n) [] h = absurd (omega arith)
take-short (suc n) (b ∷ bytes) h = let rest = take-short n bytes (omega arith) in omega arith

-- The last chunk that is read leaves nothing of the limit.
cut_off :
    (bytes : List ℕ) (inspected room : ℕ)
    → inspected + suc room ≡ max_body_bytes
    → (ltb (length (take (suc room) bytes)) (length bytes)
        || leb max_body_bytes (inspected + length (take (suc room) bytes)))
      ≡ true
    → suc room - length (take (suc room) bytes) ≡ 0
cut_off bytes inspected room limit h =
    let short = length-take (suc room) bytes in
    let whole = take-short (suc room) bytes in ground arith

module _ (decoder : Decoder) (reason : Thrown) (keyword : List ℕ) where
  open decoder use {State, start, decode, flush}

  tail-Finds :
      (state : State) (inspected : ℕ) (overlap : List ℕ)
      → inspected ≤ max_body_bytes
      → Finds keyword
          (ok (inspect_tail decoder reason keyword state inspected overlap))
          (overlap ++ flush state)
  unfolding inspect_tail
  tail-Finds state inspected overlap h = (refl, h)

  -- The bounds are those of a chunk: it is the last one exactly if nothing is left.
  after_chunk-Finds :
      (is_last : Bool) (state : State) (total left : ℕ) (overlap new : List ℕ) (body : Body)
      (more : Result Thrown Inspection)
      → 0 < length keyword
      → total ≤ max_body_bytes
      → (is_last ≡ true → left ≡ 0)
      → (is_last ≡ false
          → includes keyword (overlap ++ new) ≡ false
          → Finds keyword more (
              slice_last (length keyword - 1) (overlap ++ new)
              ++ text_within decoder state left body))
      → Finds keyword
          (after_chunk decoder reason keyword
            (includes keyword (overlap ++ new))
            is_last
            total
            (inspect_tail decoder reason keyword state total
              (slice_last (length keyword - 1) (overlap ++ new)))
            more)
          (overlap ++ (new ++ text_within decoder state left body))
  unfolding after_chunk text_within
  after_chunk-Finds is_last state total left overlap new body more positive h last rest =
      elim (Bool-cases (includes keyword (overlap ++ new))) [
        | inl seen ↦ rw seen (found_in keyword overlap new _ seen, h)
        | inr absent ↦
            let kept = Finds-kept keyword overlap new (text_within decoder state left body) in
            elim (Bool-cases is_last) [
              | inl ends ↦
                  let kept_units = slice_last (length keyword - 1) (overlap ++ new) in
                  let tail = inspect_tail decoder reason keyword state total kept_units in
                  let found =
                    Finds-kept keyword overlap new (flush state) (ok tail) positive absent
                      (tail-Finds state total kept_units h) in
                  rw absent (rw ends (rw (last ends) found))
              | inr goes_on ↦
                  rw absent (rw goes_on (kept more positive absent (rest goes_on absent)))
            ]
      ]

  inspect_chunks-Finds :
      (body : Body) (state : State) (inspected room : ℕ) (overlap : List ℕ)
      → 0 < length keyword
      → IsWhole body
      → inspected + room ≡ max_body_bytes
      → includes keyword overlap ≡ false
      → Finds keyword
          (inspect_chunks decoder reason keyword state inspected overlap body)
          (overlap ++ text_within decoder state room body)
  unfolding inspect_chunks text_within
  inspect_chunks-Finds ended state inspected zero overlap positive whole limit absent =
      tail-Finds state inspected overlap (omega arith)
  inspect_chunks-Finds ended state inspected (suc room) overlap positive whole limit absent =
      tail-Finds state inspected overlap (omega arith)
  inspect_chunks-Finds (broken e aborted) state inspected room overlap positive whole limit absent =
      absurd whole
  inspect_chunks-Finds (chunk bytes true body) state inspected room overlap positive whole limit
        absent =
      absurd cc
  inspect_chunks-Finds (chunk bytes false body) state inspected zero overlap positive whole limit
        absent =
      if-holds_cases (λ r. Finds keyword r (overlap ++ flush state)) (leb max_body_bytes inspected)
        (λ full. tail-Finds state inspected overlap (omega arith)) (λ free. absurd (ground arith))
  inspect_chunks-Finds (chunk bytes false body) state inspected (suc room) overlap positive whole
        limit absent =
      let bounded = take (suc room) bytes in
      let left = suc room - length bounded in
      let free : max_body_bytes - inspected ≡ suc room = omega arith in
      let short = length-take (suc room) bytes in
      let streams : ltb (inspected + length bounded) max_body_bytes ≡ ltb 0 left = ground arith in
      let not_full : leb max_body_bytes inspected ≡ false = ground arith in
      let decoded = decode state bounded (ltb 0 left) in
      let seen = overlap ++ decoded.0 in
      let rest =
        inspect_chunks-Finds body decoded.1 (inspected + length bounded) left
          (slice_last (length keyword - 1) seen) positive whole.1 (omega arith) in
      let reached =
        after_chunk-Finds
          (ltb (length bounded) (length bytes) || leb max_body_bytes (inspected + length bounded))
          decoded.1 (inspected + length bounded) left overlap decoded.0 body _ positive
          (omega arith) (cut_off bytes inspected room limit)
          (λ goes_on gone. rest (slice_last-absent keyword seen (length keyword - 1) gone)) in
      rw not_full (rw free (rw streams reached))

  -- For a keyword that is not empty and a body that arrives whole, inspectKeyword ends without an
  -- error; it says that the keyword is found exactly if it stands in the text of the first 64 KiB,
  -- across the borders of the chunks too, and it counts at most 64 KiB.
  pub inspect_keyword-found :
      (body : Body)
      → 0 < length keyword
      → IsWhole body
      → Finds keyword (inspect_keyword decoder reason keyword body) (body_text decoder body)
  unfolding inspect_keyword body_text
  inspect_keyword-found body positive whole =
      inspect_chunks-Finds body start 0 max_body_bytes [] positive whole refl
        (includes-nothing keyword positive)
