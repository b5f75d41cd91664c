-- ===== src/Monitoring/Checker/Keyword.antt =====
-- packages/monitoring/src/checker.ts: the search for a keyword in the first 64 KiB of a body.
use link_alive.Common.{
  ℕ, ◌+◌, ◌-◌, Bool, true, false, ◌||◌, List, [], ◌∷◌, ◌++◌, Result, ok, throw, length, take, ◌==◌,
  leb, ltb, text, if◌then◌else◌,
}
use link_alive.Domain.Types.{CheckErrorType}
use link_alive.Monitoring.Errors.{target_failure}
use link_alive.Monitoring.Checker.Failures.{Thrown, failure, unknown, starts_with}

abbrev pub max_body_bytes : ℕ
max_body_bytes = 65536

-- A `TextDecoder`: what it makes of some bytes, and of its state at the end.
pub record Decoder : Type 1 where
  pub State : Type 0
  pub start : State
  pub decode : State → List ℕ → (stream : Bool) → List ℕ × State
  pub flush : State → List ℕ

-- The decompressed body as it arrives: a chunk with whether the check was aborted by then, the end,
-- or an error with whether the check was aborted.
pub data Body : Type 0 where
  ended : Body
  broken : Thrown → (aborted : Bool) → Body
  chunk : List ℕ → (aborted : Bool) → Body → Body

-- `text.includes(keyword)`
unfoldable pub includes : List ℕ → List ℕ → Bool
includes keyword [] = starts_with keyword []
includes keyword (c ∷ s) = starts_with keyword (c ∷ s) || includes keyword s

-- The last `n` units.
abbrev pub last_units : ℕ → List ℕ → List ℕ
last_units n [] = []
last_units n (c ∷ s) = let rest = last_units n s in if leb (length (c ∷ s)) n then c ∷ s else rest

-- `text.slice(-n)`, which is the whole text for 0.
unfoldable pub slice_last : ℕ → List ℕ → List ℕ
slice_last n s = if n == 0 then s else last_units n s

pub record Inspection : Type 0 where
  pub found : Bool
  pub inspected : ℕ

-- What the `catch` makes of an error of the stream.
unfoldable pub body_error : Thrown → Bool → Thrown
body_error e true = e
body_error (failure f) false = failure f
body_error (unknown e) false =
    failure (target_failure CheckErrorType.network_error (text "응답 본문을 안전하게 처리할 수 없습니다."))

module _ (decoder : Decoder) (reason : Thrown) (keyword : List ℕ) where
  open decoder use {State, start, decode, flush}

  -- Behind the loop.
  unfoldable pub inspect_tail : State → ℕ → List ℕ → Inspection
  unfolding includes
  inspect_tail state inspected overlap = record {
    found = includes keyword (overlap ++ flush state);
    inspected = inspected;
  }

  -- `is_last` says that the chunk reaches the limit; `more` is the rest of the loop.
  unfoldable pub after_chunk :
      (is_found is_last : Bool)
      → ℕ
      → Inspection
      → Result Thrown Inspection
      → Result Thrown Inspection
  after_chunk true is_last inspected tail more = ok (record { found = true; inspected = inspected })
  after_chunk false true inspected tail more = ok tail
  after_chunk false false inspected tail more = more

  unfoldable pub inspect_chunks :
      State → (inspected : ℕ) → (overlap : List ℕ) → Body → Result Thrown Inspection
  unfolding inspect_tail after_chunk slice_last body_error
  inspect_chunks state inspected overlap ended = ok (inspect_tail state inspected overlap)
  inspect_chunks state inspected overlap (broken e aborted) = throw (body_error e aborted)
  inspect_chunks state inspected overlap (chunk bytes true body) = throw reason
  inspect_chunks state inspected overlap (chunk bytes false body) =
      let bounded = take (max_body_bytes - inspected) bytes in
      let total = inspected + length bounded in
      let decoded = decode state bounded (ltb total max_body_bytes) in
      let seen = overlap ++ decoded.0 in
      let kept = slice_last (length keyword - 1) seen in
      let more = inspect_chunks decoded.1 total kept body in
      let reached =
        after_chunk (includes keyword seen)
          (ltb (length bounded) (length bytes) || leb max_body_bytes total) total
          (inspect_tail decoded.1 total kept) more in
      if leb max_body_bytes inspected then ok (inspect_tail state inspected overlap) else reached

  unfoldable pub inspect_keyword : Body → Result Thrown Inspection
  unfolding inspect_chunks
  inspect_keyword body = inspect_chunks start 0 [] body
