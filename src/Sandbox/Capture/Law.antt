-- ===== src/Sandbox/Capture/Law.antt =====
-- A bounded capture against its specification: the first bytes of the whole stream.
use ai_agent_runner.Base.{
  ℕ, zero, suc, ◌-◌, ◌≤◌, ◌<◌, String, ◌≡◌, refl, ap, ◌∙◌, sym, true, false, List, [], ◌∷◌, ◌++◌,
  arith, ltb, leb, nat_beq, Bool-cases, inl, inr,
}
use mathlib.Core.List.{append_assoc, append-nil}
use ai_agent_runner.Base.Lists.{length}
use ai_agent_runner.Base.Lists.Take.{
  take, flatten, length-append, take_all, take-append, take-append_long, length-take_le,
}
use ai_agent_runner.Failure.{ok}
use ai_agent_runner.Sandbox.Capture.{
  Bytes, Value, Capture, new_capture, append_chunk, sized, concat_buffers, bytes_of, append,
  snapshot, append_all,
}

-- The state of a capture that has been given these bytes.
pub record Captures (max : ℕ) (seen : Bytes) (c : Capture) : Type 0 where
  pub bound : c.max_bytes ≡ max
  pub held : flatten c.chunks ≡ take max seen
  pub counted : c.captured_bytes ≡ length (take max seen)
  pub flagged : c.truncated ≡ ltb max (length seen)

flatten-append : (xss : List Bytes) (xs : Bytes) → flatten (xss ++ xs ∷ []) ≡ flatten xss ++ xs
flatten-append [] xs = append-nil xs
flatten-append (ys ∷ xss) xs = simp (flatten-append xss xs, append_assoc)

length-take : (n : ℕ) (xs : Bytes) → length (take n xs) ≤ n
length-take zero xs = omega arith
length-take (suc n) [] = omega arith
length-take (suc n) (x ∷ xs) = omega (arith, length-take n xs)

append_chunk-full :
    (max : ℕ) (seen chunk : Bytes) (c : Capture)
    → max ≤ length seen
    → Captures max seen c
    → Captures max (seen ++ chunk) (append_chunk c chunk)
unfolding append_chunk
append_chunk-full max seen chunk c full k =
    let size : length (take max seen) ≡ max = length-take_le max seen full in
    let none_left : nat_beq (c.max_bytes - c.captured_bytes) 0 ≡ true =
      ground (arith, k.bound, k.counted) in
    rw none_left (record {
      bound = k.bound;
      held = k.held ∙ sym (take-append_long max seen chunk full);
      counted = k.counted ∙ ap length (sym (take-append_long max seen chunk full));
      flagged = ground (arith, length-append seen chunk, k.flagged);
    })

module _ (max : ℕ) (seen chunk : Bytes) (c : Capture) (room : length seen < max)
    (k : Captures max seen c) where
  all_seen : take max seen ≡ seen
  all_seen = take_all max seen (omega arith)

  left : c.max_bytes - c.captured_bytes ≡ max - length seen
  left = rw (k.bound, k.counted, all_seen) refl

  joined : take max (seen ++ chunk) ≡ seen ++ take (max - length seen) chunk
  joined = take-append max seen chunk (omega arith)

  append_chunk-fits :
      length chunk ≤ max - length seen → Captures max (seen ++ chunk) (append_chunk c chunk)
  unfolding append_chunk
  append_chunk-fits fits =
      let some_left : nat_beq (c.max_bytes - c.captured_bytes) 0 ≡ false = ground (arith, left) in
      let enough : leb (length chunk) (c.max_bytes - c.captured_bytes) ≡ true =
        ground (arith, left) in
      let whole : take max (seen ++ chunk) ≡ seen ++ chunk =
        joined ∙ ap (λ rest. seen ++ rest) (take_all (max - length seen) chunk fits) in
      rw (some_left, enough)
        (record {
          bound = k.bound;
          held = rw (flatten-append c.chunks chunk, k.held, all_seen, whole) refl;
          counted = rw (k.counted, all_seen, whole, length-append seen chunk) refl;
          flagged = ground (arith, length-append seen chunk, k.flagged);
        })

  append_chunk-cut :
      max - length seen < length chunk → Captures max (seen ++ chunk) (append_chunk c chunk)
  unfolding append_chunk
  append_chunk-cut long =
      let some_left : nat_beq (c.max_bytes - c.captured_bytes) 0 ≡ false = ground (arith, left) in
      let short : leb (length chunk) (c.max_bytes - c.captured_bytes) ≡ false =
        ground (arith, left) in
      rw (some_left, short)
        (record {
          bound = k.bound;
          held =
              rw
                (
                  flatten-append c.chunks (take (c.max_bytes - c.captured_bytes) chunk),
                  k.held,
                  all_seen,
                  left,
                  joined,
                )
                refl;
          counted =
              rw
                (
                  k.counted,
                  all_seen,
                  joined,
                  length-append seen (take (max - length seen) chunk),
                  length-take_le (max - length seen) chunk (omega arith),
                )
                (ground (arith, left, k.counted, k.bound));
          flagged = ground (arith, length-append seen chunk);
        })

append_chunk-Captures :
    (max : ℕ) (seen chunk : Bytes) (c : Capture)
    → Captures max seen c
    → Captures max (seen ++ chunk) (append_chunk c chunk)
append_chunk-Captures max seen chunk c k = elim (Bool-cases (ltb (length seen) max)) [
  | inr full ↦ append_chunk-full max seen chunk c (ground arith) k
  | inl room ↦ elim (Bool-cases (leb (length chunk) (max - length seen))) [
    | inl fits ↦ append_chunk-fits max seen chunk c (ground arith) k (ground arith)
    | inr long ↦ append_chunk-cut max seen chunk c (ground arith) k (ground arith)
  ]
]

sized_self : (bytes : Bytes) → sized (length bytes) bytes ≡ bytes
sized_self [] = refl
sized_self (b ∷ bytes) = ap (λ rest. b ∷ rest) (sized_self bytes)

module _ (encode : String → Bytes) (decode : Bytes → String) where
  -- All the bytes of a stream.
  unfoldable pub stream_of : List Value → Bytes
  stream_of [] = []
  stream_of (value ∷ values) = bytes_of encode decode value ++ stream_of values

  append_all-Captures :
      (max : ℕ) (seen : Bytes) (c : Capture) (values : List Value)
      → Captures max seen c
      → Captures max (seen ++ stream_of values) (append_all encode decode c values)
  unfolding append_all append stream_of
  append_all-Captures max seen c [] k = rw (append-nil seen) k
  append_all-Captures max seen c (value ∷ values) k =
      let chunk = bytes_of encode decode value in
      let rest =
        append_all-Captures max (seen ++ chunk) (append_chunk c chunk) values
          (append_chunk-Captures max seen chunk c k) in
      rw (← append_assoc seen chunk (stream_of values)) rest

  new_capture-Captures : (max : ℕ) (c : Capture) → new_capture max ≡ ok c → Captures max [] c
  unfolding new_capture
  new_capture-Captures zero c h = cc
  new_capture-Captures (suc n) c h = record {
    bound = ground arith;
    held = ground arith;
    counted = ground arith;
    flagged = ground arith;
  }

  -- However a stream is cut into chunks, the snapshot of a new capture of `max` bytes holds the text of
  -- the first `max` bytes of the whole stream and their number, and is flagged as truncated exactly if
  -- the stream is longer.
  pub snapshot-append_all :
      (max : ℕ) (c : Capture) (values : List Value)
      → new_capture max ≡ ok c
      → snapshot encode decode (append_all encode decode c values) ≡ record {
        text = decode (take max (stream_of values));
        captured_bytes = length (take max (stream_of values));
        truncated = ltb max (length (stream_of values));
      }
  unfolding snapshot concat_buffers
  snapshot-append_all max c values h =
      let k = append_all-Captures max [] c values (new_capture-Captures max c h) in
      rw (k.held, k.counted, k.flagged, sized_self (take max (stream_of values))) refl

  -- A snapshot never has more bytes than the capture allows.
  pub snapshot-bounded :
      (max : ℕ) (c : Capture) (values : List Value)
      → new_capture max ≡ ok c
      → (snapshot encode decode (append_all encode decode c values)).captured_bytes ≤ max
  unfolding snapshot
  snapshot-bounded max c values h =
      let k = append_all-Captures max [] c values (new_capture-Captures max c h) in
      rw k.counted (length-take max (stream_of values))
