-- ===== src/Sandbox/Capture.antt =====
-- The bounded capture of a stream: `BoundedUtf8Capture` of src/sandbox/resource-policy.ts. A chunk is
-- its bytes; the UTF-8 encoder and decoder of the runtime are arguments.
pub mod Law
use ai_agent_runner.Base.{
  ℕ, zero, suc, ◌+◌, ◌-◌, String, Bool, true, false, ◌&&◌, ◌||◌, List, [], ◌∷◌, ◌++◌, nat_beq, ltb,
  leb, if◌then◌else◌,
}
use ai_agent_runner.Base.Lists.{length}
use ai_agent_runner.Base.Lists.Take.{take, flatten}
use ai_agent_runner.Base.Text.Decimal.{max_safe_integer}
use ai_agent_runner.Failure.{Result, ok, ◌>>=◌, ◌>>◌, require}

abbrev pub Bytes : Type 0
Bytes = List ℕ

-- `string | Uint8Array`
pub data Value : Type 0 where
  text_value : String → Value
  byte_value : Bytes → Value

pub record CaptureSnapshot : Type 0 where
  pub text : String
  pub captured_bytes : ℕ
  pub truncated : Bool

-- `BoundedUtf8Capture`
pub record Capture : Type 0 where
  pub max_bytes : ℕ
  pub chunks : List Bytes
  pub captured_bytes : ℕ
  pub truncated : Bool

-- The constructor.
unfoldable pub new_capture : ℕ → Result Capture
new_capture max_bytes = do
  require (leb max_bytes max_safe_integer && ltb 0 max_bytes)
      "capture maxBytes must be a positive safe integer"
  ok (record { max_bytes = max_bytes; chunks = []; captured_bytes = 0; truncated = false })

-- `append` of a chunk, with what remains.
unfoldable pub append_chunk : Capture → Bytes → Capture
append_chunk c chunk =
    let remaining = c.max_bytes - c.captured_bytes in
    if nat_beq remaining 0
    then record c { truncated = ltb 0 (length chunk) || c.truncated }
    else if leb (length chunk) remaining
    then record c {
      chunks = c.chunks ++ chunk ∷ [];
      captured_bytes = c.captured_bytes + length chunk;
    }
    else record c {
      chunks = c.chunks ++ take remaining chunk ∷ [];
      captured_bytes = c.captured_bytes + remaining;
      truncated = true;
    }

-- `Buffer.concat(chunks, size)`: cut or filled with zeros to the size.
abbrev sized : ℕ → Bytes → Bytes
sized zero bytes = []
sized (suc n) [] = 0 ∷ sized n []
sized (suc n) (b ∷ bytes) = b ∷ sized n bytes

unfoldable pub concat_buffers : List Bytes → ℕ → Bytes
concat_buffers chunks size = sized size (flatten chunks)

module _ (encode : String → Bytes) (decode : Bytes → String) where
  abbrev pub bytes_of : Value → Bytes
  bytes_of (text_value value) = encode value
  bytes_of (byte_value value) = value

  unfoldable pub append : Capture → Value → Capture
  append c value = append_chunk c (bytes_of value)

  unfoldable pub snapshot : Capture → CaptureSnapshot
  snapshot c = record {
    text = decode (concat_buffers c.chunks c.captured_bytes);
    captured_bytes = c.captured_bytes;
    truncated = c.truncated;
  }

  -- The values of a stream, appended in their order.
  unfoldable pub append_all : Capture → List Value → Capture
  append_all c [] = c
  append_all c (value ∷ values) = append_all (append c value) values
