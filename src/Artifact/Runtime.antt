-- ===== src/Artifact/Runtime.antt =====
-- What the artifact contract uses of its runtime: UTF-8, SHA-256, base64url, JSON and the order of
-- texts. A body is a list of bytes.
use Prim.Native.Nat.{Ordering}
use ai_agent_runner.Base.{ℕ, String, ◌==◌, ◌≡◌, true, false, Option, some, List}
use ai_agent_runner.Base.Lists.{length}
use ai_agent_runner.Base.Text.{is_sha256_hex}
use ai_agent_runner.Artifact.Json.{Json, canonical_json_stringify}
use ai_agent_runner.Artifact.ChangedFiles.{Flips}

abbrev pub Bytes : Type 0
Bytes = List ℕ

pub record Runtime : Type 0 where
  -- `Buffer.from(text, "utf8")` and `buffer.toString("utf8")`
  pub encode : String → Bytes
  pub decode : Bytes → String
  -- `createHash("sha256")`, in its two digests
  pub sha256_hex : Bytes → String
  pub sha256_base64 : Bytes → String
  -- `buffer.toString("base64url")`
  pub base64url : Bytes → String
  -- `JSON.stringify` of a text, and `JSON.parse`
  pub json_string : String → String
  pub json_parse : String → Option Json
  -- `a.localeCompare(b)`
  pub locale_compare : String → String → Ordering

-- `Buffer.byteLength(text, "utf8")`
abbrev pub byte_length : Runtime → String → ℕ
byte_length runtime text = length (runtime.encode text)

-- What is known of these functions: texts survive UTF-8, a hexadecimal digest is 64 digits, a base64 one is not empty, and texts are compared antisymmetrically.
pub record IsReliable (runtime : Runtime) : Type 0 where
  pub decode-encode : (text : String) → runtime.decode (runtime.encode text) ≡ text
  pub digest_form : (bytes : Bytes) → is_sha256_hex (runtime.sha256_hex bytes) ≡ true
  pub digest_given : (bytes : Bytes) → (runtime.sha256_base64 bytes == "") ≡ false
  pub flips : Flips runtime.locale_compare

-- `JSON.parse` reads the canonical text of this value back.
abbrev pub ReadsBack : Runtime → Json → Type 0
ReadsBack runtime value =
    runtime.json_parse (canonical_json_stringify runtime.json_string value) ≡ some value
