-- ===== src/Base/Text.antt =====
-- Texts of the source: `trim() === ""`, regular expressions as matchers that take what follows, and
-- decimal numerals with their reader.
pub mod Decimal
pub mod Parts
use Prim.Native.Char.{Char, code}
use ai_agent_runner.Base.Tests.{ltb, leb, nat_beq, if◌then◌else◌}
use Prim.Native.Nat.{ℕ, zero, suc, ◌+◌, ◌-◌, ◌*◌, ◌/◌, ◌%◌, ◌≤◌, ◌<◌}
use Prim.Native.String.{String}
use mathlib.Core.Path.{◌≡◌, refl}
use mathlib.Core.Bool.{Bool, true, false, ◌&&◌, ◌||◌}
use mathlib.Core.Option.{Option, none, some}
use mathlib.Core.List.{List, [], ◌∷◌}
use native.Mathlib.Omega.{arith}
use ai_agent_runner.Base.Lists.{all}

-- The code points of a text.
abbrev pub codes : String → List ℕ
codes String.[] = []
codes (String.◌∷◌ c s) = code c ∷ codes s

abbrev pub between : ℕ → ℕ → ℕ → Bool
between lo hi c = leb lo c && leb c hi

-- What `trim` removes: ECMAScript's white space and line terminators.
abbrev pub is_space : ℕ → Bool
is_space c =
    between 9 13 c
    || nat_beq c 32
    || nat_beq c 160
    || nat_beq c 0x1680
    || between 0x2000 0x200a c
    || between 0x2028 0x2029 c
    || nat_beq c 0x202f
    || nat_beq c 0x205f
    || nat_beq c 0x3000
    || nat_beq c 0xfeff

-- `value.trim() === ""`.
unfoldable pub is_blank : String → Bool
is_blank s = all is_space (codes s)

abbrev pub Matcher : Type 0
Matcher = List ℕ → Bool

abbrev pub finish : Matcher
finish [] = true
finish (x ∷ xs) = false

abbrev pub one : (ℕ → Bool) → Matcher → Matcher
one c k [] = false
one c k (x ∷ xs) = c x && k xs

-- `c{n}`
abbrev pub times : ℕ → (ℕ → Bool) → Matcher → Matcher
times zero c k xs = k xs
times (suc n) c k xs = one c (times n c k) xs

-- `c{0,n}`
abbrev pub up_to : ℕ → (ℕ → Bool) → Matcher → Matcher
up_to zero c k xs = k xs
up_to (suc n) c k xs = k xs || one c (up_to n c k) xs

-- `c*`
abbrev pub star : (ℕ → Bool) → Matcher → Matcher
star c k [] = k []
star c k (x ∷ xs) = k (x ∷ xs) || (c x && star c k xs)

abbrev pub digit : ℕ → Bool
digit c = between 48 57 c

-- `[0-9a-f]`
abbrev pub hex : ℕ → Bool
hex c = digit c || between 97 102 c

abbrev dash : ℕ → Bool
dash c = nat_beq c 45

abbrev colon : ℕ → Bool
colon c = nat_beq c 58

-- `^[0-9a-f]{8}-[0-9a-f]{4}-4[0-9a-f]{3}-[89ab][0-9a-f]{3}-[0-9a-f]{12}$`
unfoldable pub is_uuid_v4 : String → Bool
is_uuid_v4 s =
    times 8 hex
      (one dash (
        times 4 hex (
          one dash (
            one (λ c. nat_beq c 52)
              (times 3 hex (
                one dash (
                  one (λ c. between 56 57 c || between 97 98 c)
                    (times 3 hex (one dash (times 12 hex finish))))))))))
      (codes s)

-- `^sha256:[0-9a-f]{64}$`
unfoldable pub is_fingerprint : String → Bool
is_fingerprint s =
    one (λ c. nat_beq c b's')
      (one (λ c. nat_beq c b'h')
        (one (λ c. nat_beq c b'a')
          (one (λ c. nat_beq c b'2')
            (one (λ c. nat_beq c b'5')
              (one (λ c. nat_beq c b'6') (one colon (times 64 hex finish)))))))
      (codes s)

-- `^[0-9a-f]{64}$`
unfoldable pub is_sha256_hex : String → Bool
is_sha256_hex s = times 64 hex finish (codes s)

-- `^[\x20-\x7e]+$`
unfoldable pub is_ascii : String → Bool
is_ascii s = one (between 32 126) (star (between 32 126) finish) (codes s)

-- `^[0-9a-f]{40,128}$`
unfoldable pub is_git_oid : String → Bool
is_git_oid s = times 40 hex (up_to 88 hex finish) (codes s)

-- `(?:Z|[+-]\d{2}:\d{2})$`
abbrev zone : Matcher
zone xs =
    one (λ c. nat_beq c b'Z') finish xs
    || one (λ c. nat_beq c 43 || nat_beq c 45) (times 2 digit (one colon (times 2 digit finish))) xs

-- `^\d{4}-\d{2}-\d{2}T\d{2}:\d{2}:\d{2}(?:\.\d+)?(?:Z|[+-]\d{2}:\d{2})$`
unfoldable pub is_rfc3339 : String → Bool
is_rfc3339 s =
    times 4 digit
      (one dash (
        times 2 digit (
          one dash (
            times 2 digit (
              one (λ c. nat_beq c b'T')
                (times 2 digit (
                  one colon (
                    times 2 digit (
                      one colon (
                        times 2 digit (λ xs.
                          zone xs
                          || one (λ c. nat_beq c 46) (one digit (star digit zone)) xs)))))))))))
      (codes s)

abbrev same_codes : List ℕ → List ℕ → Bool
same_codes [] [] = true
same_codes (x ∷ xs) (y ∷ ys) = nat_beq x y && same_codes xs ys
same_codes _ _ = false

abbrev ends_with_codes : List ℕ → List ℕ → Bool
ends_with_codes [] suffix = same_codes [] suffix
ends_with_codes (x ∷ xs) suffix = same_codes (x ∷ xs) suffix || ends_with_codes xs suffix

-- `value.endsWith(suffix)`.
unfoldable pub ends_with : String → String → Bool
ends_with value suffix = ends_with_codes (codes value) (codes suffix)

test_patterns :
    (is_uuid_v4 "0b0e3c5a-1111-4222-8333-0123456789ab" ≡ true)
    × (is_rfc3339 "2026-01-02T03:04:05.678Z" ≡ true)
unfolding is_uuid_v4 is_rfc3339
test_patterns = (refl, refl)
