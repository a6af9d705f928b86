-- ===== src/Tests/Codec.antt =====
-- A runtime for the tests: a text is encoded as its code points, and a constant stands for a digest.
use Prim.Native.Char.{Char, char, code, nul, IsScalar}
use Prim.Native.Nat.{Ordering, compare}
use text.Mathlib.TextEquality.{Char-path}
use ai_agent_runner.Base.{ℕ, String, ◌≡◌, refl, List, [], ◌∷◌}
use ai_agent_runner.Base.Text.{codes}

char_by :
    (n : ℕ) (a b c : Ordering)
    → compare n 55296 ≡ a
    → compare 57343 n ≡ b
    → compare n 1114112 ≡ c
    → Char
char_by n Ordering.lt b c p q r = char n (rw p tt)
char_by n Ordering.eq Ordering.lt Ordering.lt p q r = char n (rw (p, q, r) tt)
char_by n Ordering.gt Ordering.lt Ordering.lt p q r = char n (rw (p, q, r) tt)
char_by n _ _ _ p q r = nul

unfoldable pub char_of : ℕ → Char
unfolding char_by
char_of n = char_by n (compare n 55296) (compare 57343 n) (compare n 1114112) refl refl refl

code-char_by :
    (n : ℕ) (a b c : Ordering) (p : compare n 55296 ≡ a) (q : compare 57343 n ≡ b)
    (r : compare n 1114112 ≡ c)
    → IsScalar n
    → code (char_by n a b c p q r) ≡ n
unfolding char_by
code-char_by n Ordering.lt b c p q r s = refl
code-char_by n Ordering.eq Ordering.lt Ordering.lt p q r s = refl
code-char_by n Ordering.gt Ordering.lt Ordering.lt p q r s = refl
code-char_by n Ordering.eq Ordering.eq c p q r s = absurd (rw (p, q) at s)
code-char_by n Ordering.eq Ordering.gt c p q r s = absurd (rw (p, q) at s)
code-char_by n Ordering.gt Ordering.eq c p q r s = absurd (rw (p, q) at s)
code-char_by n Ordering.gt Ordering.gt c p q r s = absurd (rw (p, q) at s)
code-char_by n Ordering.eq Ordering.lt Ordering.eq p q r s = absurd (rw (p, q, r) at s)
code-char_by n Ordering.eq Ordering.lt Ordering.gt p q r s = absurd (rw (p, q, r) at s)
code-char_by n Ordering.gt Ordering.lt Ordering.eq p q r s = absurd (rw (p, q, r) at s)
code-char_by n Ordering.gt Ordering.lt Ordering.gt p q r s = absurd (rw (p, q, r) at s)

char_of-code : (c : Char) → char_of (code c) ≡ c
unfolding char_of
char_of-code (char n s) =
    Char-path (char_of n) (char n s)
      (code-char_by n (compare n 55296) (compare 57343 n) (compare n 1114112) refl refl refl s)

unfoldable pub text_of : List ℕ → String
text_of [] = ""
text_of (n ∷ ns) = String.◌∷◌ (char_of n) (text_of ns)

-- Decoding undoes encoding.
pub text_of-codes : (s : String) → text_of (codes s) ≡ s
unfolding text_of
text_of-codes String.[] = refl
text_of-codes (String.◌∷◌ c s) = rw (char_of-code c, text_of-codes s) refl
