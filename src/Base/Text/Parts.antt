-- ===== src/Base/Text/Parts.antt =====
-- `split`, `trim` and their converse on texts, and `new Set(texts).size === texts.length`.
use Prim.Native.Char.{Char, code}
use text.Mathlib.TextLemmas.{nil-append, cons-append}
use Prim.Native.String.{◌++◌}
use ai_agent_runner.Base.{
  ℕ, String, ◌≡◌, refl, ◌≢◌, Bool, true, false, not, ◌&&◌, ◌==◌, List, [], ◌∷◌, arith, nat_beq,
  if◌then◌else◌, ap,
}
use ai_agent_runner.Base.Lists.{all, any, All}
use ai_agent_runner.Base.Text.{codes}

abbrev onto_first : Char → List String → List String
onto_first c [] = String.◌∷◌ c "" ∷ []
onto_first c (part ∷ parts) = String.◌∷◌ c part ∷ parts

-- `value.split(separator)` for a separator of one character.
unfoldable pub split : Char → String → List String
split separator String.[] = "" ∷ []
split separator (String.◌∷◌ c s) =
    let rest = split separator s in
    if nat_beq (code c) (code separator) then "" ∷ rest else onto_first c rest

-- `parts.join(separator)`.
unfoldable pub join : Char → List String → String
join separator [] = ""
join separator (part ∷ []) = part
join separator (part ∷ next ∷ parts) = part ++ String.◌∷◌ separator (join separator (next ∷ parts))

abbrev pub Lacks : Char → String → Type 0
Lacks separator s = all (λ c. not (nat_beq c (code separator))) (codes s) ≡ true

module _ (space : ℕ → Bool) where
  abbrev trim_start : String → String
  trim_start String.[] = ""
  trim_start (String.◌∷◌ c s) =
      let rest = trim_start s in if space (code c) then rest else String.◌∷◌ c s

  abbrev trim_end : String → String
  trim_end String.[] = ""
  trim_end (String.◌∷◌ c s) =
      if all space (codes (String.◌∷◌ c s)) then "" else String.◌∷◌ c (trim_end s)

  -- The text without the characters of the class at its two ends.
  unfoldable pub trim_by : String → String
  trim_by s = trim_start (trim_end s)

-- `xs.includes(x)` on texts.
abbrev pub includes_text : List String → String → Bool
includes_text xs x = any (λ y. y == x) xs

abbrev pub distinct_texts : List String → Bool
distinct_texts [] = true
distinct_texts (x ∷ xs) = not (includes_text xs x) && distinct_texts xs

module _ (separator : Char) where
  split_at_end : (p : String) → Lacks separator p → split separator p ≡ p ∷ []
  unfolding split
  split_at_end String.[] h = refl
  split_at_end (String.◌∷◌ c p) h = ground (arith, split_at_end p)

  split-append :
      (p s : String)
      → Lacks separator p
      → split separator (p ++ String.◌∷◌ separator s) ≡ p ∷ split separator s
  unfolding split
  split-append String.[] s h = rw (nil-append (String.◌∷◌ separator s)) (ground arith)
  split-append (String.◌∷◌ c p) s h =
      rw (cons-append c p (String.◌∷◌ separator s)) (ground (arith, split-append p s))

  -- Parts without the separator are split again as they were joined.
  pub split-join :
      (ps : List String)
      → ps ≢ []
      → All (Lacks separator) ps
      → split separator (join separator ps) ≡ ps
  unfolding join
  split-join [] ne h = absurd (ne refl)
  split-join (p ∷ []) ne (hp, h) = split_at_end p hp
  split-join (p ∷ q ∷ ps) ne (hp, h) =
      rw (split-append p (join separator (q ∷ ps)) hp)
        (ap (λ rest. p ∷ rest) (split-join (q ∷ ps) (cc) h))

  Lacks-append :
      (p s : String) (c : Char)
      → Lacks separator p
      → Lacks separator (String.◌∷◌ c s)
      → Lacks separator (p ++ String.◌∷◌ c s)
  Lacks-append String.[] s c h k = rw (nil-append (String.◌∷◌ c s)) k
  Lacks-append (String.◌∷◌ d p) s c h k =
      rw (cons-append d p (String.◌∷◌ c s)) (ground (arith, Lacks-append p s c))

  -- Joining with another separator brings in none of this one.
  pub join-Lacks :
      (other : Char) (ps : List String)
      → nat_beq (code other) (code separator) ≡ false
      → All (Lacks separator) ps
      → Lacks separator (join other ps)
  unfolding join
  join-Lacks other [] ne h = refl
  join-Lacks other (p ∷ []) ne (hp, h) = hp
  join-Lacks other (p ∷ q ∷ ps) ne (hp, h) =
      let rest = join-Lacks other (q ∷ ps) ne h in
      Lacks-append p (join other (q ∷ ps)) other hp (rw ne rest)

tests : (split ";" "a;;b" ≡ "a" ∷ "" ∷ "b" ∷ []) × (trim_by (λ c. nat_beq c 32) "  a b " ≡ "a b")
unfolding split trim_by
tests = (refl, refl)
