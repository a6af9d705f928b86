-- ===== src/Exec.antt =====
-- Computations with external calls, over any type of calls. The outside answers each call from the
-- history of the calls before it, so an answer may depend on all that happened, and other writers
-- may act between two calls. A computation returns its result or what it throws, and the history,
-- the latest call first.
use ai_agent_runner.Base.{◌≡◌, refl, List, ◌∷◌}
use ai_agent_runner.Failure.{Failure, Result, ok, err}

abbrev pub Exec : Type 0 → Type 0 → Type 0
Exec E A = List E → Result A × List E

-- The rest of a computation, after a result.
abbrev pub continue : {E A B : Type 0} → (A → Exec E B) → Result A → Exec E B
continue f (ok a) h = f a h
continue f (err e) h = (err e, h)

infixl 5 ◌>>=◌ ◌>>◌
abbrev pub ◌>>=◌ : {E A B : Type 0} → Exec E A → (A → Exec E B) → Exec E B
◌>>=◌ m f h = let (r, h') = m h in continue f r h'

abbrev pub ◌>>◌ : {E B : Type 0} → Exec E (Unit {0}) → Exec E B → Exec E B
m >> k = m >>= λ _. k

abbrev pub pure : {E A : Type 0} → A → Exec E A
pure a h = (ok a, h)

abbrev pub throw : {E A : Type 0} → Failure → Exec E A
throw e h = (err e, h)

abbrev pub lift : {E A : Type 0} → Result A → Exec E A
lift r h = (r, h)

-- A call: it is recorded, whatever the answer.
abbrev pub call : {E A : Type 0} → E → (List E → Result A) → Exec E A
call e respond h = (respond h, e ∷ h)

abbrev rescue : {E A : Type 0} → (Failure → Exec E A) → Result A → Exec E A
rescue handler (ok a) h = (ok a, h)
rescue handler (err e) h = handler e h

-- `try { m } catch (error) { handler(error) }`.
abbrev pub catching : {E A : Type 0} → Exec E A → (Failure → Exec E A) → Exec E A
catching m handler h = let (r, h') = m h in rescue handler r h'

-- `try { m }` with its outcome as a value.
abbrev pub attempt : {E A : Type 0} → Exec E A → Exec E (Result A)
attempt m h = let (r, h') = m h in (ok r, h')

-- A failing cleanup replaces the outcome of the body.
abbrev after_cleanup : {E A : Type 0} → Result A → Result (Unit {0}) × List E → Result A × List E
after_cleanup r (ok u, h) = (r, h)
after_cleanup r (err e, h) = (err e, h)

-- `try { m } finally { cleanup }`.
abbrev pub finally : {E A : Type 0} → Exec E A → Exec E (Unit {0}) → Exec E A
finally m cleanup h = let (r, h') = m h in after_cleanup r (cleanup h')

module _ {E A B : Type 0} (m : Exec E A) (f : A → Exec E B) where
  bind_at :
      (s : Result A × List E) (h : List E) {b : B} {h'' : List E}
      → m h ≡ s
      → continue f s.0 s.1 ≡ (ok b, h'')
      → (a : A) × (h' : List E) × (m h ≡ (ok a, h')) × (f a h' ≡ (ok b, h''))
  bind_at (ok a, h') h e p = (a, h', e, p)
  bind_at (err x, h') h e p = cc

  -- Inversion of a successful sequence.
  pub bind-eq-ok :
      (h : List E) {b : B} {h'' : List E}
      → (m >>= f) h ≡ (ok b, h'')
      → (a : A) × (h' : List E) × (m h ≡ (ok a, h')) × (f a h' ≡ (ok b, h''))
  bind-eq-ok h p = bind_at (m h) h refl p

module _ {E A B : Type 0} (f : A → Exec E B) where
  call_at :
      (answer r : Result A) (h : List E) {b : B} {h' : List E}
      → answer ≡ r
      → continue f r h ≡ (ok b, h')
      → (a : A) × (answer ≡ ok a) × (f a h ≡ (ok b, h'))
  call_at answer (ok a) h q p = (a, q, p)
  call_at answer (err x) h q p = cc

  pub call-eq-ok :
      (e : E) (respond : List E → Result A) (h : List E) {b : B} {h' : List E}
      → (call e respond >>= f) h ≡ (ok b, h')
      → (a : A) × (respond h ≡ ok a) × (f a (e ∷ h) ≡ (ok b, h'))
  call-eq-ok e respond h p = call_at (respond h) (respond h) (e ∷ h) refl p

  pub lift-eq-ok :
      (r : Result A) (h : List E) {b : B} {h' : List E}
      → (lift r >>= f) h ≡ (ok b, h')
      → (a : A) × (r ≡ ok a) × (f a h ≡ (ok b, h'))
  lift-eq-ok r h p = call_at r r h refl p
