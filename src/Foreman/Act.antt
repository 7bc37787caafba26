-- ===== src/Foreman/Act.antt =====
-- src/ai_pr_orchestrator/v3/foreman.py: how its methods run. A call takes the world (the services and
-- all that others do to them meanwhile) to the next one, and returns a value or raises.
use aipro.Prelude.{
  Bool, true, false, ◌≡◌, refl, Result, ok, err, Error, foreman_escalation, String, cond,
}
use aipro.Queue.Store.{chain}

abbrev pub Act : Type 0 → Type 0 → Type 0
Act S A = S → S × Result A

infixl 5 ◌>>=◌ ◌>>◌
unfoldable pub ◌>>=◌ : {S A C : Type 0} → Act S A → (A → Act S C) → Act S C
◌>>=◌ call next s = chain (call s) next

abbrev pub ◌>>◌ : {S C : Type 0} → Act S (Unit {0}) → Act S C → Act S C
call >> next = call >>= λ _. next

abbrev pub return : {S A : Type 0} → A → Act S A
return a s = (s, ok a)

abbrev pub raise : {S A : Type 0} → Error → Act S A
raise error s = (s, err error)

-- A step that does not call a service.
abbrev pub lift : {S A : Type 0} → Result A → Act S A
lift r s = (s, r)

-- `raise _ForemanEscalation(reason)`
abbrev pub escalation : {S A : Type 0} → String → Act S A
escalation reason = raise (foreman_escalation reason)

infix 1 if◌then◌else◌
-- A branch between two calls, which waits for its world.
unfoldable pub if◌then◌else◌ : {S A : Type 0} → Bool → Act S A → Act S A → Act S A
if◌then◌else◌ true x y s = x s
if◌then◌else◌ false x y s = y s

-- `if test: raise error`
abbrev pub raise_when : {S : Type 0} → Bool → Error → Act S (Unit {0})
raise_when test error = cond test (raise error) (return tt)

abbrev pub caught : {S A : Type 0} → S × Result A → (Error → Act S A) → S × Result A
caught (s, ok a) handler = (s, ok a)
caught (s, err error) handler = handler error s

-- `try: call except ...: handler`; a handler raises again what it does not handle.
unfoldable pub attempt : {S A : Type 0} → Act S A → (Error → Act S A) → Act S A
attempt call handler s = caught (call s) handler

abbrev pub caught_then :
    {S A C : Type 0} → S × Result A → (A → Act S C) → (Error → Act S C) → S × Result C
caught_then (s, ok a) next handler = next a s
caught_then (s, err error) next handler = handler error s

-- A first part of such a `try`, when the rest has its own handler.
unfoldable pub attempt_then :
    {S A C : Type 0} → Act S A → (A → Act S C) → (Error → Act S C) → Act S C
attempt_then call next handler s = caught_then (call s) next handler

abbrev pub cleaned : {S A : Type 0} → Result A → S × Result (Unit {0}) → S × Result A
cleaned r (s, ok u) = (s, r)
cleaned r (s, err error) = (s, err error)

abbrev pub closing : {S A : Type 0} → S × Result A → Act S (Unit {0}) → S × Result A
closing (s, r) last = cleaned r (last s)

-- `try: call finally: last`
unfoldable pub finally : {S A : Type 0} → Act S A → Act S (Unit {0}) → Act S A
finally call last s = closing (call s) last

-- What holds of the value, if the call returns one.
pub data Returns {S A : Type 0} (P : A → Type 0) : S × Result A → Type 0 where
  value : {s : S} {a : A} → P a → Returns P (s, ok a)
  raised : {s : S} {error : Error} → Returns P (s, err error)

pub any_value : {S A : Type 0} (x : S × Result A) → Returns (λ _. Unit {0}) x
any_value (s, ok a) = value tt
any_value (s, err error) = raised

module _ {S A : Type 0} where
  itself : (x : S × Result A) → Returns (λ a. (s : S) × (x ≡ (s, ok a))) x
  itself (s, ok a) = value (s, refl)
  itself (s, err error) = raised

  -- What a call returns is what it returned.
  pub answers : (call : Act S A) (s : S) → Returns (λ a. (s1 : S) × (call s ≡ (s1, ok a))) (call s)
  answers call s = itself (call s)

module _ {S A C : Type 0} {P : C → Type 0} where
  chain_case :
      {Q : A → Type 0} {x : S × Result A} (next : A → Act S C)
      → Returns Q x
      → ((a : A) (s : S) → Q a → Returns P (next a s))
      → Returns P (chain x next)
  chain_case next (value q) h = h _ _ q
  chain_case next raised h = raised

  -- From what the first part returns to what the whole returns.
  pub bind_post :
      {Q : A → Type 0} (call : Act S A) (next : A → Act S C) (s : S)
      → Returns Q (call s)
      → ((a : A) (s1 : S) → Q a → Returns P (next a s1))
      → Returns P ((call >>= next) s)
  unfolding ◌>>=◌
  bind_post call next s q h = chain_case next q h

  -- The same, with nothing known of the first part.
  pub bind :
      (call : Act S A) (next : A → Act S C) (s : S)
      → ((a : A) (s1 : S) → Returns P (next a s1))
      → Returns P ((call >>= next) s)
  bind call next s h = bind_post call next s (any_value (call s)) (λ a s1 _. h a s1)

  then_case :
      (x : S × Result A) (next : A → Act S C) (handler : Error → Act S C)
      → ((a : A) (s : S) → Returns P (next a s))
      → ((e : Error) (s : S) → Returns P (handler e s))
      → Returns P (caught_then x next handler)
  then_case (s, ok a) next handler h k = h a s
  then_case (s, err error) next handler h k = k error s

  pub attempt_then_post :
      (call : Act S A) (next : A → Act S C) (handler : Error → Act S C) (s : S)
      → ((a : A) (s1 : S) → Returns P (next a s1))
      → ((e : Error) (s1 : S) → Returns P (handler e s1))
      → Returns P (attempt_then call next handler s)
  unfolding attempt_then
  attempt_then_post call next handler s h k = then_case (call s) next handler h k

module _ {S A : Type 0} {P : A → Type 0} where
  caught_case :
      {x : S × Result A} (handler : Error → Act S A)
      → Returns P x
      → ((e : Error) (s : S) → Returns P (handler e s))
      → Returns P (caught x handler)
  caught_case handler (value p) h = value p
  caught_case handler raised h = h _ _

  pub attempt_post :
      (call : Act S A) (handler : Error → Act S A) (s : S)
      → Returns P (call s)
      → ((e : Error) (s1 : S) → Returns P (handler e s1))
      → Returns P (attempt call handler s)
  unfolding attempt
  attempt_post call handler s p h = caught_case handler p h

  cleaned_case : (a : A) (y : S × Result (Unit {0})) → P a → Returns P (cleaned (ok a) y)
  cleaned_case a (s, ok u) p = value p
  cleaned_case a (s, err e) p = raised

  raised_case : (error : Error) (y : S × Result (Unit {0})) → Returns P (cleaned (err error) y)
  raised_case error (s, ok u) = raised
  raised_case error (s, err e) = raised

  closing_case :
      {x : S × Result A} (last : Act S (Unit {0})) → Returns P x → Returns P (closing x last)
  closing_case last (value {s} {a} p) = cleaned_case a (last s) p
  closing_case last (raised {s} {error}) = raised_case error (last s)

  pub finally_post :
      (call : Act S A) (last : Act S (Unit {0})) (s : S)
      → Returns P (call s)
      → Returns P (finally call last s)
  unfolding finally
  finally_post call last s p = closing_case last p

  -- A split on a test in front of a call.
  pub if_post :
      (test : Bool) (x y : Act S A) (s : S)
      → (test ≡ true → Returns P (x s))
      → (test ≡ false → Returns P (y s))
      → Returns P ((if test then x else y) s)
  unfolding if◌then◌else◌
  if_post true x y s h k = h refl
  if_post false x y s h k = k refl

  -- A guard, and what follows it.
  pub guard_post :
      (test : Bool) (error : Error) (next : Act S A) (s : S)
      → (test ≡ false → Returns P (next s))
      → Returns P ((raise_when test error >> next) s)
  unfolding ◌>>=◌
  guard_post true error next s h = raised
  guard_post false error next s h = h refl

pub weaken :
    {S A : Type 0} {P Q : A → Type 0} {x : S × Result A}
    → ((a : A) → P a → Q a)
    → Returns P x
    → Returns Q x
weaken h (value p) = value (h _ p)
weaken h raised = raised

module _ {S A C : Type 0} where
  chain-eq-ok :
      (x : S × Result A) (next : A → Act S C) {s2 : S} {c : C}
      → chain x next ≡ (s2, ok c)
      → (a : A) × (s1 : S) × (x ≡ (s1, ok a)) × (next a s1 ≡ (s2, ok c))
  chain-eq-ok (s1, ok a) next h = (a, s1, refl, h)
  chain-eq-ok (s1, err e) next h = cc

  -- A sequence that returns: its first part returned, and the rest returned behind it.
  pub >>=-eq-ok :
      (call : Act S A) (next : A → Act S C) (s : S) {s2 : S} {c : C}
      → (call >>= next) s ≡ (s2, ok c)
      → (a : A) × (s1 : S) × (call s ≡ (s1, ok a)) × (next a s1 ≡ (s2, ok c))
  unfolding ◌>>=◌
  >>=-eq-ok call next s h = chain-eq-ok (call s) next h

pub guard-eq-ok :
    {S C : Type 0} (test : Bool) (error : Error) (next : Act S C) (s : S) {s2 : S} {c : C}
    → (raise_when test error >> next) s ≡ (s2, ok c)
    → (test ≡ false) × (next s ≡ (s2, ok c))
unfolding ◌>>=◌
guard-eq-ok true error next s h = cc
guard-eq-ok false error next s h = (refl, h)

-- A guard that stands last.
pub raise_when_post :
    {S : Type 0} (test : Bool) (error : Error) (s : S)
    → Returns (λ (u : Unit {0}). test ≡ false) (raise_when test error s)
raise_when_post true error s = raised
raise_when_post false error s = value refl
