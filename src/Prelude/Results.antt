-- ===== src/Prelude/Results.antt =====
-- Exceptions as values. One constructor for each exception class that the modelled code raises.
use Prim.Native.Nat.{ℕ}
use Prim.Native.String.{String}
use mathlib.Core.Path.{◌≡◌, refl}
use mathlib.Core.Logic.{◌⊎◌, inl, inr}
use mathlib.Core.Bool.{Bool, true, false}

pub data Error : Type 0 where
  -- domain.py, lanes.py, interfaces.py, queue.py
  domain_error unknown_lane lane_registry_error : Error
  value_error key_error type_error runtime_error : Error
  state_conflict claim_conflict no_active_claim block_too_large malformed_state label_sync : Error
  -- catalog.py, broker.py, telemetry.py
  model_catalog_error broker_error telemetry_error assertion_error : Error
  -- foreman.py and cao.py; an escalation with its reason, an HTTP error with its status code
  foreman_ownership foreman_queue pr_reconciliation : Error
  cao_transport session_busy session_identity_uncertain : Error
  foreman_escalation : String → Error
  http_status : ℕ → Error

-- A value, or the exception that was raised in its place.
pub data Result {ℓ} (V : Type ℓ) : Type ℓ where
  ok : V → Result V
  err : Error → Result V

-- `if test: raise error`
abbrev pub raise_if : Bool → Error → Result (Unit {0})
raise_if false error = ok tt
raise_if true error = err error

infixl 5 ◌>>=◌
abbrev pub ◌>>=◌ {ℓ κ} : {V : Type ℓ} {W : Type κ} → Result V → (V → Result W) → Result W
err error >>= next = err error
ok v >>= next = next v

infixl 5 ◌>>◌
abbrev pub ◌>>◌ {ℓ} : {W : Type ℓ} → Result (Unit {0}) → Result W → Result W
first >> second = first >>= λ _. second

-- A bind that returns: the first part returned a value, and the rest returned from it.
pub >>=-eq-ok {ℓ κ} :
    {V : Type ℓ} {W : Type κ} (first : Result V) (next : V → Result W) {w : W}
    → (first >>= next) ≡ ok w
    → (v : V) × (first ≡ ok v) × (next v ≡ ok w)
>>=-eq-ok (err error) next h = cc
>>=-eq-ok (ok v) next h = (v, refl, h)

pub ok_inj {ℓ} : {A : Type ℓ} {a b : A} → ok a ≡ ok b → a ≡ b
ok_inj h = cc

-- A guard that was passed, and what follows it.
pub raise_if-ok {ℓ} :
    {W : Type ℓ} (test : Bool) (error : Error) (rest : Result W) {w : W}
    → (raise_if test error >> rest) ≡ ok w
    → (test ≡ false) × (rest ≡ ok w)
raise_if-ok false error rest h = (refl, h)
raise_if-ok true error rest h = cc

pub raise_if_passed {ℓ} :
    {W : Type ℓ} (test : Bool) (error : Error) (rest : Result W)
    → test ≡ false
    → (raise_if test error >> rest) ≡ rest
raise_if_passed true error rest h = cc
raise_if_passed false error rest h = refl

pub Result-cases {ℓ} :
    {V : Type ℓ} (r : Result V) → ((v : V) × (r ≡ ok v)) ⊎ ((error : Error) × (r ≡ err error))
Result-cases (ok v) = inl (v, refl)
Result-cases (err error) = inr (error, refl)
