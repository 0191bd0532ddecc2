-- ===== src/Outcome.antt =====
-- src/error.rs: the errors, and what a call of the program comes back with. A method that takes
-- `&mut self` is a function from the state to its outcome and the state that it leaves, so that
-- what a failed call has already changed stays visible.
pub mod Rules
use amt_uefi_boot_app.Prelude.{ℕ, Bool, true, false}

-- `enum Error`
pub data Error : Type 0 where
  timeout not_found device_error buffer_too_small unsupported : Error
  access_denied protocol_error aborted : Error
  amt_status : ℕ → Error
  http_status : ℕ → Error

-- `Result<T>`, with two ends more. `panics` is an index or a range out of bounds (the panic
-- strategy is abort). `waits` is a loop that the hardware has not let end within the given fuel.
pub data Outcome {ℓ} (A : Type ℓ) : Type ℓ where
  ok : A → Outcome A
  err : Error → Outcome A
  panics : Outcome A
  waits : Outcome A

abbrev pub Action : Type 0 → Type 0 → Type 0
Action S A = S → Outcome A × S

abbrev pub pure : {S A : Type 0} → A → Action S A
pure a s = (ok a, s)

abbrev pub fail : {S A : Type 0} → Error → Action S A
fail e s = (err e, s)

abbrev pub panic : {S A : Type 0} → Action S A
panic s = (panics, s)

abbrev pub modify : {S : Type 0} → (S → S) → Action S (Unit {0})
modify f s = (ok tt, f s)

abbrev pub get : {S : Type 0} → Action S S
get s = (ok s, s)

abbrev pub and_then : {S A B : Type 0} → Outcome A × S → (A → Action S B) → Outcome B × S
and_then (ok a, s) k = k a s
and_then (err e, s) k = (err e, s)
and_then (panics, s) k = (panics, s)
and_then (waits, s) k = (waits, s)

infixl 5 ◌>>=◌ ◌>>◌
abbrev pub ◌>>=◌ : {S A B : Type 0} → Action S A → (A → Action S B) → Action S B
◌>>=◌ m k s = and_then (m s) k

abbrev pub ◌>>◌ : {S B : Type 0} → Action S (Unit {0}) → Action S B → Action S B
m >> k = m >>= λ _. k

-- `let _ = call();`: an error is dropped, a panic is not.
abbrev pub dropped : {S : Type 0} → Outcome (Unit {0}) × S → Outcome (Unit {0}) × S
dropped (err e, s) = (ok tt, s)
dropped (ok a, s) = (ok tt, s)
dropped (panics, s) = (panics, s)
dropped (waits, s) = (waits, s)

abbrev pub ignore : {S : Type 0} → Action S (Unit {0}) → Action S (Unit {0})
ignore m s = dropped (m s)

-- `match call() { Ok(a) => .., Err(e) => .. }`
abbrev pub on_result :
    {S A B : Type 0} → Outcome A × S → (A → Action S B) → (Error → Action S B) → Outcome B × S
on_result (ok a, s) k h = k a s
on_result (err e, s) k h = h e s
on_result (panics, s) k h = (panics, s)
on_result (waits, s) k h = (waits, s)

-- A range or an index that is checked.
abbrev pub in_bounds : {S : Type 0} → Bool → Action S (Unit {0})
in_bounds true s = (ok tt, s)
in_bounds false s = (panics, s)

-- The call returned to its caller, with a value or with an error.
abbrev pub Returns {ℓ} : {A : Type ℓ} → Outcome A → Type 0
Returns (ok a) = Unit
Returns (err e) = Unit
Returns panics = ⊥
Returns waits = ⊥
