-- ===== src/Outcome/Rules.antt =====
-- An invariant of the state through the combinators of Outcome.
use amt_uefi_boot_app.Outcome.{Outcome, ok, err, panics, waits, Error, Action, and_then, on_result}

abbrev pub OkIs : {A : Type 0} → (A → Type 0) → Outcome A → Type 0
OkIs Q (ok a) = Q a
OkIs Q (err e) = Unit
OkIs Q panics = Unit
OkIs Q waits = Unit

module _ {S A B : Type 0} (P : S → Type 0) (Q : A → Type 0) (k : A → Action S B) where
  pub and_then_keeps :
      (r : Outcome A × S)
      → P r.1
      → OkIs Q r.0
      → ((a : A) (s : S) → P s → Q a → P (k a s).1)
      → P (and_then r k).1
  and_then_keeps (ok a, s) p q f = f a s p q
  and_then_keeps (err e, s) p q f = p
  and_then_keeps (panics, s) p q f = p
  and_then_keeps (waits, s) p q f = p

  pub on_result_keeps :
      (h : Error → Action S B) (r : Outcome A × S)
      → P r.1
      → OkIs Q r.0
      → ((a : A) (s : S) → P s → Q a → P (k a s).1)
      → ((e : Error) (s : S) → P s → P (h e s).1)
      → P (on_result r k h).1
  on_result_keeps h (ok a, s) p q f g = f a s p q
  on_result_keeps h (err e, s) p q f g = g e s p
  on_result_keeps h (panics, s) p q f g = p
  on_result_keeps h (waits, s) p q f g = p

pub OkIs-any : {A : Type 0} (o : Outcome A) → OkIs (λ _. Unit {0}) o
OkIs-any (ok a) = tt
OkIs-any (err e) = tt
OkIs-any panics = tt
OkIs-any waits = tt

-- What holds of every result, through a chain of calls.
pub OkIs-and_then :
    {S A B : Type 0} (R : A → Type 0) (Q : B → Type 0) (k : A → Action S B) (r : Outcome A × S)
    → OkIs R r.0
    → ((a : A) (s : S) → R a → OkIs Q (k a s).0)
    → OkIs Q (and_then r k).0
OkIs-and_then R Q k (ok a, s) p f = f a s p
OkIs-and_then R Q k (err e, s) p f = tt
OkIs-and_then R Q k (panics, s) p f = tt
OkIs-and_then R Q k (waits, s) p f = tt

-- A call that comes back: with a result of this kind, or with an error.
abbrev pub Gives : {A : Type 0} → (A → Type 0) → Outcome A → Type 0
Gives Q (ok a) = Q a
Gives Q (err e) = Unit
Gives Q panics = ⊥
Gives Q waits = ⊥

pub Gives-and_then :
    {S A B : Type 0} (R : A → Type 0) (Q : B → Type 0) (k : A → Action S B) (r : Outcome A × S)
    → Gives R r.0
    → ((a : A) (s : S) → R a → Gives Q (k a s).0)
    → Gives Q (and_then r k).0
Gives-and_then R Q k (ok a, s) p f = f a s p
Gives-and_then R Q k (err e, s) p f = tt
Gives-and_then R Q k (panics, s) p f = absurd p
Gives-and_then R Q k (waits, s) p f = absurd p

-- A call that does not panic: with a result of this kind, with an error, or not back yet.
abbrev pub Calm : {A : Type 0} → (A → Type 0) → Outcome A → Type 0
Calm Q (ok a) = Q a
Calm Q (err e) = Unit
Calm Q panics = ⊥
Calm Q waits = Unit

pub Calm-and_then :
    {S A B : Type 0} (R : A → Type 0) (Q : B → Type 0) (k : A → Action S B) (r : Outcome A × S)
    → Calm R r.0
    → ((a : A) (s : S) → R a → Calm Q (k a s).0)
    → Calm Q (and_then r k).0
Calm-and_then R Q k (ok a, s) p f = f a s p
Calm-and_then R Q k (err e, s) p f = tt
Calm-and_then R Q k (panics, s) p f = absurd p
Calm-and_then R Q k (waits, s) p f = tt
