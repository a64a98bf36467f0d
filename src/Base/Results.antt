-- ===== src/Base/Results.antt =====
-- A value or an error, for Go's `(T, error)`.
use mathlib.Core.Path.{◌≡◌, refl}
use mathlib.Core.Logic.{◌⊎◌, inl, inr}

pub data Result {ε ℓ} (Failure : Type ε) (Value : Type ℓ) : Type (ε ⊔ ℓ) where
  err : Failure → Result Failure Value
  ok : Value → Result Failure Value

module _ {ε} {Failure : Type ε} where
  infixl 5 ◌>>=◌ ◌>>◌
  -- `if err != nil { return err }`.
  abbrev pub ◌>>=◌ {ℓ κ} :
      {V : Type ℓ} {V' : Type κ} → Result Failure V → (V → Result Failure V') → Result Failure V'
  err failure >>= next = err failure
  ok value >>= next = next value

  -- The same after a call that gives nothing but its error.
  abbrev pub ◌>>◌ {ℓ} :
      {V : Type ℓ} → Result Failure (Unit {0}) → Result Failure V → Result Failure V
  first >> then = first >>= λ _. then

  -- What a chain that succeeded went through.
  pub >>=-eq-ok {ℓ κ} :
      {V : Type ℓ} {V' : Type κ} (first : Result Failure V) (next : V → Result Failure V') {v' : V'}
      → (first >>= next) ≡ ok v'
      → (v : V) × (first ≡ ok v) × (next v ≡ ok v')
  >>=-eq-ok (err failure) next h = cc
  >>=-eq-ok (ok v) next h = (v, refl, h)

  pub Result-cases {ℓ} :
      {V : Type ℓ} (r : Result Failure V)
      → ((v : V) × (r ≡ ok v)) ⊎ ((failure : Failure) × (r ≡ err failure))
  Result-cases (err failure) = inr (failure, refl)
  Result-cases (ok v) = inl (v, refl)
