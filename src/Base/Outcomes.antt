-- ===== src/Base/Outcomes.antt =====
-- What a Go function with an error result does: return a value, return an error, panic, or
-- (in the model only) run out of the fuel that a loop was given.
use mathlib.Core.Path.{◌≡◌, refl, subst}
use mathlib.Core.Logic.{◌≢◌}
use mathlib.Core.Bool.{Bool, true, false}
use uefi.Base.Tests.{if◌then◌else◌}

-- One constructor for each error site, wrapped errors by what `errors.Is` finds in them.
pub data Error : Type 0 where
  not_exist too_large os_error : Error
  file_too_small bad_signature not_formatted not_healthy : Error
  end_of_region header_truncated name_beyond_store data_beyond_store beyond_store : Error
  store_beyond_file store_full odd_length : Error
  size_too_small not_supported : Error
  path_too_long path_header_truncated node_too_short node_beyond_buffer : Error
  end_node_inside node_too_long guard_tripped : Error
  option_too_long option_truncated unterminated path_beyond_buffer path_overflow : Error
  bad_length not_set no_free_slot : Error
  no_signer no_auth_attr sign_failed marshal_failed time_truncated auth_too_small : Error
  bad_revision bad_cert_type bad_cert_length : Error

pub data Result {ℓ} (V : Type ℓ) : Type ℓ where
  panic : Result V
  out_of_fuel : Result V
  err : Error → Result V
  ok : V → Result V

-- `if !test { return err }`
abbrev pub guard : Bool → Error → Result (Unit {0})
guard true e = ok tt
guard false e = err e

-- Only a value goes on to what follows; a panic, an error or the end of the fuel is the outcome.
infixl 5 ◌>>=◌
abbrev pub ◌>>=◌ {ℓ κ} : {V : Type ℓ} {W : Type κ} → Result V → (V → Result W) → Result W
panic >>= next = panic
out_of_fuel >>= next = out_of_fuel
err e >>= next = err e
ok v >>= next = next v

infixl 5 ◌>>◌
abbrev pub ◌>>◌ {κ} : {W : Type κ} → Result (Unit {0}) → Result W → Result W
checked >> next = checked >>= λ _. next

-- The run ends in a value that satisfies `P` or in an error: it neither panics nor hangs.
pub data Ensures {ℓ κ} {A : Type ℓ} (P : A → Type κ) : Result A → Type (ℓ ⊔ κ) where
  returns : {a : A} → P a → Ensures P (ok a)
  fails : {e : Error} → Ensures P (err e)

module _ {ℓ κ} {A : Type ℓ} {P : A → Type κ} where
  pub Ensures-ok : {r : Result A} {a : A} → Ensures P r → r ≡ ok a → P a
  Ensures-ok (returns h) e = subst P (cc) h
  Ensures-ok fails e = cc

  pub Ensures-ne-panic : {r : Result A} → Ensures P r → r ≢ panic
  Ensures-ne-panic (returns h) = cc
  Ensures-ne-panic fails = cc

  pub Ensures-ne-out_of_fuel : {r : Result A} → Ensures P r → r ≢ out_of_fuel
  Ensures-ne-out_of_fuel (returns h) = cc
  Ensures-ne-out_of_fuel fails = cc

  pub Ensures-at : {r : Result A} (a : A) → r ≡ ok a → P a → Ensures P r
  Ensures-at a e h = rw e (returns h)

  pub Ensures-if :
      (b : Bool) {x y : Result A}
      → (b ≡ true → Ensures P x)
      → (b ≡ false → Ensures P y)
      → Ensures P (if b then x else y)
  Ensures-if true hx hy = hx refl
  Ensures-if false hx hy = hy refl

  pub Ensures-guard :
      (b : Bool) (e : Error) {k : Result A} → (b ≡ true → Ensures P k) → Ensures P (guard b e >> k)
  Ensures-guard true e h = h refl
  Ensures-guard false e h = fails

  pub Ensures-bind {ℓ' κ'} :
      {B : Type ℓ'} {Q : B → Type κ'} {r : Result A} {f : A → Result B}
      → Ensures P r
      → ((a : A) → P a → Ensures Q (f a))
      → Ensures Q (r >>= f)
  Ensures-bind (returns {a} h) k = k a h
  Ensures-bind fails k = fails

-- A step whose value is used with the equation for it.
pub Ensures-bind_eq {ℓ κ ℓ' κ'} :
    {A : Type ℓ} {P : A → Type κ} {B : Type ℓ'} {Q : B → Type κ'} (r : Result A) {f : A → Result B}
    → Ensures P r
    → ((a : A) → r ≡ ok a → P a → Ensures Q (f a))
    → Ensures Q (r >>= f)
Ensures-bind_eq _ (returns {a} h) k = k a refl h
Ensures-bind_eq _ fails k = fails

pub Ensures-map {ℓ κ κ'} :
    {A : Type ℓ} {P : A → Type κ} {Q : A → Type κ'} {r : Result A}
    → Ensures P r
    → ((a : A) → P a → Q a)
    → Ensures Q r
Ensures-map (returns {a} h) f = returns (f a h)
Ensures-map fails f = fails

pub ok-injective {ℓ} : {V : Type ℓ} {x y : V} → ◌≡◌ {A = Result V} (ok x) (ok y) → x ≡ y
ok-injective h = cc

-- A run that goes on to a value had a value to go on with.
pub >>=-eq-ok {ℓ κ} :
    {V : Type ℓ} {W : Type κ} (r : Result V) (next : V → Result W) {w : W}
    → (r >>= next) ≡ ok w
    → (v : V) × (r ≡ ok v) × (next v ≡ ok w)
>>=-eq-ok panic next e = cc
>>=-eq-ok out_of_fuel next e = cc
>>=-eq-ok (err x) next e = cc
>>=-eq-ok (ok v) next e = (v, refl, e)

-- Where the run ends in a value, the value satisfies `P`.
pub data Yields {ℓ κ} {A : Type ℓ} (P : A → Type κ) : Result A → Type (ℓ ⊔ κ) where
  yields : {a : A} → P a → Yields P (ok a)
  yields_err : {e : Error} → Yields P (err e)
  yields_panic : Yields P panic
  yields_out_of_fuel : Yields P out_of_fuel

module _ {ℓ κ} {A : Type ℓ} {P : A → Type κ} where
  pub Yields-if :
      (b : Bool) {x y : Result A}
      → (b ≡ true → Yields P x)
      → (b ≡ false → Yields P y)
      → Yields P (if b then x else y)
  Yields-if true hx hy = hx refl
  Yields-if false hx hy = hy refl

  pub Yields-guard :
      (b : Bool) (e : Error) {k : Result A} → (b ≡ true → Yields P k) → Yields P (guard b e >> k)
  Yields-guard true e h = h refl
  Yields-guard false e h = yields_err

  pub Yields-bind {ℓ' κ'} :
      {B : Type ℓ'} {Q : B → Type κ'} {r : Result B} {f : B → Result A}
      → Yields Q r
      → ((b : B) → Q b → Yields P (f b))
      → Yields P (r >>= f)
  Yields-bind (yields {a = b} h) k = k b h
  Yields-bind yields_err k = yields_err
  Yields-bind yields_panic k = yields_panic
  Yields-bind yields_out_of_fuel k = yields_out_of_fuel

  pub Yields-map {κ'} :
      {Q : A → Type κ'} {r : Result A} → Yields Q r → ((a : A) → Q a → P a) → Yields P r
  Yields-map (yields {a} h) f = yields (f a h)
  Yields-map yields_err f = yields_err
  Yields-map yields_panic f = yields_panic
  Yields-map yields_out_of_fuel f = yields_out_of_fuel

  -- A step whose value does not matter.
  pub Yields-after {ℓ'} :
      {B : Type ℓ'} (r : Result B) {f : B → Result A}
      → ((b : B) → Yields P (f b))
      → Yields P (r >>= f)
  Yields-after (ok b) k = k b
  Yields-after (err e) k = yields_err
  Yields-after panic k = yields_panic
  Yields-after out_of_fuel k = yields_out_of_fuel

  pub Yields-after_eq {ℓ'} :
      {B : Type ℓ'} (r : Result B) {f : B → Result A}
      → ((b : B) → r ≡ ok b → Yields P (f b))
      → Yields P (r >>= f)
  Yields-after_eq (ok b) k = k b refl
  Yields-after_eq (err e) k = yields_err
  Yields-after_eq panic k = yields_panic
  Yields-after_eq out_of_fuel k = yields_out_of_fuel

  -- What a run ensures and what it yields, together.
  pub Ensures-and {κ'} :
      {Q : A → Type κ'} {r : Result A} → Ensures Q r → Yields P r → Ensures (λ a. Q a × P a) r
  Ensures-and (returns h) (yields y) = returns (h, y)
  Ensures-and fails yields_err = fails

  pub Yields-ok : {r : Result A} {a : A} → Yields P r → r ≡ ok a → P a
  Yields-ok (yields h) e = subst P (cc) h
  Yields-ok yields_err e = cc
  Yields-ok yields_panic e = cc
  Yields-ok yields_out_of_fuel e = cc
