-- ===== src/Base/Errors.antt =====
-- Python's exceptions as values: the class that the code raises or catches, and its text.
use Prim.Native.Nat.{ℕ}
use mathlib.Core.Path.{◌≡◌, refl}
use mathlib.Core.Bool.{Bool, true, false}
use mathlib.Core.List.{List, [], ◌∷◌}
use native.Mathlib.Omega.{arith}

-- `UnicodeError` and `JSONDecodeError` are subclasses of `ValueError`. `zlib.error`, which the
-- code does not catch, and what else it never raises by itself, is `other`. A loop of the model
-- that has spent its fuel ends with `out_of_fuel`.
pub data ErrorClass : Type 0 where
  value_error key_error os_error eof_error assertion_error runtime_error stop_iteration : ErrorClass
  index_error type_error other out_of_fuel : ErrorClass

pub record Error : Type 0 where
  pub class : ErrorClass
  pub message : List ℕ

-- What a call returns, or the exception that ends it.
pub data Result {ℓ} (A : Type ℓ) : Type ℓ where
  err : Error → Result A
  ok : A → Result A

abbrev pub raise {ℓ} : {A : Type ℓ} → ErrorClass → List ℕ → Result A
raise c m = err (record { class = c; message = m })

-- A guard of the form `if not c: raise`.
abbrev pub check : Bool → ErrorClass → List ℕ → Result (Unit {0})
check true c m = ok tt
check false c m = raise c m

module _ {ℓ κ} {A : Type ℓ} {B : Type κ} where
  infixl 5 ◌>>=◌
  -- The call, and what follows it.
  abbrev pub ◌>>=◌ : Result A → (A → Result B) → Result B
  call >>= next = elim call [ err e ↦ err e | ok a ↦ next a ]

  -- Where both return, the call returned a value and what follows returned from that.
  pub bind_inversion :
      (call : Result A) (next : A → Result B) {value : B}
      → call >>= next ≡ ok value
      → (a : A) × (call ≡ ok a) × (next a ≡ ok value)
  bind_inversion (err e) next h = absurd (ground arith)
  bind_inversion (ok a) next h = (a, refl, h)

infixl 5 ◌>>◌
abbrev pub ◌>>◌ {ℓ} : {B : Type ℓ} → Result (Unit {0}) → Result B → Result B
call >> next = elim call [ err e ↦ err e | ok u ↦ next ]

pub ok-injective {ℓ} : {A : Type ℓ} {a b : A} → ok a ≡ ok b → a ≡ b
ok-injective h = cc

pub check-eq-ok {ℓ} :
    {B : Type ℓ} (c : Bool) (k : ErrorClass) (m : List ℕ) (r : Result B) {b : B}
    → (check c k m >> r) ≡ ok b
    → (c ≡ true) × (r ≡ ok b)
check-eq-ok true k m r h = (refl, h)
check-eq-ok false k m r h = cc

-- `[f(x) for x in xs]` and `for x in xs: f(x)`, ended by the first error.
module _ {ℓ κ} {A : Type ℓ} {B : Type κ} where
  abbrev pub try_map : (A → Result B) → List A → Result (List B)
  try_map f [] = ok []
  try_map f (x ∷ xs) = let rest = try_map f xs in f x >>= λ y. rest >>= λ ys. ok (y ∷ ys)

module _ {ℓ} {A : Type ℓ} where
  abbrev pub try_all : (A → Result (Unit {0})) → List A → Result (Unit {0})
  try_all f [] = ok tt
  try_all f (x ∷ xs) = let rest = try_all f xs in f x >> rest
