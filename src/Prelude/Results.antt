-- ===== src/Prelude/Results.antt =====
-- What a function that may throw returns: a value, or the error with its class and message.
use Prim.Native.String.{String}
use mathlib.Core.Path.{◌≡◌, refl}
use mathlib.Core.Logic.{◌⊎◌, inl, inr}
use mathlib.Core.Bool.{Bool, true, false}
use mathlib.Core.Option.{Option, none, some}
use mathlib.Core.List.{List, [], ◌∷◌}

pub data Failure : Type 0 where
  type_error : String → Failure
  range_error : String → Failure

pub data Result {ℓ} (T : Type ℓ) : Type ℓ where
  ok : T → Result T
  throw : Failure → Result T

-- The next statement, of what the first returns.
abbrev pub ◌>>=◌ {ℓ κ} : {S : Type ℓ} {T : Type κ} → Result S → (S → Result T) → Result T
throw failure >>= next = throw failure
ok value >>= next = next value

-- `if (!test) throw failure`
abbrev pub ensure : Bool → Failure → Result (Unit {0})
ensure false failure = throw failure
ensure true failure = ok tt

abbrev pub or_throw {ℓ} : {T : Type ℓ} → Option T → Failure → Result T
or_throw none failure = throw failure
or_throw (some value) failure = ok value

-- The next statement, past a check.
abbrev pub ◌>>◌ {ℓ} : {T : Type ℓ} → Result (Unit {0}) → Result T → Result T
check >> next = check >>= λ _. next

infixl 5 ◌>>=◌ ◌>>◌
-- `values.map(f)` where `f` may throw
abbrev pub map_result {ℓ κ} : {S : Type ℓ} {T : Type κ} → (S → Result T) → List S → Result (List T)
map_result f [] = ok []
map_result f (x ∷ xs) = f x >>= λ y. map_result f xs >>= λ ys. ok (y ∷ ys)

pub Result-cases {ℓ} :
    {T : Type ℓ} (r : Result T)
    → ((value : T) × (r ≡ ok value)) ⊎ ((failure : Failure) × (r ≡ throw failure))
Result-cases (throw failure) = inr (failure, refl)
Result-cases (ok value) = inl (value, refl)

pub >>=-eq-ok {ℓ κ} :
    {S : Type ℓ} {T : Type κ} (r : Result S) (next : S → Result T) {end : T}
    → (r >>= next) ≡ ok end
    → (value : S) × (r ≡ ok value) × (next value ≡ ok end)
>>=-eq-ok (throw failure) next h = cc
>>=-eq-ok (ok value) next h = (value, refl, h)
