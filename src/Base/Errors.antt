-- ===== src/Base/Errors.antt =====
-- A Go pair of a value and an error, of which one counts. `err` holds what `Error()` returns.
use mathlib.Core.Path.{◌≡◌, refl}
use mathlib.Core.Logic.{◌⊎◌, ◌↔◌, inl, inr}
use mathlib.Core.Bool.{Bool, true, false}
use tunnel_ops.Base.Text.{Str}
use mathlib.Core.List.{◌++◌}

pub data Except {ℓ} (Value : Type ℓ) : Type ℓ where
  err : (text : Str) → Except Value
  ok : (value : Value) → Except Value

infixl 5 ◌>>◌
-- `if err != nil { return err }`, and what comes behind it.
module _ {ℓ κ} {V : Type ℓ} {W : Type κ} where
  infixl 5 ◌>>=◌
  abbrev pub ◌>>=◌ : Except V → (V → Except W) → Except W
  err text >>= next = err text
  ok value >>= next = next value

  pub >>=-eq-ok :
      (m : Except V) (next : V → Except W) {w : W}
      → (m >>= next) ≡ ok w
      → (v : V) × (m ≡ ok v) × (next v ≡ ok w)
  >>=-eq-ok (err text) next h = cc
  >>=-eq-ok (ok v) next h = (v, refl, h)

-- `if bad { return err }`
abbrev pub fail_if : Bool → Str → Except (Unit {0})
fail_if false e = ok tt
fail_if true e = err e

-- A check, and what comes behind it.
abbrev pub ◌>>◌ {κ} : {W : Type κ} → Except (Unit {0}) → Except W → Except W
checked >> next = checked >>= λ ok_so_far. next

-- `fmt.Errorf("...: %w", err)`
abbrev pub wrap {ℓ} : {A : Type ℓ} → Str → Except A → Except A
wrap prefix (ok a) = ok a
wrap prefix (err e) = err (prefix ++ e)

pub Except-cases {ℓ} :
    {A : Type ℓ} (m : Except A) → ((a : A) × (m ≡ ok a)) ⊎ ((e : Str) × (m ≡ err e))
Except-cases (ok a) = inl (a, refl)
Except-cases (err e) = inr (e, refl)

pub wrap-ok {ℓ} :
    {A : Type ℓ} (prefix : Str) (m : Except A) (a : A) → (wrap prefix m ≡ ok a) ↔ (m ≡ ok a)
wrap-ok prefix (ok b) a = (λ h. h, λ h. h)
wrap-ok prefix (err e) a = (λ h. cc, λ h. cc)
