-- ===== src/Common/Results.antt =====
-- What a call of the program does: it returns, it throws `gsdb::error`, it does something that C++
-- leaves undefined (a read outside the mapped bytes, `back()` of an empty vector, a shift by the
-- width or more), or, for a loop with no bound of its own, it outlasts the rounds it was given.
use mathlib.Core.Path.{◌≡◌, refl}
use mathlib.Core.Logic.{◌≢◌}
use mathlib.Core.Bool.{Bool, true, false}
use gsdb.Common.Tests.{if◌then◌else◌}
use mathlib.Core.Option.{Option, none, some}

-- The exceptions, one constructor for each `error::send` and for each throwing library call.
pub data Error : Type 0 where
  unrecognized_form unknown_pointer_encoding invalid_pointer_encoding address_not_in_table : Error
  invalid_cie_version invalid_cie_augmentation invalid_address_size invalid_segment_size : Error
  dwarf64 invalid_dwarf_version attribute_not_found wrong_form : Error
  unexpected_standard_opcode unexpected_extended_opcode : Error
  unexpected_opcode_length bad_instruction_length : Error
  unsupported_opcode unsupported_frame_base : Error
  out_of_range bad_optional_access bad_variant_access : Error
  register_undefined size_mismatch : Error
  no_stoppoint_id no_stoppoint_address address_taken : Error
  bad_watchpoint_size bad_execute_size misaligned_watchpoint : Error
  no_free_debug_register invalid_stoppoint_size : Error
  no_unwind_information os_failure invalid_format unknown_register : Error
  unexpected_register_size : Error

pub data Outcome {ℓ} (A : Type ℓ) : Type ℓ where
  ok : A → Outcome A
  err : Error → Outcome A
  undefined : Outcome A
  exhausted : Outcome A

infixl 5 ◌>>=◌ ◌>>◌
abbrev pub ◌>>=◌ {ℓ κ} : {A : Type ℓ} {B : Type κ} → Outcome A → (A → Outcome B) → Outcome B
ok a >>= f = f a
err e >>= f = err e
undefined >>= f = undefined
exhausted >>= f = exhausted

abbrev pub ◌>>◌ {ℓ κ} : {A : Type ℓ} {B : Type κ} → Outcome A → Outcome B → Outcome B
m >> k = m >>= λ _. k

abbrev pub guard : Bool → Error → Outcome (Unit {0})
guard true e = ok tt
guard false e = err e

-- A partial library operation: its missing value is the given outcome.
abbrev pub or_err {ℓ} : {A : Type ℓ} → Error → Option A → Outcome A
or_err e none = err e
or_err e (some a) = ok a

abbrev pub or_undefined {ℓ} : {A : Type ℓ} → Option A → Outcome A
or_undefined none = undefined
or_undefined (some a) = ok a

-- A successful bind has two successful parts.
pub >>=-eq-ok {ℓ κ} :
    {A : Type ℓ} {B : Type κ} (call : Outcome A) (next : A → Outcome B) {end : B}
    → (call >>= next) ≡ ok end
    → (mid : A) × (call ≡ ok mid) × (next mid ≡ ok end)
>>=-eq-ok exhausted next h = cc
>>=-eq-ok undefined next h = cc
>>=-eq-ok (err e) next h = cc
>>=-eq-ok (ok mid) next h = (mid, refl, h)

pub ok-injective {ℓ} : {A : Type ℓ} {a b : A} → ok a ≡ ok b → a ≡ b
ok-injective e = cc

pub ok->>= {ℓ κ} :
    {A : Type ℓ} {B : Type κ} (m : Outcome A) (f : A → Outcome B) {a : A}
    → m ≡ ok a
    → (m >>= f) ≡ f a
ok->>= m f h = rw h refl

-- A bind runs out of rounds only if one of its parts does.
pub bind-ne-exhausted {ℓ κ} :
    {A : Type ℓ} {B : Type κ} (m : Outcome A) (f : A → Outcome B)
    → m ≢ exhausted
    → ((a : A) → m ≡ ok a → f a ≢ exhausted)
    → (m >>= f) ≢ exhausted
bind-ne-exhausted (ok a) f hm hf = hf a refl
bind-ne-exhausted (err e) f hm hf = λ p. cc
bind-ne-exhausted undefined f hm hf = λ p. cc
bind-ne-exhausted exhausted f hm hf = absurd (hm refl)

-- A call that does not run out of rounds, and whose result, where it returns one, is as stated.
abbrev pub Ends {ℓ κ} : {A : Type ℓ} → (A → Type κ) → Outcome A → Type κ
Ends P (ok a) = P a
Ends P (err e) = Unit
Ends P undefined = Unit
Ends P exhausted = Unit → ⊥

pub Ends-bind {ℓ κ μ ν} :
    {A : Type ℓ} {B : Type κ} (P : A → Type μ) (Q : B → Type ν) (m : Outcome A) (f : A → Outcome B)
    → Ends P m
    → ((a : A) → P a → Ends Q (f a))
    → Ends Q (m >>= f)
Ends-bind P Q (ok a) f h k = k a h
Ends-bind P Q (err e) f h k = tt
Ends-bind P Q undefined f h k = tt
Ends-bind P Q exhausted f h k = absurd (h tt)

pub Ends-ne-exhausted {ℓ κ} :
    {A : Type ℓ} (P : A → Type κ) (m : Outcome A) → Ends P m → m ≢ exhausted
Ends-ne-exhausted P (ok a) h = λ p. cc
Ends-ne-exhausted P (err e) h = λ p. cc
Ends-ne-exhausted P undefined h = λ p. cc
Ends-ne-exhausted P exhausted h = absurd (h tt)

pub Ends-of {ℓ κ} :
    {A : Type ℓ} (P : A → Type κ) (m : Outcome A)
    → m ≢ exhausted
    → ((a : A) → m ≡ ok a → P a)
    → Ends P m
Ends-of P (ok a) h k = k a refl
Ends-of P (err e) h k = tt
Ends-of P undefined h k = tt
Ends-of P exhausted h k = λ _. h refl

pub Ends-if {ℓ κ} :
    {A : Type ℓ} (P : A → Type κ) (b : Bool) (x y : Outcome A)
    → (b ≡ true → Ends P x)
    → (b ≡ false → Ends P y)
    → Ends P (if b then x else y)
Ends-if P true x y h k = h refl
Ends-if P false x y h k = k refl

pub Ends-or_undefined {ℓ κ} :
    {A : Type ℓ} (P : A → Type κ) (o : Option A)
    → ((a : A) → o ≡ some a → P a)
    → Ends P (or_undefined o)
Ends-or_undefined P none h = tt
Ends-or_undefined P (some a) h = h a refl

pub Ends-weaken {ℓ κ μ} :
    {A : Type ℓ} (P : A → Type κ) (Q : A → Type μ) (m : Outcome A)
    → Ends P m
    → ((a : A) → P a → Q a)
    → Ends Q m
Ends-weaken P Q (ok a) h k = k a h
Ends-weaken P Q (err e) h k = tt
Ends-weaken P Q undefined h k = tt
Ends-weaken P Q exhausted h k = λ _. h tt

-- A value that a partial operation returned.
pub or_err-eq-ok {ℓ} :
    {A : Type ℓ} (e : Error) (o : Option A) {a : A} → or_err e o ≡ ok a → o ≡ some a
or_err-eq-ok e none h = absurd (cc)
or_err-eq-ok e (some a) h = cc

-- A call that ends as stated, with the equation that says what it returned.
pub Ends-self {ℓ κ} :
    {A : Type ℓ} (P : A → Type κ) (m : Outcome A) → Ends P m → Ends (λ a. (m ≡ ok a) × P a) m
Ends-self P (ok a) h = (refl, h)
Ends-self P (err e) h = tt
Ends-self P undefined h = tt
Ends-self P exhausted h = λ _. h tt
