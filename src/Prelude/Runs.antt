-- ===== src/Prelude/Runs.antt =====
-- The outcome of running C code: a value, or one of the three ways in which there is none.
use mathlib.Core.Path.{◌≡◌, refl}
use mathlib.Core.Logic.{◌≢◌}
use mathlib.Core.Bool.{Bool, true, false}
use spindly.Prelude.Tests.{if◌then◌else◌}

-- `fault` is undefined behaviour (a read outside a buffer, a NULL or indeterminate pointer),
-- `abort` a failed assertion, `spin` a loop that used up the rounds that it was given.
pub data Run {ℓ} (A : Type ℓ) : Type ℓ where
  done : A → Run A
  fault : Run A
  abort : Run A
  spin : Run A

infixl 5 ◌>>=◌ ◌>>◌
abbrev pub ◌>>=◌ {ℓ κ} : {A : Type ℓ} {B : Type κ} → Run A → (A → Run B) → Run B
done a >>= f = f a
fault >>= f = fault
abort >>= f = abort
spin >>= f = spin

abbrev pub ◌>>◌ {ℓ} : {B : Type ℓ} → Run (Unit {0}) → Run B → Run B
m >> k = m >>= λ _. k

-- `assert(b)`
abbrev pub assert : Bool → Run (Unit {0})
assert true = done tt
assert false = abort

-- A sequence ends if its parts do.
pub >>=-ne-spin {ℓ κ} :
    {A : Type ℓ} {B : Type κ} (m : Run A) (f : A → Run B)
    → m ≢ spin
    → ((a : A) → f a ≢ spin)
    → (m >>= f) ≢ spin
>>=-ne-spin (done a) f h k = k a
>>=-ne-spin fault f h k = λ e. cc
>>=-ne-spin abort f h k = λ e. cc
>>=-ne-spin spin f h k = λ e. h refl

pub assert-ne-spin : (b : Bool) → assert b ≢ spin
assert-ne-spin true = λ e. cc
assert-ne-spin false = λ e. cc

pub if-ne-spin {ℓ} :
    {A : Type ℓ} (b : Bool) (m n : Run A) → m ≢ spin → n ≢ spin → (if b then m else n) ≢ spin
if-ne-spin true m n h k = h
if-ne-spin false m n h k = k

-- With what the test says.
pub if-ne-spin_given {ℓ} :
    {A : Type ℓ} (b : Bool) (m n : Run A)
    → (b ≡ true → m ≢ spin)
    → (b ≡ false → n ≢ spin)
    → (if b then m else n) ≢ spin
if-ne-spin_given true m n h k = h refl
if-ne-spin_given false m n h k = k refl

pub done-ne-spin {ℓ} : {A : Type ℓ} {a : A} → done a ≢ spin
done-ne-spin {A = A} {a = a} = λ e. cc

-- What a sequence that returned has gone through.
pub >>=-eq-done {ℓ κ} :
    {A : Type ℓ} {B : Type κ} (m : Run A) (f : A → Run B) {b : B}
    → (m >>= f) ≡ done b
    → (a : A) × (m ≡ done a) × (f a ≡ done b)
>>=-eq-done (done a) f h = (a, refl, h)
>>=-eq-done fault f h = cc
>>=-eq-done abort f h = cc
>>=-eq-done spin f h = cc

-- A sequence is as its second part is.
pub >>=-cong {ℓ κ} :
    {A : Type ℓ} {B : Type κ} (m : Run A) (f g : A → Run B)
    → ((a : A) → f a ≡ g a)
    → (m >>= f) ≡ (m >>= g)
>>=-cong (done a) f g h = h a
>>=-cong fault f g h = refl
>>=-cong abort f g h = refl
>>=-cong spin f g h = refl

-- What holds of a value, if there is one.
abbrev pub Post {ℓ κ} : {A : Type ℓ} → (A → Type κ) → Run A → Type κ
Post P (done a) = P a
Post P fault = Unit
Post P abort = Unit
Post P spin = Unit

pub Post-bind {ℓ κ μ ν} :
    {A : Type ℓ} {B : Type κ} (P : A → Type μ) (R : B → Type ν) (m : Run A) (f : A → Run B)
    → Post P m
    → ((a : A) → P a → Post R (f a))
    → Post R (m >>= f)
Post-bind P R (done a) f h k = k a h
Post-bind P R fault f h k = tt
Post-bind P R abort f h k = tt
Post-bind P R spin f h k = tt

-- A sequence of which the first part promises nothing.
pub Post-bind_any {ℓ κ ν} :
    {A : Type ℓ} {B : Type κ} (R : B → Type ν) (m : Run A) (f : A → Run B)
    → ((a : A) → Post R (f a))
    → Post R (m >>= f)
Post-bind_any R (done a) f k = k a
Post-bind_any R fault f k = tt
Post-bind_any R abort f k = tt
Post-bind_any R spin f k = tt

-- A sequence ends if its parts do, the second where the first promises.
pub Post-bind-ne-spin {ℓ κ μ} :
    {A : Type ℓ} {B : Type κ} (P : A → Type μ) (m : Run A) (f : A → Run B)
    → m ≢ spin
    → Post P m
    → ((a : A) → P a → f a ≢ spin)
    → (m >>= f) ≢ spin
Post-bind-ne-spin P (done a) f e h k = k a h
Post-bind-ne-spin P fault f e h k = λ e. cc
Post-bind-ne-spin P abort f e h k = λ e. cc
Post-bind-ne-spin P spin f e h k = λ _. e refl

pub Post-if {ℓ κ} :
    {A : Type ℓ} (P : A → Type κ) (b : Bool) (m n : Run A)
    → (b ≡ true → Post P m)
    → (b ≡ false → Post P n)
    → Post P (if b then m else n)
Post-if P true m n h k = h refl
Post-if P false m n h k = k refl

pub Post-done {ℓ κ} :
    {A : Type ℓ} (P : A → Type κ) (m : Run A) (a : A) → Post P m → m ≡ done a → P a
Post-done P m a h e = rw e at h

-- A value is what was computed.
pub Post-self {ℓ} : {A : Type ℓ} (m : Run A) → Post (λ a. m ≡ done a) m
Post-self (done a) = refl
Post-self fault = tt
Post-self abort = tt
Post-self spin = tt

pub Post-map {ℓ κ μ} :
    {A : Type ℓ} (P : A → Type κ) (R : A → Type μ) (m : Run A)
    → ((a : A) → P a → R a)
    → Post P m
    → Post R m
Post-map P R (done a) k h = k a h
Post-map P R fault k h = tt
Post-map P R abort k h = tt
Post-map P R spin k h = tt

pub Post-both {ℓ κ μ} :
    {A : Type ℓ} (P : A → Type κ) (R : A → Type μ) (m : Run A)
    → Post P m
    → Post R m
    → Post (λ a. P a × R a) m
Post-both P R (done a) p r = (p, r)
Post-both P R fault p r = tt
Post-both P R abort p r = tt
Post-both P R spin p r = tt

-- It does not run out of rounds, and what holds of its value, if there is one.
abbrev pub Ends {ℓ κ} : {A : Type ℓ} → (A → Type κ) → Run A → Type (ℓ ⊔ κ)
Ends P m = (m ≢ spin) × Post P m

pub Ends-bind {ℓ κ μ ν} :
    {A : Type ℓ} {B : Type κ} (P : A → Type μ) (R : B → Type ν) (m : Run A) (f : A → Run B)
    → Ends P m
    → ((a : A) → P a → Ends R (f a))
    → Ends R (m >>= f)
Ends-bind P R (done a) f (e, h) k = k a h
Ends-bind P R fault f (e, h) k = ((λ x. cc), tt)
Ends-bind P R abort f (e, h) k = ((λ x. cc), tt)
Ends-bind P R spin f (e, h) k = absurd (e refl)

pub Ends-if {ℓ κ} :
    {A : Type ℓ} (P : A → Type κ) (b : Bool) (m n : Run A)
    → (b ≡ true → Ends P m)
    → (b ≡ false → Ends P n)
    → Ends P (if b then m else n)
Ends-if P true m n h k = h refl
Ends-if P false m n h k = k refl

pub Ends-done {ℓ κ} : {A : Type ℓ} (P : A → Type κ) (a : A) → P a → Ends P (done a)
Ends-done P a h = ((λ e. cc), h)

pub Ends-map {ℓ κ μ} :
    {A : Type ℓ} (P : A → Type κ) (R : A → Type μ) (m : Run A)
    → ((a : A) → P a → R a)
    → Ends P m
    → Ends R m
Ends-map P R m k (e, h) = (e, Post-map P R m k h)
