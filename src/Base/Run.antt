-- ===== src/Base/Run.antt =====
-- Runs of C code. A failed `assert` ends the process (the Makefile never defines NDEBUG); a read
-- through a null pointer, outside an array or in freed memory and a division by 0 are undefined. `out_of_fuel` is no
-- behaviour of the code: it marks a loop whose fuel was too small.
use mathlib.Core.Path.{◌≡◌, ◌∙◌, sym, subst}
use mathlib.Core.Bool.{Bool, true, false}
use mathlib.Core.Option.{Option, none, some}
use lightcache.Base.Tests.{if◌then◌else◌}

pub data Fault : Type 0 where
  assert_failed null_pointer out_of_range use_after_free bad_free division_by_zero out_of_fuel :
      Fault

pub data Run {ℓ} (A : Type ℓ) : Type ℓ where
  fault : Fault → Run A
  ok : A → Run A

infixl 5 ◌>>=◌ ◌>>◌
abbrev pub ◌>>=◌ {ℓ κ} : {A : Type ℓ} {B : Type κ} → Run A → (A → Run B) → Run B
fault stop >>= next = fault stop
ok value >>= next = next value

abbrev pub ◌>>◌ {ℓ} : {B : Type ℓ} → Run (Unit {0}) → Run B → Run B
m >> k = m >>= λ _. k

-- assert(b)
abbrev pub assert : Bool → Run (Unit {0})
assert true = ok tt
assert false = fault assert_failed

-- The run ends normally, in a value with the property.
abbrev pub Returns {ℓ κ} : {A : Type ℓ} → Run A → (A → Type κ) → Type (ℓ ⊔ κ)
Returns {A} run Holds = (value : A) × (run ≡ ok value) × Holds value

abbrev HoldsAfter {ℓ κ} : {A : Type ℓ} → Run A → (A → Type κ) → Type κ
HoldsAfter (fault stop) Holds = Unit
HoldsAfter (ok value) Holds = Holds value

-- If the run ends normally, its value has the property.
pub record After {ℓ κ} {A : Type ℓ} (run : Run A) (Holds : A → Type κ) : Type (ℓ ⊔ κ) where
  pub held : HoldsAfter run Holds

pub after_ok {ℓ κ} : {A : Type ℓ} {P : A → Type κ} (value : A) → P value → After (ok value) P
after_ok value h = record { held = h }

pub after_fault {ℓ κ} : {A : Type ℓ} {P : A → Type κ} (stop : Fault) → After {A = A} (fault stop) P
after_fault stop = record { held = tt }

pub after_bind {ℓ κ μ ν} :
    {A : Type ℓ} {B : Type κ} {P : A → Type μ} {Q : B → Type ν} (m : Run A) (next : A → Run B)
    → After m P
    → ((value : A) → P value → After (next value) Q)
    → After (m >>= next) Q
after_bind (fault stop) next h k = after_fault stop
after_bind (ok value) next h k = k value h.held

pub after_any {ℓ κ ν} :
    {A : Type ℓ} {B : Type κ} {Q : B → Type ν} (m : Run A) (next : A → Run B)
    → ((value : A) → After (next value) Q)
    → After (m >>= next) Q
after_any (fault stop) next k = after_fault stop
after_any (ok value) next k = k value

pub after_if {ℓ κ} :
    {A : Type ℓ} {P : A → Type κ} (b : Bool) (m n : Run A)
    → After m P
    → After n P
    → After (if b then m else n) P
after_if true m n h k = h
after_if false m n h k = k

pub after_option {ℓ κ μ} :
    {X : Type ℓ} {A : Type κ} {P : A → Type μ} (o : Option X) (m : Run A) (k : X → Run A)
    → After m P
    → ((x : X) → After (k x) P)
    → After (elim o [ none ↦ m | some x ↦ k x ]) P
after_option none m k h g = h
after_option (some x) m k h g = g x

pub by_option {ℓ κ μ} :
    {X : Type ℓ} {A : Type κ} (P : A → Type μ) (o : Option X) (m : A) (k : X → A)
    → P m
    → ((x : X) → P (k x))
    → P (elim o [ none ↦ m | some x ↦ k x ])
by_option P none m k h g = h
by_option P (some x) m k h g = g x

pub by_if {ℓ κ} :
    {A : Type ℓ} (P : A → Type κ) (b : Bool) (m n : A) → P m → P n → P (if b then m else n)
by_if P true m n h k = h
by_if P false m n h k = k

pub Returns-value {ℓ κ} :
    {A : Type ℓ} (P : A → Type κ) (run : Run A) (v : A) → Returns run P → run ≡ ok v → P v
Returns-value P run v (w, e, h) e' = subst (λ r. HoldsAfter r P) (sym e ∙ e') h
