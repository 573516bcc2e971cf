-- ===== src/Run.antt =====
-- Panics, the results of code that may panic, and `checkContext` and `checked`
-- (go/store.go, go/indexes.go). `hang` is a loop that the model cut off.
use osvpy.Prelude.{ℕ, ◌-◌, ◌^◌, ◌≡◌, refl, ap, ◌∙◌, subst, List, get_elem?, set, ltb, length}
use osvpy.Prelude.{if◌then◌else◌, some, none, ℤ, pos, negsuc, arith, ◌<◌}

-- The values that the code panics with. `index_out_of_range` is the runtime's own panic.
pub data Panic : Type 0 where
  report_overflow canceled invalid_index invalid_length missing_string : Panic
  invalid_status invalid_timestamp invalid_property index_out_of_range : Panic

-- How a piece of code ends.
pub data Run {ℓ} (Result : Type ℓ) : Type ℓ where
  hang : Run Result
  panic : Panic → Run Result
  ok : Result → Run Result

infixl 5 ◌>>=◌ ◌>>◌
-- The second piece starts only where the first one returns.
abbrev pub ◌>>=◌ {ℓ κ} : {A : Type ℓ} {B : Type κ} → Run A → (A → Run B) → Run B
hang >>= next = hang
panic why >>= next = panic why
ok a >>= next = next a

abbrev pub ◌>>◌ {ℓ κ} : {A : Type ℓ} {B : Type κ} → Run A → Run B → Run B
m >> k = m >>= λ _. k

-- The code returns, with a result that satisfies `Good`.
abbrev pub Returns {i j} : {Result : Type i} → Run Result → (Result → Type j) → Type (i ⊔ j)
Returns {Result} code Good = (result : Result) × (code ≡ ok result) × Good result

-- math.MaxUint32
abbrev pub max_uint32 : ℕ
max_uint32 = 2 ^ 32 - 1

-- `checked`: an `int` that a `uint32` holds, or the overflow panic.
unfoldable pub checked : ℤ → Run ℕ
checked (pos n) = if ltb max_uint32 n then panic report_overflow else ok n
checked (negsuc n) = panic report_overflow

-- A slice's element, and a write to it.
unfoldable pub index {ℓ} : {A : Type ℓ} → List A → ℕ → Run A
index xs i = elim (get_elem? xs i) [ some a ↦ ok a | none ↦ panic index_out_of_range ]

unfoldable pub store {ℓ} : {A : Type ℓ} → List A → ℕ → A → Run (List A)
store xs i v = if ltb i (length xs) then ok (set xs i v) else panic index_out_of_range

pub checked_lem : (n : ℕ) → n < 2 ^ 32 → checked (pos n) ≡ ok n
unfolding checked
checked_lem n h = ground arith

pub checked_over : (n : ℕ) → max_uint32 < n → checked (pos n) ≡ panic report_overflow
unfolding checked
checked_over n h = ground arith

pub index_lem {ℓ} :
    {A : Type ℓ} (xs : List A) (i : ℕ) {a : A} → get_elem? xs i ≡ some a → index xs i ≡ ok a
unfolding index
index_lem xs i h = rw (h, index)

pub store_lem {ℓ} :
    {A : Type ℓ} (xs : List A) (i : ℕ) (v : A) → i < length xs → store xs i v ≡ ok (set xs i v)
unfolding store
store_lem xs i v h = ground arith

-- If the code returns at all, its result satisfies `P`.
pub record Ends {A : Type 0} (P : A → Type 0) (m : Run A) : Type 0 where
  pub holds : (a : A) → m ≡ ok a → P a

module _ {A : Type 0} where
  pub ok_injective : {a b : A} → ok a ≡ ok b → a ≡ b
  ok_injective e = cc

  pub Ends-ok : {P : A → Type 0} (a : A) → P a → Ends P (ok a)
  Ends-ok {P} a h = record { holds = λ b e. subst P (ok_injective e) h }

  -- A part whose result does not matter.
  pub Ends-after :
      {B : Type 0} {P : B → Type 0} (m : Run A) {f : A → Run B}
      → ((a : A) → Ends P (f a))
      → Ends P (m >>= f)
  Ends-after hang k = record { holds = λ b e. absurd (cc) }
  Ends-after (panic p) k = record { holds = λ b e. absurd (cc) }
  Ends-after (ok a) k = k a

  pub Ends-bind :
      {B : Type 0} {Q : A → Type 0} {P : B → Type 0} (m : Run A) {f : A → Run B}
      → Ends Q m
      → ((a : A) → Q a → Ends P (f a))
      → Ends P (m >>= f)
  Ends-bind hang q k = record { holds = λ b e. absurd (cc) }
  Ends-bind (panic p) q k = record { holds = λ b e. absurd (cc) }
  Ends-bind (ok a) q k = k a (q.holds a refl)

-- Two binds in a row.
pub bind-bind :
    {A B C : Type 0} (m : Run A) (f : A → Run B) (g : B → Run C)
    → ((m >>= f) >>= g) ≡ (m >>= λ a. f a >>= g)
bind-bind hang f g = refl
bind-bind (panic p) f g = refl
bind-bind (ok a) f g = refl

pub under_bind :
    {A B : Type 0} (m : Run A) {f g : A → Run B} → ((a : A) → f a ≡ g a) → (m >>= f) ≡ (m >>= g)
under_bind hang h = refl
under_bind (panic p) h = refl
under_bind (ok a) h = h a

-- Code that returns the same results may stand for the other.
pub bind-same :
    {A B : Type 0} (m n : Run A) (k : A → Run B) (b : B)
    → ((a : A) → m ≡ ok a → n ≡ ok a)
    → (m >>= k) ≡ ok b
    → (n >>= k) ≡ ok b
bind-same hang n k b h e = absurd (cc)
bind-same (panic p) n k b h e = absurd (cc)
bind-same (ok a) n k b h e = ap (λ r. r >>= k) (h a refl) ∙ e

-- Code that returns has run its first part.
pub bind_ok :
    {A B : Type 0} (m : Run A) (f : A → Run B) {b : B}
    → (m >>= f) ≡ ok b
    → (a : A) × (m ≡ ok a) × (f a ≡ ok b)
bind_ok hang f e = absurd (cc)
bind_ok (panic p) f e = absurd (cc)
bind_ok (ok a) f e = (a, refl, e)
