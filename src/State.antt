-- ===== src/State.antt =====
-- Code that reads and writes a state and may panic. A panic loses the state: the whole operation
-- that owns it is abandoned.
use osvpy.Run.{Run, ok, panic, hang, Panic}
use osvpy.Run

abbrev pub St : Type 0 → Type 0 → Type 0
St S A = S → Run (A × S)

module _ {S : Type 0} where
  abbrev pub pure : {A : Type 0} → A → St S A
  pure a s = ok (a, s)

  -- Code that leaves the state alone.
  abbrev pub lift : {A : Type 0} → Run A → St S A
  lift m s = Run.◌>>=◌ m λ a. ok (a, s)

  infixl 5 ◌>>=◌ ◌>>◌
  abbrev pub ◌>>=◌ : {A B : Type 0} → St S A → (A → St S B) → St S B
  ◌>>=◌ m f s = Run.◌>>=◌ (m s) λ r. f r.0 r.1

  abbrev pub ◌>>◌ : {A B : Type 0} → St S A → St S B → St S B
  m >> k = m >>= λ _. k
