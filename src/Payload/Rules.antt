-- ===== src/Payload/Rules.antt =====
-- How the promises of `Ledger.Does` compose along a `do` block: the costs add up.
use osvpy.Prelude.{ℕ, ◌+◌, ◌-◌, ◌≤◌, ◌≡◌, refl, arith}
use osvpy.Run.{Run, ok}
use osvpy.State.{pure, lift, ◌>>=◌}
use osvpy.Payload.{M}
use osvpy.Payload.Ledger.{Ledger, Extends, Room, Does, IsStable}

pub Extends-refl : (l : Ledger) → Extends l l
Extends-refl l = record {
  refs = λ s id h. h;
  rows = λ i s h. h;
  cells = λ i w h. h;
  spans = λ h ws s e. e;
}

pub Extends-trans : {a b c : Ledger} → Extends a b → Extends b c → Extends a c
Extends-trans x y = record {
  refs = λ s id h. y.refs s id (x.refs s id h);
  rows = λ i s h. y.rows i s (x.rows i s h);
  cells = λ i w h. y.cells i w (x.cells i w h);
  spans = λ h ws s e. y.spans h ws s (x.spans h ws s e);
}

pub Room-le : (l : Ledger) (j k : ℕ) → j ≤ k → Room l k → Room l j
Room-le l j k h m = omega arith

module _ {A : Type 0} where
  pub pure_Does : {Q : Ledger → A → Type 0} (a : A) → ((l : Ledger) → Q l a) → Does (pure a) 0 Q
  pure_Does a q = record {
    runs = λ p l r rep room.
        (a, p, l, refl, rep, Extends-refl l, Room-le l r (0 + r) (omega arith) room, q l);
  }

  -- Code that cannot fail here and leaves the state alone.
  pub lift_Does :
      {Q : Ledger → A → Type 0} {m : Run A} (a : A)
      → m ≡ ok a
      → ((l : Ledger) → Q l a)
      → Does (lift m) 0 Q
  lift_Does a e q = record {
    runs = λ p l r rep room.
        (a, p, l, rw e, rep, Extends-refl l, Room-le l r (0 + r) (omega arith) room, q l);
  }

  pub weaken :
      {Q R : Ledger → A → Type 0} {m : M A} {k : ℕ} (k' : ℕ)
      → k ≤ k'
      → ((l : Ledger) (a : A) → Q l a → R l a)
      → Does m k Q
      → Does m k' R
  weaken {k = k} k' h imp d = record {
    runs = λ p l r rep room.
        let (a, p', l', run, rep', ext, room', q) =
          d.runs p l (k' - k + r) rep (Room-le l (k + (k' - k + r)) (k' + r) (omega arith) room) in
        (a, p', l', run, rep', ext, Room-le l' r (k' - k + r) (omega arith) room', imp l' a q);
  }

  -- What the first part has reached still holds when the second part ends. The second part may
  -- rest on what the first one says of its result alone.
  pub bind_if :
      {B : Type 0} {Q : Ledger → A → Type 0} {R : Ledger → B → Type 0} {m : M A} {f : A → M B}
      {k k' : ℕ} (P : A → Type 0)
      → ((l : Ledger) (a : A) → Q l a → P a)
      → ((a : A) → IsStable (λ l. Q l a))
      → Does m k Q
      → ((a : A) → P a → Does (f a) k' (λ l b. Q l a → R l b))
      → Does (m >>= f) (k + k') R
  bind_if {k = k} {k' = k'} P facts keep d g = record {
    runs = λ p l r rep room.
        let (a, p₁, l₁, run₁, rep₁, ext₁, room₁, q) =
          d.runs p l (k' + r) rep (Room-le l (k + (k' + r)) (k + k' + r) (omega arith) room) in
        let (b, p₂, l₂, run₂, rep₂, ext₂, room₂, q₂) =
          (g a (facts l₁ a q)).runs p₁ l₁ r rep₁ room₁ in
        (b, p₂, l₂, rw run₁ run₂, rep₂, Extends-trans ext₁ ext₂, room₂, q₂ (keep a l₁ l₂ ext₂ q));
  }

  pub bind :
      {B : Type 0} {Q : Ledger → A → Type 0} {R : Ledger → B → Type 0} {m : M A} {f : A → M B}
      {k k' : ℕ}
      → ((a : A) → IsStable (λ l. Q l a))
      → Does m k Q
      → ((a : A) → Does (f a) k' (λ l b. Q l a → R l b))
      → Does (m >>= f) (k + k') R
  bind keep d g = bind_if (λ _. Unit {0}) (λ l a q. tt) keep d (λ a _. g a)
