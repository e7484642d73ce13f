-- ===== src/Cluster/Rules.antt =====
-- Rules for what an operation of the cluster master leaves, whether it returns or stops at a write.
use majutsu.Base.{◌≡◌, ℕ, zero, suc, refl, Bool, true, false, if◌then◌else◌}
use majutsu.Cluster.{Files, Cell, Result, ok, err, Action, continue, spend, ◌>>=◌, write}

-- `E` holds of the state after a failure, and `Q` of the result and the state after a return.
abbrev pub Ends : {A : Type 0} → (Cell → Type 0) → (A → Cell → Type 0) → Result A × Cell → Type 0
Ends E Q (ok a, c) = Q a c
Ends E Q (err e, c) = E c

module _ {A : Type 0} (E : Cell → Type 0) (Q : A → Cell → Type 0) where
  continue_rule :
      {B : Type 0} (R : B → Cell → Type 0) (r : Result B) (c : Cell) (k : B → Action A)
      → Ends E R (r, c)
      → ((b : B) (d : Cell) → R b d → Ends E Q (k b d))
      → Ends E Q (let m : Action B = λ _. (r, c) in (m >>= k) c)
  unfolding ◌>>=◌
  continue_rule R (ok b) c k h next = next b c h
  continue_rule R (err e) c k h next = h

  pub bind_rule :
      {B : Type 0} (R : B → Cell → Type 0) (m : Action B) (k : B → Action A) (c : Cell)
      → Ends E R (m c)
      → ((b : B) (d : Cell) → R b d → Ends E Q (k b d))
      → Ends E Q ((m >>= k) c)
  unfolding ◌>>=◌
  bind_rule R m k c h next = continue_rule R (m c).0 (m c).1 k h next

  spend_rule :
      (n : ℕ) (f : Files → Files) (k : Unit {0} → Action A) (c : Cell)
      → E c
      → ((w : ℕ) → Ends E Q (k tt (record c { files = f c.files; writes = w })))
      → Ends E Q (continue (spend n f c).0 k (spend n f c).1)
  unfolding spend
  spend_rule zero f k c h next = h
  spend_rule (suc n) f k c h next = next n

  -- A write, and what follows it.
  pub write_rule :
      (f : Files → Files) (k : Unit {0} → Action A) (c : Cell)
      → E c
      → ((w : ℕ) → Ends E Q (k tt (record c { files = f c.files; writes = w })))
      → Ends E Q ((write f >>= k) c)
  unfolding ◌>>=◌ write
  write_rule f k c h next = spend_rule c.writes f k c h next

  pub if_rule :
      (b : Bool) (m n : Action A) (c : Cell)
      → (b ≡ true → Ends E Q (m c))
      → (b ≡ false → Ends E Q (n c))
      → Ends E Q ((if b then m else n) c)
  if_rule true m n c left right = left refl
  if_rule false m n c left right = right refl

-- A write with nothing after it.
module _ (E : Cell → Type 0) (Q : Unit {0} → Cell → Type 0) where
  last_at :
      (n : ℕ) (f : Files → Files) (c : Cell)
      → E c
      → ((w : ℕ) → Q tt (record c { files = f c.files; writes = w }))
      → Ends E Q (spend n f c)
  unfolding spend
  last_at zero f c h next = h
  last_at (suc n) f c h next = next n

  pub last_rule :
      (f : Files → Files) (c : Cell)
      → E c
      → ((w : ℕ) → Q tt (record c { files = f c.files; writes = w }))
      → Ends E Q (write f c)
  unfolding write
  last_rule f c h next = last_at c.writes f c h next

-- A rule's conclusion with weaker predicates.
pub weaken_rule :
    {A : Type 0} (E E' : Cell → Type 0) (Q Q' : A → Cell → Type 0) (r : Result A × Cell)
    → Ends E Q r
    → ((c : Cell) → E c → E' c)
    → ((a : A) (c : Cell) → Q a c → Q' a c)
    → Ends E' Q' r
weaken_rule E E' Q Q' (ok a, c) h left right = right a c h
weaken_rule E E' Q Q' (err e, c) h left right = left c h
