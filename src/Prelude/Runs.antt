-- ===== src/Prelude/Runs.antt =====
-- Chains of steps, for the environments of the components.
module _ {A : Type 0} (R : A → A → Type 0) where
  pub data Run (first : A) : A → Type 0 where
    here : Run first first
    next : {mid last : A} → Run first mid → R mid last → Run first last

  -- What every step keeps holds at the end if it held at the start.
  pub Run-keeps :
      (P : A → Type 0) → ((x y : A) → R x y → P x → P y) → (x y : A) → Run x y → P x → P y
  Run-keeps P keeps x y here p = p
  Run-keeps P keeps x y (next {mid} before step) p =
      keeps mid y step (Run-keeps P keeps x mid before p)
