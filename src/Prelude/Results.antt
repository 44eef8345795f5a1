-- ===== src/Prelude/Results.antt =====
-- A Go function's `(value, error)`: either of them.
pub data Result {ε ℓ} (F : Type ε) (S : Type ℓ) : Type (ε ⊔ ℓ) where
  err : F → Result F S
  ok : S → Result F S

-- An error ends the function, as `if err != nil { return ..., err }` does.
infixl 5 ◌>>=◌
abbrev pub ◌>>=◌ {ε ℓ κ} :
    {F : Type ε} {S : Type ℓ} {T : Type κ} → Result F S → (S → Result F T) → Result F T
err fault >>= next = err fault
ok value >>= next = next value

infixr 5 ◌>>◌
abbrev pub ◌>>◌ {ε ℓ κ} :
    {F : Type ε} {S : Type ℓ} {T : Type κ} → Result F S → Result F T → Result F T
err fault >> next = err fault
ok value >> next = next
