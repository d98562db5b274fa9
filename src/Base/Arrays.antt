-- ===== src/Base/Arrays.antt =====
-- Arrays that the code reaches through a pointer: a cell for each index.
use Prim.Native.Nat.{ℕ}
use mathlib.Core.Path.{◌≡◌, ap}
use mathlib.Core.Logic.{◌≢◌}
use nfv.Base.Tests.{◌==◌, if◌then◌else◌, if_split, ==_self, ne→==, ==→ne}

abbrev pub Memory {ℓ} : Type ℓ → Type ℓ
Memory A = ℕ → A

-- `m[i] = v`
abbrev pub update {ℓ} : {A : Type ℓ} → Memory A → ℕ → A → Memory A
update m i v j = if j == i then v else m j

module _ {ℓ} {A : Type ℓ} (m : Memory A) (i : ℕ) (v : A) where
  pub update_at : update m i v i ≡ v
  update_at = ap (λ b. if b then v else m i) (==_self i)

  pub update_off : (j : ℕ) → j ≢ i → update m i v j ≡ m j
  update_off j ne = ap (λ b. if b then v else m j) (ne→== j i ne)

  pub update_all {κ} :
      (P : A → Type κ) → P v → ((j : ℕ) → j ≢ i → P (m j)) → (j : ℕ) → P (update m i v j)
  update_all P new old j = if_split P (j == i) (λ _. new) (λ e. old j (==→ne j i e))
