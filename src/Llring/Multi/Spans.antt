-- ===== src/Llring/Multi/Spans.antt =====
-- Calls under way at one end of a ring: each holds a span of the positions between two bounds.
use native.Mathlib.Decide.{dec_lt}
use nfv.Base.{ℕ, ◌+◌, ◌≤◌, ◌<◌, ◌≡◌, ◌≢◌, ◌⊎◌, arith}

-- Thread `i` holds `size i` positions from `start i` on, or none.
pub record IsTiled (lo hi : ℕ) (start size : ℕ → ℕ) : Type 0 where
  pub inside : (i : ℕ) → 0 < size i → (lo ≤ start i) × (start i + size i ≤ hi)
  pub apart :
      (i j : ℕ)
      → i ≢ j
      → 0 < size i
      → 0 < size j
      → (start i + size i ≤ start j) ⊎ (start j + size j ≤ start i)
  pub covered : (x : ℕ) → lo ≤ x → x < hi → (i : ℕ) × (start i ≤ x) × (x < start i + size i)

module _ {lo hi : ℕ} {start size : ℕ → ℕ} (t : IsTiled lo hi start size) (i : ℕ)
    (start' size' : ℕ → ℕ)
    (others : (j : ℕ) → j ≢ i → (start' j ≡ start j) × (size' j ≡ size j)) where
  -- A thread that holds nothing takes the next positions.
  pub IsTiled-grow :
      (n : ℕ)
      → size i ≡ 0
      → start' i ≡ hi
      → size' i ≡ n
      → lo ≤ hi
      → IsTiled lo (hi + n) start' size'
  IsTiled-grow n none at some order = record {
    inside = λ j held. grind (arith, others j, t.inside j);
    apart = λ j k ne a b. grind (arith, others j, others k, t.inside j, t.inside k, t.apart j k);
    covered = λ x low high. elim (dec_lt x hi) [
      | yes old ↦
          let (j, below, above) = t.covered x low old in
          (j, grind (arith, others j), grind (arith, others j))
      | no new ↦ (i, omega arith, omega arith)
    ];
  }

  -- The thread with the first positions gives them up.
  pub IsTiled-drop :
      (n : ℕ) → start i ≡ lo → size i ≡ n → 0 < n → size' i ≡ 0 → IsTiled (lo + n) hi start' size'
  IsTiled-drop n at size some none = record {
    inside = λ j held. grind (arith, others j, t.inside j, t.apart i j);
    apart = λ j k ne a b. grind (arith, others j, others k, t.apart j k);
    covered = λ x low high.
        let (j, below, above) = t.covered x (omega arith) high in
        (j, grind (arith, others j), grind (arith, others j));
  }

  pub IsTiled-keep : start' i ≡ start i → size' i ≡ size i → IsTiled lo hi start' size'
  IsTiled-keep at same = record {
    inside = λ j held. grind (arith, others j, t.inside j);
    apart = λ j k ne a b. grind (arith, others j, others k, t.apart j k);
    covered = λ x low high.
        let (j, below, above) = t.covered x low high in
        (j, grind (arith, others j), grind (arith, others j));
  }
