-- ===== src/L2Forward/Words.antt =====
-- core/modules/l2_forward.cc: what find_index sees in a bucket of four slots.
use nfv.Base.{
  ℕ, ◌+◌, ◌-◌, ◌*◌, ◌%◌, ◌^◌, ◌<◌, ◌≡◌, refl, ap, ◌∙◌, Bool, true, false, ◌&&◌, if◌then◌else◌,
  if_split, ◌==◌, arith, Memory, ne→==, bit_and, bit_or,
}
use nfv.Base.Bits.{
  bit_and_fields, bit_or_fields, bit_or-zero, bit_and-zero, bit_and-low_mask, zero-bit_or,
}
use nfv.L2Forward.{
  L2Entry, holds, find_index, find_index_from, equals, cmp_eq, is_nan, table_word, entry_word,
}

-- The bit fields of an entry are in range.
pub record IsEntry (e : L2Entry) : Type 0 where
  pub addr_lt : e.addr < 2 ^ 48
  pub gate_lt : e.gate < 2 ^ 15

-- `addr | (1ull << 63)`
sought : (addr : ℕ) → addr < 2 ^ 48 → bit_or addr (2 ^ 63) ≡ 2 ^ 63 + addr
sought addr h =
    ap (λ x. bit_or x (2 ^ 63)) {x = addr} {y = 0 * 2 ^ 63 + addr} (omega arith)
    ∙ bit_or_fields 63 0 addr 1 0 (omega arith) (omega arith)
    ∙ omega (arith, bit_or-zero addr, zero-bit_or 1)

-- The mask keeps the address and the top bit of three fields.
masked_fields :
    (addr gate used : ℕ)
    → addr < 2 ^ 48
    → gate < 2 ^ 15
    → bit_and (addr + gate * 2 ^ 48 + used * 2 ^ 63) 0x8000ffffffffffff
      ≡ bit_and used 1 * 2 ^ 63 + addr
masked_fields addr gate used a g =
    ap (λ x. bit_and x 0x8000ffffffffffff) {y = (used * 2 ^ 15 + gate) * 2 ^ 48 + addr}
      (omega arith)
    ∙ bit_and_fields 48 (used * 2 ^ 15 + gate) addr (2 ^ 15) (2 ^ 48 - 1) a (omega arith)
    ∙ omega (
      arith,
      bit_and-low_mask 48 addr,
      bit_and_fields 15 used gate 1 0 g (omega arith),
      bit_and-zero gate,
    )

-- Doubles that are no NaNs and not both zeros compare as their words do.
equals_word :
    (avx : Bool) (v w : ℕ)
    → (avx && v % 2 ^ 63 == 0) ≡ false
    → v % 2 ^ 63 < 2 ^ 48
    → w % 2 ^ 63 < 2 ^ 48
    → equals avx v w ≡ (v == w)
unfolding equals cmp_eq is_nan
equals_word true v w more small low = ground arith
equals_word false v w more small low = refl

sought_low : (addr : ℕ) → addr < 2 ^ 48 → bit_or addr (2 ^ 63) % 2 ^ 63 ≡ addr
sought_low addr h = omega (arith, sought addr h)

-- The comparison of `find_index` on the first word of an entry.
compare_word :
    (avx : Bool) (e : L2Entry) (addr : ℕ)
    → IsEntry e
    → (avx && addr == 0) ≡ false
    → addr < 2 ^ 48
    → equals avx (bit_or addr (2 ^ 63)) (bit_and (entry_word e) 0x8000ffffffffffff) ≡ holds e addr
unfolding entry_word
compare_word avx e addr v more h = from e.occupied refl
  where
    exact : (n : ℕ) → n % 2 ^ 63 ≡ addr → (avx && n % 2 ^ 63 == 0) ≡ false
    exact n e = ap (λ m. avx && m == 0) e ∙ more

    compared :
        (used : ℕ)
        → bit_and used 1 < 2
        → equals avx
            (bit_or addr (2 ^ 63))
            (bit_and (e.addr + e.gate * 2 ^ 48 + used * 2 ^ 63) 0x8000ffffffffffff)
          ≡ (2 ^ 63 + addr == bit_and used 1 * 2 ^ 63 + e.addr)
    compared used bit =
        rw (masked_fields e.addr e.gate used v.addr_lt v.gate_lt, sought addr h)
          (equals_word avx (2 ^ 63 + addr) (bit_and used 1 * 2 ^ 63 + e.addr)
            (exact (2 ^ 63 + addr) (omega (arith, h))) (omega (arith, h))
            (omega (arith, v.addr_lt)))

    from :
        (used : Bool)
        → e.occupied ≡ used
        → equals avx
            (bit_or addr (2 ^ 63))
            (bit_and (e.addr + e.gate * 2 ^ 48 + (if used then 2 ^ 63 else 0)) 0x8000ffffffffffff)
          ≡ (used && addr == e.addr)
    from true u = compared 1 (omega arith) ∙ ground arith
    from false u = compared 0 (omega arith) ∙ ground (arith, v.addr_lt)

-- Padding compares equal to no address but 0.
padding_word :
    (avx : Bool) (addr : ℕ)
    → (avx && addr == 0) ≡ false
    → addr < 2 ^ 48
    → equals avx (bit_or addr (2 ^ 63)) (bit_and 0 0x8000ffffffffffff) ≡ false
padding_word avx addr more h =
    let low = sought_low addr h in
    equals_word avx (bit_or addr (2 ^ 63)) (bit_and 0 0x8000ffffffffffff)
      (ap (λ n. avx && n == 0) low ∙ more) (omega (arith, low, h)) (omega arith)
    ∙ ne→== _ _ (λ p. absurd (omega (arith, sought addr h, p)))

-- Of a bucket of four, `find_index` sees the first slot only: the words that it compares after it
-- are that entry's padding.
pub find_index-first :
    (avx : Bool) (addr : ℕ) (tbl : Memory L2Entry) (offset : ℕ)
    → (avx && addr == 0) ≡ false
    → addr < 2 ^ 48
    → IsEntry (tbl offset)
    → find_index avx addr tbl offset ≡ (if holds (tbl offset) addr then 1 else 0)
unfolding find_index find_index_from table_word
find_index-first avx addr tbl offset more h v = rw (padding_word avx addr more h) (
    ap (λ (b : Bool). if b then 1 else 0)
      (ap (λ x. equals avx (bit_or addr (2 ^ 63)) (bit_and (entry_word (tbl x)) 0x8000ffffffffffff))
          {x = offset + 0} {y = offset} (omega arith)
        ∙ compare_word avx (tbl offset) addr v more h))

zero_word : (w : ℕ) → w % 2 ^ 63 < 2 ^ 48 → equals true (2 ^ 63) w ≡ (w % 2 ^ 63 == 0)
unfolding equals cmp_eq is_nan
zero_word w low = ground arith

entry_low : (e : L2Entry) → IsEntry e → bit_and (entry_word e) 0x8000ffffffffffff % 2 ^ 63 ≡ e.addr
unfolding entry_word
entry_low e v =
    if_split (λ n. bit_and (e.addr + e.gate * 2 ^ 48 + n) 0x8000ffffffffffff % 2 ^ 63 ≡ e.addr)
      e.occupied
      (λ _.
        ap (λ n. n % 2 ^ 63) (masked_fields e.addr e.gate 1 v.addr_lt v.gate_lt)
        ∙ omega (arith, v.addr_lt))
      (λ _.
        ap (λ n. n % 2 ^ 63) (masked_fields e.addr e.gate 0 v.addr_lt v.gate_lt)
        ∙ omega (arith, v.addr_lt))

-- With AVX address 0 compares equal to the first slot if that has address 0, and else to padding.
pub find_index-zero :
    (tbl : Memory L2Entry) (offset : ℕ)
    → IsEntry (tbl offset)
    → find_index true 0 tbl offset ≡ (if (tbl offset).addr == 0 then 1 else 2)
unfolding find_index find_index_from table_word equals cmp_eq is_nan
find_index-zero tbl offset v =
    ap (λ (b : Bool). if b then 1 else 2)
      (ap (λ x. equals true (2 ^ 63) (bit_and (entry_word (tbl x)) 0x8000ffffffffffff))
          {x = offset + 0} {y = offset} (omega arith)
        ∙ zero_word (bit_and (entry_word (tbl offset)) 0x8000ffffffffffff)
            (omega (arith, entry_low (tbl offset) v, v.addr_lt))
        ∙ ap (λ n. n == 0) (entry_low (tbl offset) v))

pub both : (b : Bool) (n : ℕ) → (b && n == 0) ≡ true → (b ≡ true) × (n ≡ 0)
both true n h = (refl, ground arith)
both false n h = absurd (cc)
