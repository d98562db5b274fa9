-- ===== src/Checksum/Increment.antt =====
-- core/utils/checksum.h: a checksum is updated for one changed field, without the other words.
use nfv.Base.{ℕ, ◌+◌, ◌-◌, ◌/◌, ◌%◌, ◌^◌, ◌≤◌, ◌<◌, ◌≡◌, ◌≢◌, ap, ◌∙◌, arith, List, [], ◌∷◌, ◌++◌}
use nfv.Base.Words.{u32}
use nfv.Checksum.{fold_checksum}
use nfv.Checksum.Same.{
  IsSame, IsSame-refl, IsSame-trans, IsSame-add, total, ones_sum, fold_checksum_unique,
  ones_add-IsSame,
}
use nfv.Checksum.Carry.{AllBelow}

-- `~x` on 32 and, cut to 16 bits, on 16 bits
abbrev pub not32 : ℕ → ℕ
not32 x = 2 ^ 32 - 1 - x

abbrev pub not16 : ℕ → ℕ
not16 x = 2 ^ 16 - 1 - x

pub checksum_increment32 : ℕ → ℕ → ℕ
checksum_increment32 old new =
    u32 (u32 (not32 old / 2 ^ 16 + not32 old % 2 ^ 16) + (new / 2 ^ 16 + new % 2 ^ 16))

unfoldable pub checksum_increment16 : ℕ → ℕ → ℕ
checksum_increment16 old new = not16 old + new

unfoldable pub update_checksum_with_increment : ℕ → ℕ → ℕ
update_checksum_with_increment old_checksum increment =
    fold_checksum (u32 (not16 old_checksum + increment))

pub update_checksum32 : ℕ → ℕ → ℕ → ℕ
update_checksum32 old_checksum old new =
    update_checksum_with_increment old_checksum (checksum_increment32 old new)

unfoldable pub update_checksum16 : ℕ → ℕ → ℕ → ℕ
update_checksum16 old_checksum old new =
    update_checksum_with_increment old_checksum (checksum_increment16 old new)

-- The checksum of RFC 1071 over 16-bit words
abbrev pub checksum_of : List ℕ → ℕ
checksum_of ws = 65535 - ones_sum ws

ones_sum-below :
    (ws : List ℕ) → AllBelow (2 ^ 16) ws → (ones_sum ws ≤ 65535) × IsSame (ones_sum ws) (total ws)
ones_sum-below [] all = (omega arith, IsSame-refl 0)
ones_sum-below (w ∷ ws) (lt, all) =
    let (few, same) = ones_sum-below ws all in
    let (now, sum) = ones_add-IsSame w (ones_sum ws) (omega arith) few in
    (now, IsSame-trans sum (IsSame-add (IsSame-refl w) same))

total-append : (xs ys : List ℕ) → total (xs ++ ys) ≡ total xs + total ys
total-append [] ys = omega arith
total-append (x ∷ xs) ys = omega (arith, total-append xs ys)

AllBelow-append : (b : ℕ) (xs ys : List ℕ) → AllBelow b xs → AllBelow b ys → AllBelow b (xs ++ ys)
AllBelow-append b [] ys all rest = rest
AllBelow-append b (x ∷ xs) ys (lt, all) rest = (lt, AllBelow-append b xs ys all rest)

-- What an increment has to be: the new value less the old one, in ones' complement.
record IsIncrement (inc old new : ℕ) : Type 0 where
  small : inc < 2 ^ 18
  difference : (inc + old) % 65535 ≡ new % 65535
  nothing : inc ≡ 0 → new ≡ 0

-- An increment takes the checksum of some words to that of others whose sum differs by it.
update-increment :
    (xs os ns ys : List ℕ) (inc : ℕ)
    → AllBelow (2 ^ 16) xs
    → AllBelow (2 ^ 16) os
    → AllBelow (2 ^ 16) ns
    → AllBelow (2 ^ 16) ys
    → IsIncrement inc (total os) (total ns)
    → total (xs ++ (ns ++ ys)) ≢ 0
    → update_checksum_with_increment (checksum_of (xs ++ (os ++ ys))) inc
      ≡ checksum_of (xs ++ (ns ++ ys))
unfolding update_checksum_with_increment
update-increment xs os ns ys inc hx ho hn hy i some_word =
    let old = xs ++ (os ++ ys) in
    let new = xs ++ (ns ++ ys) in
    let (most, s) =
      ones_sum-below old
        (AllBelow-append (2 ^ 16) xs _ hx (AllBelow-append (2 ^ 16) os ys ho hy)) in
    let (most', t) =
      ones_sum-below new
        (AllBelow-append (2 ^ 16) xs _ hx (AllBelow-append (2 ^ 16) ns ys hn hy)) in
    let e : total old ≡ total xs + (total os + total ys) =
      total-append xs (os ++ ys) ∙ ap (λ n. total xs + n) (total-append os ys) in
    let f : total new ≡ total xs + (total ns + total ys) =
      total-append xs (ns ++ ys) ∙ ap (λ n. total xs + n) (total-append ns ys) in
    let inc_few = i.small in
    let sum : u32 (not16 (checksum_of old) + inc) ≡ ones_sum old + inc = omega arith in
    fold_checksum_unique (u32 (not16 (checksum_of old) + inc)) (ones_sum new) (omega arith) most'
      (record {
        residue = omega (arith, s.residue, t.residue, i.difference);
        zero_to = λ z. absurd (some_word (t.zero_to z));
        zero_from = λ z.
            let none_old = s.zero_to (omega arith) in
            let none_new = i.nothing (omega arith) in absurd (some_word (omega arith));
      })

-- A changed field: 16 bits, or 32 that stand as two words.
pub data Field : Type 0 where
  half full : Field

abbrev pub limit : Field → ℕ
limit half = 2 ^ 16
limit full = 2 ^ 32

abbrev pub words_of : Field → ℕ → List ℕ
words_of half v = v ∷ []
words_of full v = v % 2 ^ 16 ∷ v / 2 ^ 16 ∷ []

abbrev pub update_field : Field → ℕ → ℕ → ℕ → ℕ
update_field half = update_checksum16
update_field full = update_checksum32

-- Among 16-bit words that carry the RFC 1071 checksum, let one 16-bit field, or one 32-bit field
-- that stands as two words, change. If the words are not all zero afterwards, UpdateChecksum16 or
-- UpdateChecksum32 computes from the old checksum and the two values alone the checksum of the new
-- words.
pub update-recompute :
    (field : Field) (xs ys : List ℕ) (old new : ℕ)
    → AllBelow (2 ^ 16) xs
    → AllBelow (2 ^ 16) ys
    → old < limit field
    → new < limit field
    → total (xs ++ (words_of field new ++ ys)) ≢ 0
    → update_field field (checksum_of (xs ++ (words_of field old ++ ys))) old new
      ≡ checksum_of (xs ++ (words_of field new ++ ys))
unfolding update_checksum16 update_checksum32 checksum_increment16 checksum_increment32
update-recompute half xs ys old new hx hy ho hn some_word =
    update-increment xs (old ∷ []) (new ∷ []) ys (not16 old + new) hx (ho, tt) (hn, tt) hy
      (record { small = omega arith; difference = omega arith; nothing = λ z. omega arith })
      some_word
update-recompute full xs ys old new hx hy ho hn some_word =
    update-increment xs (words_of full old) (words_of full new) ys _ hx
      (omega arith, (omega arith, tt)) (omega arith, (omega arith, tt)) hy
      (record { small = omega arith; difference = omega arith; nothing = λ z. omega arith })
      some_word
