-- ===== src/L2Forward/Commands/Populate.antt =====
-- core/modules/l2_forward.cc: the addresses of CommandPopulate.
use native.Mathlib.Nat.{zero-mod}
use nfv.Base.{
  if◌then◌else◌, if_split, ltb, ◌==◌, none, some, ℕ, ◌*◌, ◌/◌, ◌%◌, ◌^◌, ◌≡◌, ◌<◌, arith, List,
  Memory, false, ap, ap₂,
}
use nfv.Base.Int.{pos, int32}
use nfv.L2Forward.{Cpu, L2Table, l2_add_entry}
use nfv.L2Forward.Commands.{
  swap64, command_populate, parse_mac_addr, populate_from, success, is_empty,
}
use nfv.L2Forward.Commands.Serve.{parsed_addr}

pub swap64-swap64 : (v : ℕ) → v < 2 ^ 64 → swap64 (swap64 v) ≡ v
unfolding swap64
swap64-swap64 v h = omega arith

swapped : (u : ℕ) → swap64 (swap64 u / 2 ^ 16 / 2 ^ 16 * 2 ^ 16 % 2 ^ 64) ≡ u % 2 ^ 32 * 2 ^ 16
unfolding swap64
swapped u = omega arith

small_int : (n : ℕ) → n < 2 ^ 31 → int32 (n % 2 ^ 32) ≡ pos n
small_int n h =
    if_split (λ x. x ≡ pos n) (ltb (n % 2 ^ 32) (2 ^ 31)) (λ _. ap pos (omega arith))
      (λ over. absurd (ground arith))

-- A populate command with a count of 1, a gate count from 1 to 2^31 - 1 and a base that is parsed
-- adds the address base % 2^32 * 2^16 (two zero bytes and the first four bytes of the base) with
-- gate 0; with a gate count of 0 it divides by zero.
pub command_populate_first :
    (cpu : Cpu) (sscanf_mac : List ℕ → ℕ × Memory ℕ) (t : L2Table) (base : List ℕ) (gate_count : ℕ)
    → is_empty base ≡ false
    → (sscanf_mac base).0 ≡ 6
    → gate_count < 2 ^ 31
    → command_populate cpu sscanf_mac t base (pos 1) (pos gate_count) ≡ (
        if gate_count == 0
        then none
        else some
            (success, (l2_add_entry cpu t (parsed_addr sscanf_mac base % 2 ^ 32 * 2 ^ 16) 0).1))
unfolding command_populate populate_from parse_mac_addr
command_populate_first cpu sscanf_mac t base gate_count given six small =
    rw (given, six, small_int gate_count small)
      (ap (λ (t' : L2Table). if gate_count == 0 then none else some (success, t'))
        (ap₂ (λ a g. (l2_add_entry cpu t a g).1) (swapped (parsed_addr sscanf_mac base))
          (ap (λ n. n % 2 ^ 16) (zero-mod gate_count))))
