-- ===== src/L2Forward/Commands/Serve.antt =====
-- core/modules/l2_forward.cc: packets after a command.
use nfv.Base.{
  ℕ, ◌+◌, ◌*◌, ◌%◌, ◌^◌, ◌≡◌, ◌<◌, ◌≢◌, arith, refl, sym, ◌∙◌, if◌then◌else◌, if_split, some, List,
  [], ◌∷◌, ◌++◌, Memory, bit_or, ap₂,
}
use nfv.Base.Bits.{bit_and-low_mask, bit_or_fields, zero-bit_or, bit_or-zero}
use nfv.Base.Int.{ℤ, failed}
use nfv.L2Forward.{Cpu, L2Table, l2_find, l2_addr_to_u64}
use nfv.L2Forward.Layout.{IsTable}
use nfv.L2Forward.Change.{Added, l2_add_entry-Added}
use nfv.L2Forward.Commands.{
  Packet, AddEntry, Response, success, failure, command_add, parse_mac_addr, process_batch,
  gate_idx, errno, is_empty,
}

-- The address that the string of an entry is parsed to.
abbrev pub parsed_addr : (List ℕ → ℕ × Memory ℕ) → List ℕ → ℕ
parsed_addr sscanf_mac str = l2_addr_to_u64 (parse_mac_addr sscanf_mac str).1

parsed_addr-lt :
    (sscanf_mac : List ℕ → ℕ × Memory ℕ) (str : List ℕ)
    → ((str : List ℕ) (i : ℕ) → (sscanf_mac str).1 i < 2 ^ 8)
    → parsed_addr sscanf_mac str < 2 ^ 48
unfolding l2_addr_to_u64 parse_mac_addr
parsed_addr-lt sscanf_mac str bytes =
    let m = (sscanf_mac str).1 in
    from (m 0 + m 1 * 2 ^ 8 + m 2 * 2 ^ 16 + m 3 * 2 ^ 24) (m 4 + m 5 * 2 ^ 8)
      (omega (arith, bytes str 0, bytes str 1, bytes str 2, bytes str 3))
      (omega (arith, bytes str 4, bytes str 5))
  where
    from : (a b : ℕ) → a < 2 ^ 32 → b < 2 ^ 16 → bit_or a (b * 2 ^ 32) < 2 ^ 48
    from a b p q =
        let e =
          ap₂ bit_or {x = a} {y = 0 * 2 ^ 32 + a} {u = b * 2 ^ 32} {v = b * 2 ^ 32 + 0}
            (omega arith) (omega arith) in
        omega (arith, e, bit_or_fields 32 0 a b 0 p (omega arith), zero-bit_or b, bit_or-zero a)

module _ (cpu : Cpu) (addr gate : ℕ) where
  -- A command that succeeds leaves the address with the gate.
  abbrev Served : Response × L2Table → Type 0
  Served r = r.0 ≡ success → l2_find cpu r.1 addr ≡ some gate

  fails : (e : ℕ) (t : L2Table) → Served (failure e, t)
  fails e t h = absurd cc

after_add :
    (cpu : Cpu) (addr gate : ℕ) {k : ℕ} {t : L2Table} {v : IsTable k t} {a g : ℕ} {r : ℤ × L2Table}
    → Added cpu t v a g r
    → (rest : L2Table → Response × L2Table)
    → ((t' : L2Table)
        → IsTable k t'
        → t'.bucket ≡ t.bucket
        → l2_find cpu t' a ≡ some (g % 2 ^ 15)
        → Served cpu addr gate (rest t'))
    → Served cpu addr gate (if failed r.0 then (failure (errno r.0), r.1) else rest r.1)
after_add crc addr gate (Added.present g e) rest next = fails crc addr gate _ _
after_add crc addr gate (Added.no_room e) rest next = fails crc addr gate _ _
after_add crc addr gate (Added.stored t' v b e found) rest next = next t' v b found

module _ (cpu : Cpu) (sscanf_mac : List ℕ → ℕ × Memory ℕ) where
  -- One round of CommandAdd.
  add_round :
      (addr gate k : ℕ) (entry : AddEntry) (t : L2Table) (v : IsTable k t)
      → t.bucket ≢ 4
      → parsed_addr sscanf_mac entry.addr < 2 ^ 48
      → (rest : List AddEntry)
      → ((t' : L2Table)
          → IsTable k t'
          → t'.bucket ≡ t.bucket
          → l2_find cpu t' (parsed_addr sscanf_mac entry.addr) ≡ some (gate_idx entry.gate % 2 ^ 15)
          → Served cpu addr gate (command_add cpu sscanf_mac t' rest))
      → Served cpu addr gate (command_add cpu sscanf_mac t (entry ∷ rest))
  unfolding command_add
  add_round addr gate k entry t v small wide rest next =
      if_split (Served cpu addr gate) (is_empty entry.addr) (λ _. fails cpu addr gate _ _)
        (λ _.
          if_split (Served cpu addr gate) (failed (parse_mac_addr sscanf_mac entry.addr).0)
            (λ _. fails cpu addr gate _ _)
            (λ _.
              after_add cpu addr gate
                (l2_add_entry-Added cpu t v (parsed_addr sscanf_mac entry.addr)
                  (gate_idx entry.gate) small wide)
                (λ t'. command_add cpu sscanf_mac t' rest) next))

  last_found :
      (k : ℕ) (entries : List AddEntry) (entry : AddEntry) (t : L2Table)
      → IsTable k t
      → t.bucket ≢ 4
      → ((str : List ℕ) (i : ℕ) → (sscanf_mac str).1 i < 2 ^ 8)
      → Served cpu
          (parsed_addr sscanf_mac entry.addr)
          (gate_idx entry.gate % 2 ^ 15)
          (command_add cpu sscanf_mac t (entries ++ (entry ∷ [])))
  unfolding command_add
  last_found k [] entry t v small wide =
      add_round _ _ k entry t v small (parsed_addr-lt sscanf_mac entry.addr wide) []
        (λ t' v' b found. served t' found)
    where
      served :
          (t' : L2Table)
          → l2_find cpu t' (parsed_addr sscanf_mac entry.addr) ≡ some (gate_idx entry.gate % 2 ^ 15)
          → Served cpu
              (parsed_addr sscanf_mac entry.addr)
              (gate_idx entry.gate % 2 ^ 15)
              (command_add cpu sscanf_mac t' [])
      served t' found h = found
  last_found k (first ∷ entries) entry t v small wide =
      add_round _ _ k first t v small (parsed_addr-lt sscanf_mac first.addr wide)
        (entries ++ (entry ∷ []))
        (λ t' v' b found. last_found k entries entry t' v' (λ p. small (sym b ∙ p)) wide)

  -- After an add command that succeeds on a well-formed table with buckets smaller than four, if
  -- sscanf stores bytes, a packet whose destination is the address of the last entry leaves by the
  -- gate of that entry.
  pub command_add-process_batch :
      (k : ℕ) (entries : List AddEntry) (entry : AddEntry) (t : L2Table) (default_gate : ℕ)
      (p : Packet)
      → IsTable k t
      → t.bucket ≢ 4
      → ((str : List ℕ) (i : ℕ) → (sscanf_mac str).1 i < 2 ^ 8)
      → (command_add cpu sscanf_mac t (entries ++ (entry ∷ []))).0 ≡ success
      → p.head % 2 ^ 48 ≡ parsed_addr sscanf_mac entry.addr
      → process_batch cpu
          (record {
            l2_table = (command_add cpu sscanf_mac t (entries ++ (entry ∷ []))).1;
            default_gate = default_gate;
          })
          (p ∷ [])
        ≡ (p, gate_idx entry.gate % 2 ^ 15) ∷ []
  unfolding process_batch
  command_add-process_batch k entries entry t default_gate p v small wide ok dst =
      rw (bit_and-low_mask 48 p.head, dst, last_found k entries entry t v small wide ok) refl
