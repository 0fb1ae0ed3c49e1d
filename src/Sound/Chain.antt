-- ===== src/Sound/Chain.antt =====
-- What the device finds in a queue.
use native.Mathlib.Nat.{mod-lt, mod-eq_of_lt, mod_self}
use capstone_myos.Prelude.{
  ltb, Bool-cases, inl, inr, ◌∙◌, ℕ, zero, suc, ◌+◌, ◌-◌, ◌%◌, ◌^◌, ◌<◌, ◌≤◌, ◌≡◌, ◌≢◌, refl, sym,
  ap, List, [], ◌∷◌, ◌==◌, if◌then◌else◌, update, update_self, update_ne, bit_and, arith,
}
use capstone_myos.Sound.{Desc, Queue, flag_next, flag_write, offer, submit_command, send_buffer}

-- The chain from a descriptor on, as a device follows it, of at most `n` descriptors.
unfoldable pub chain_of : ℕ → (ℕ → Desc) → ℕ → List Desc
chain_of zero table i = []
chain_of (suc n) table i =
    let rest = chain_of n table (table i).next in
    if bit_and (table i).flags flag_next == 0 then table i ∷ [] else table i ∷ rest

-- The entry that was made available last.
abbrev pub last_offered : Queue → ℕ
last_offered q = q.avail_ring ((q.avail_idx + (2 ^ 16 - 1)) % 2 ^ 16 % q.size)

pub record IsValid (q : Queue) : Type 0 where
  pub room : 2 ≤ q.size
  pub inside : q.next_avail_idx < q.size
  pub index : q.avail_idx < 2 ^ 16

next_ne : (n h : ℕ) → 2 ≤ n → h < n → (h + 1) % n ≢ h
next_ne n h two lt e = elim (Bool-cases (ltb (h + 1) n)) [
  | inl below ↦
      let small : h + 1 < n = ground (arith, below) in
      let same : (h + 1) % n ≡ h + 1 = mod-eq_of_lt small in omega (arith, same, e)
  | inr above ↦
      let last : h + 1 ≡ n = ground (arith, above) in
      let zeroed : (h + 1) % n ≡ 0 = ap (λ x. x % n) last ∙ mod_self n in omega (arith, zeroed, e)
]

chain_of-two :
    (n : ℕ) (table : ℕ → Desc) (h : ℕ) (d e : Desc)
    → 2 ≤ n
    → table h ≡ d
    → table d.next ≡ e
    → bit_and d.flags flag_next ≢ 0
    → bit_and e.flags flag_next ≡ 0
    → chain_of n table h ≡ d ∷ e ∷ []
unfolding chain_of
chain_of-two zero table h d e two i j f g = absurd (omega arith)
chain_of-two (suc zero) table h d e two i j f g = absurd (omega arith)
chain_of-two (suc (suc n)) table h d e two i j f g = rw (i, j) (ground (arith, f, g))

chain_of-one :
    (n : ℕ) (table : ℕ → Desc) (h : ℕ) (d : Desc)
    → 1 ≤ n
    → table h ≡ d
    → bit_and d.flags flag_next ≡ 0
    → chain_of n table h ≡ d ∷ []
unfolding chain_of
chain_of-one zero table h d one i f = absurd (omega arith)
chain_of-one (suc n) table h d one i f = rw i (ground (arith, f))

last_offered-offer :
    (head : ℕ) (q : Queue) → q.avail_idx < 2 ^ 16 → last_offered (offer head q) ≡ head
unfolding offer
last_offered-offer head q lt =
    let slot : ((q.avail_idx + 1) % 2 ^ 16 + (2 ^ 16 - 1)) % 2 ^ 16 ≡ q.avail_idx = omega arith in
    rw slot (update_self q.avail_ring (q.avail_idx % q.size) head)

-- A command is offered as a chain of two descriptors, the command for the device to read and behind
-- it in the buffer the room for the response, which the device may write; a buffer is offered as a
-- chain of one. The queue stays valid, with one more entry available.
pub submit_command_lem :
    (dma cmd_size resp_size buffer len : ℕ) (q : Queue)
    → IsValid q
    → let q' = submit_command dma cmd_size resp_size q in
      let q'' = send_buffer buffer len q in
      (chain_of q.size q'.desc_table (last_offered q')
        ≡ record {
          addr = dma;
          len = cmd_size;
          flags = flag_next;
          next = (q.next_avail_idx + 1) % q.size;
        }
          ∷ record {
            addr = (dma + cmd_size) % 2 ^ 32;
            len = resp_size;
            flags = flag_write;
            next = 0;
          }
          ∷ [])
      × (chain_of q.size q''.desc_table (last_offered q'')
          ≡ record { addr = buffer; len = len; flags = 0; next = 0 } ∷ [])
      × IsValid q'
      × IsValid q''
      × (q'.avail_idx ≡ (q.avail_idx + 1) % 2 ^ 16)
      × (q''.avail_idx ≡ (q.avail_idx + 1) % 2 ^ 16)
unfolding submit_command send_buffer offer
submit_command_lem dma cmd_size resp_size buffer len q v =
    let h = q.next_avail_idx in
    let r = (h + 1) % q.size in
    let room = v.room in
    let ne : r ≢ h = next_ne q.size h room v.inside in
    let d : Desc = record { addr = dma; len = cmd_size; flags = flag_next; next = r } in
    let e : Desc = record {
      addr = (dma + cmd_size) % 2 ^ 32;
      len = resp_size;
      flags = flag_write;
      next = 0;
    } in
    let b : Desc = record { addr = buffer; len = len; flags = 0; next = 0 } in
    let q1 = record q { desc_table = update (update q.desc_table h d) r e } in
    let q2 = record q { desc_table = update q.desc_table h b } in
    let at_h =
      update_ne (update q.desc_table h d) r h e (λ i. ne (sym i)) ∙ update_self q.desc_table h d in
    let two =
      chain_of-two q.size q1.desc_table h d e room at_h (update_self (update q.desc_table h d) r e)
        (λ z. omega arith) refl in
    let one =
      chain_of-one q.size q2.desc_table h b (omega arith) (update_self q.desc_table h b) refl in
    let positive : 0 < q.size = omega arith in
    (
      ap (chain_of q.size q1.desc_table) (last_offered-offer h q1 v.index) ∙ two,
      ap (chain_of q.size q2.desc_table) (last_offered-offer h q2 v.index) ∙ one,
      record { room = room; inside = mod-lt (r + 1) positive; index = omega arith },
      record { room = room; inside = mod-lt (h + 1) positive; index = omega arith },
      refl,
      refl,
    )
