-- ===== src/Heap/Apart.antt =====
-- The blocks of the heap: those that were handed out and those that are free do not overlap.
use capstone_myos.Prelude.{
  ◌∙◌, ℕ, zero, suc, ◌+◌, ◌*◌, ◌-◌, ◌%◌, ◌^◌, ◌≤◌, ◌<◌, ◌≡◌, ◌≢◌, refl, Bool, true, false, ◌||◌,
  Option, none, some, List, ◌∷◌, ◌==◌, leb, update, update_self, update_ne, Bool-cases, ◌⊎◌, inl,
  inr, arith, ==_iff, ==_of_ne, bit_and-high, ap, sym,
}
use mathlib.Core.Path.{subst}
use capstone_myos.Pmm.{alloc_frame, frame_size}
use capstone_myos.Heap.{Heap, first_fit, align, grow, take_top, malloc, free}
use capstone_myos.Heap.Fit.{elem, IsDistinct, IsFit, first_fit-IsFit}

-- The headers of the blocks that were handed out are those at which `live` is true.
abbrev pub in_use : Heap → (ℕ → Bool) → ℕ → Bool
in_use h live b = live b || elem b h.free_list

-- Where the block behind a header ends.
abbrev pub block_end : Heap → ℕ → ℕ
block_end h b = b + 8 + h.sizes b

pub record IsHeap (h : Heap) (live : ℕ → Bool) : Type 0 where
  pub apart :
      (b c : ℕ)
      → in_use h live b ≡ true
      → in_use h live c ≡ true
      → b ≢ c
      → (block_end h b ≤ c) ⊎ (block_end h c ≤ b)
  pub below : (b : ℕ) → in_use h live b ≡ true → block_end h b ≤ h.heap_top
  pub once : (b : ℕ) → live b ≡ true → elem b h.free_list ≡ false
  pub distinct : IsDistinct h.free_list
  pub room : h.heap_top ≤ h.heap_end
  pub pages : h.heap_end % 4 ≡ 0

align_lem :
    (top : ℕ) → top + 3 < 2 ^ 32 → (top ≤ align top) × (align top ≤ top + 3) × (align top % 4 ≡ 0)
unfolding align
align_lem top lt =
    let e : (top + 3) % 2 ^ 32 ≡ top + 3 = omega arith in
    let m = bit_and-high 2 30 (top + 3) in
    elim (Bool-cases (top % 4 == 0)) [
      | inl even ↦ rw even (omega arith, omega arith, ground (arith, even))
      | inr odd ↦ rw (odd, e, m) (omega arith, omega arith, omega arith)
    ]

-- What a run of the growth leaves: only the end of the heap and its frames differ.
abbrev IsGrown : ℕ → Heap → Option (Bool × Heap) → Type 0
IsGrown size h none = Unit
IsGrown size h (some (room, h')) =
    (h'.heap_top ≡ h.heap_top)
    × (h'.free_list ≡ h.free_list)
    × (h'.sizes ≡ h.sizes)
    × (h.heap_end ≤ h'.heap_end)
    × (h'.heap_end % 4 ≡ 0)
    × (h'.heap_end < 2 ^ 32)
    × (room ≡ true → h.heap_top + 8 + size ≤ h'.heap_end)

IsGrown-if :
    (size : ℕ) (h : Heap) (b c : Bool) (x y : Bool × Heap) (r : Option (Bool × Heap))
    → (b ≡ true → IsGrown size h (some x))
    → IsGrown size h (some y)
    → IsGrown size h r
    → IsGrown size h (
        let o : Option (Bool × Heap) = elim b [
          | true ↦ some x
          | false ↦ elim c [ true ↦ some y | false ↦ r ]
        ] in
        o)
IsGrown-if size h true c x y r first second third = first refl
IsGrown-if size h false true x y r first second third = second
IsGrown-if size h false false x y r first second third = third

IsGrown-step :
    (size : ℕ) (h h' : Heap) (r : Option (Bool × Heap))
    → h'.heap_top ≡ h.heap_top
    → h'.free_list ≡ h.free_list
    → h'.sizes ≡ h.sizes
    → h.heap_end ≤ h'.heap_end
    → IsGrown size h' r
    → IsGrown size h r
IsGrown-step size h h' none t f s e g = tt
IsGrown-step size h h' (some (room, h'')) t f s e (a, b, c, d, al, u, fits) =
    (a ∙ t, b ∙ f, c ∙ s, omega arith, al, u, λ yes_room. omega (arith, fits yes_room))

grow-IsGrown :
    (fuel size : ℕ) (h : Heap)
    → h.heap_end % 4 ≡ 0
    → h.heap_end + fuel * 4096 < 2 ^ 32
    → h.heap_top + 8 + size < 2 ^ 32
    → IsGrown size h (grow fuel size h)
unfolding grow
grow-IsGrown zero size h al lt sm = tt
grow-IsGrown (suc fuel) size h al lt sm =
    let p' = (alloc_frame h.pmm).1 in
    let frame = (alloc_frame h.pmm).0 in
    let grown = record h {
      pmm = p';
      mapped = (h.heap_end, frame) ∷ h.mapped;
      heap_end = (h.heap_end + frame_size) % 2 ^ 32;
    } in
    let e : (h.heap_end + frame_size) % 2 ^ 32 ≡ h.heap_end + 4096 = omega arith in
    let s : (h.heap_top + 8 + size) % 2 ^ 32 ≡ h.heap_top + 8 + size = omega arith in
    let ih = grow-IsGrown fuel size grown (omega arith) (omega arith) sm in
    IsGrown-if size h (leb ((h.heap_top + 8 + size) % 2 ^ 32) h.heap_end) (frame == 0) (true, h)
      (false, record h { pmm = p' }) (grow fuel size grown)
      (λ fits. (refl, refl, refl, omega arith, al, omega arith, λ _. ground (arith, fits, s)))
      (refl, refl, refl, omega arith, al, omega arith, λ no_room. absurd (ground (arith, no_room)))
      (IsGrown-step size h grown (grow fuel size grown) refl refl refl (omega (arith, e)) ih)

-- malloc's answer for a block of `size` bytes: NULL, or the header 8 bytes below stands for a new
-- block of at least that size, and no other size has changed.
abbrev pub IsAnswer : ℕ → Heap → (ℕ → Bool) → Option (ℕ × Heap) → Type 0
IsAnswer size h live none = Unit
IsAnswer size h live (some (p, h')) =
    ((p ≡ 0) × IsHeap h' live)
    ⊎ ((b : ℕ) × (p ≡ b + 8)
        × (live b ≡ false)
        × (size ≤ h'.sizes b)
        × ((c : ℕ) → c ≢ b → h'.sizes c ≡ h.sizes c)
        × IsHeap h' (update live b true))

-- A free block is taken.
IsHeap-fit :
    (size c : ℕ) (rest : List ℕ) (h : Heap) (live : ℕ → Bool)
    → IsHeap h live
    → IsFit h.sizes size h.free_list (some (c, rest))
    → IsHeap (record h { free_list = rest }) (update live c true)
IsHeap-fit size c rest h live v (i, le, set, same) =
    let used : (b : ℕ)
        → in_use (record h { free_list = rest }) (update live c true) b ≡ true
        → in_use h live b ≡ true =
      λ b u. ground (arith, same b, u, i) in
    record {
      apart = λ b d ub ud ne. v.apart b d (used b ub) (used d ud) ne;
      below = λ b ub. v.below b (used b ub);
      once = λ b l. ground (arith, same b, v.once b, l);
      distinct = set;
      room = v.room;
      pages = v.pages;
    }

-- The heap behind the alignment and the growth, before a block is taken.
IsHeap-grown :
    (size : ℕ) (room : Bool) (h h' : Heap) (live : ℕ → Bool)
    → IsHeap h live
    → h.heap_top + 3 < 2 ^ 32
    → IsGrown size (record h { heap_top = align h.heap_top }) (some (room, h'))
    → IsHeap h' live
IsHeap-grown size room h h' live v lt (t, f, s, e, al, u, fits) =
    let a = align_lem h.heap_top lt in
    let room = v.room in
    let pages = v.pages in
    let used : (b : ℕ) → in_use h' live b ≡ true → in_use h live b ≡ true =
      λ b u. subst (λ l. live b || elem b l ≡ true) f u in
    let ends : (b : ℕ) → block_end h' b ≡ block_end h b = λ b. ap (λ (z : ℕ → ℕ). b + 8 + z b) s in
    record {
      apart = λ b c ub uc ne. elim (v.apart b c (used b ub) (used c uc) ne) [
        | inl x ↦ inl (omega (arith, ends b))
        | inr x ↦ inr (omega (arith, ends c))
      ];
      below = λ b ub. omega (arith, ends b, v.below b (used b ub));
      once = λ b l. subst (λ x. elem b x ≡ false) (sym f) (v.once b l);
      distinct = subst IsDistinct (sym f) v.distinct;
      room = omega arith;
      pages = al;
    }

-- A block at the top.
IsHeap-top :
    (size : ℕ) (h : Heap) (live : ℕ → Bool)
    → IsHeap h live
    → h.heap_top + 8 + size ≤ h.heap_end
    → h.heap_end < 2 ^ 32
    → IsAnswer size h live (some (take_top size h))
unfolding take_top
IsHeap-top size h live v fits lt =
    let top = h.heap_top in
    let sizes = update h.sizes top size in
    let e : (top + (8 + size)) % 2 ^ 32 ≡ top + 8 + size = omega arith in
    let p : (top + 8) % 2 ^ 32 ≡ top + 8 = omega arith in
    let unused : in_use h live top ≡ false = elim (Bool-cases (in_use h live top)) [
      | inl u ↦ absurd (omega (arith, v.below top u))
      | inr u ↦ u
    ] in
    let h' = record h { heap_top = (top + (8 + size)) % 2 ^ 32; sizes = sizes } in
    let known : (b : ℕ)
        → in_use h' (update live top true) b ≡ true
        → (b ≡ top) ⊎ (in_use h live b ≡ true) =
      λ b u. elim (Bool-cases (b == top)) [
        | inl same ↦ inl ((==_iff b top).0 same)
        | inr other ↦ inr (ground (arith, other, u))
      ] in
    let end_top : block_end h' top ≡ top + 8 + size =
      ap (λ (x : ℕ). top + 8 + x) (update_self h.sizes top size) in
    let old_end : (b : ℕ) → in_use h live b ≡ true → block_end h' b ≡ block_end h b = λ b u.
      let ne : b ≢ top = λ i. omega (arith, v.below b u, i) in
      ap (λ (x : ℕ). b + 8 + x) (update_ne h.sizes top b size ne) in
    inr (
      top,
      p,
      ground (arith, unused),
      omega (arith, update_self h.sizes top size),
      (λ c ne. update_ne h.sizes top c size ne),
      record {
        apart = λ b c ub uc ne. elim (known b ub) [
          | inl bt ↦ elim (known c uc) [
            | inl ct ↦ absurd (ne (bt ∙ sym ct))
            | inr oc ↦ inr (omega (arith, old_end c oc, v.below c oc, bt))
          ]
          | inr ob ↦ elim (known c uc) [
            | inl ct ↦ inl (omega (arith, old_end b ob, v.below b ob, ct))
            | inr oc ↦ elim (v.apart b c ob oc ne) [
              | inl x ↦ inl (omega (arith, old_end b ob))
              | inr x ↦ inr (omega (arith, old_end c oc))
            ]
          ]
        ];
        below = λ b ub. elim (known b ub) [
          | inl bt ↦ subst (λ x. block_end h' x ≤ h'.heap_top) (sym bt) (omega (arith, end_top, e))
          | inr ob ↦ omega (arith, old_end b ob, v.below b ob, e)
        ];
        once = λ b l. elim (Bool-cases (b == top)) [
          | inl same ↦ ground (arith, unused, same)
          | inr other ↦ v.once b (ground (arith, other, l))
        ];
        distinct = v.distinct;
        room = omega (arith, e);
        pages = v.pages;
      },
    )

module _ (size : ℕ) (h : Heap) (live : ℕ → Bool) (v : IsHeap h live) where
  IsAnswer-grown :
      (r : Option (Bool × Heap))
      → h.heap_top + 3 < 2 ^ 32
      → IsGrown size (record h { heap_top = align h.heap_top }) r
      → IsAnswer size h live (
          let o : Option (ℕ × Heap) = elim r [
            | none ↦ none
            | some (room, h') ↦ elim room [ true ↦ some (take_top size h') | false ↦ some (0, h') ]
          ] in
          o)
  IsAnswer-grown none lt g = tt
  IsAnswer-grown (some (false, h')) lt g = inl (refl, IsHeap-grown size false h h' live v lt g)
  IsAnswer-grown (some (true, h')) lt g =
      let v' = IsHeap-grown size true h h' live v lt g in
      let fits : h'.heap_top + 8 + size ≤ h'.heap_end = omega (arith, g.6 refl, g.0) in
      elim (IsHeap-top size h' live v' fits g.5) [
        | inl (z, u) ↦ inl (z, u)
        | inr (b, p, l, e, same, u) ↦
            inr (b, p, l, e, (λ c ne. same c ne ∙ ap (λ (z : ℕ → ℕ). z c) g.2), u)
      ]

  IsAnswer-fit :
      (fit : Option (ℕ × List ℕ)) (r : Option (ℕ × Heap))
      → h.heap_end < 2 ^ 32
      → IsFit h.sizes size h.free_list fit
      → IsAnswer size h live r
      → IsAnswer size h live (
          let o : Option (ℕ × Heap) = elim fit [
            | some (b, rest) ↦ some ((b + 8) % 2 ^ 32, record h { free_list = rest })
            | none ↦ r
          ] in
          o)
  IsAnswer-fit none r lt f a = a
  IsAnswer-fit (some (c, rest)) r lt f a =
      let room = v.room in
      let free : in_use h live c ≡ true = ground (arith, f.0) in
      let address : (c + 8) % 2 ^ 32 ≡ c + 8 = omega (arith, v.below c free) in
      inr (
        c,
        address,
        ground (arith, v.once c, f.0),
        f.1,
        (λ d ne. refl),
        IsHeap-fit size c rest h live v f,
      )

  IsAnswer-size :
      (b : Bool) (r : Option (ℕ × Heap))
      → IsAnswer size h live r
      → IsAnswer size h live
          (let o : Option (ℕ × Heap) = elim b [ true ↦ some (0, h) | false ↦ r ] in o)
  IsAnswer-size true r a = inl (refl, v)
  IsAnswer-size false r a = a

-- On a heap whose blocks, handed out and free, do not overlap and lie below its top, malloc keeps
-- that, while the sizes stay clear of the end of the addresses: it answers NULL and hands out no
-- block, or it hands out a block of at least the size that was asked for, that was not handed out,
-- and changes the size of no other block.
pub malloc_lem :
    (fuel size : ℕ) (h : Heap) (live : ℕ → Bool)
    → IsHeap h live
    → h.heap_end + fuel * 4096 + size + 16 < 2 ^ 32
    → IsAnswer size h live (malloc fuel size h)
unfolding malloc
malloc_lem fuel size h live v lt =
    let room = v.room in
    let aligned = record h { heap_top = align h.heap_top } in
    let a = align_lem h.heap_top (omega arith) in
    let g = grow-IsGrown fuel size aligned v.pages (omega arith) (omega arith) in
    IsAnswer-size size h live v (size == 0) _ (
      IsAnswer-fit size h live v (first_fit h.sizes size h.free_list) _ (omega arith)
        (first_fit-IsFit h.sizes size h.free_list v.distinct)
        (IsAnswer-grown size h live v (grow fuel size aligned) (omega arith) g))

free-IsHeap :
    (b : ℕ) (h : Heap) (live : ℕ → Bool)
    → IsHeap h live
    → live b ≡ true
    → b + 8 < 2 ^ 32
    → IsHeap (free (b + 8) h) (update live b false)
unfolding free
free-IsHeap b h live v l lt =
    let e : (b + 8 + (2 ^ 32 - 8)) % 2 ^ 32 ≡ b = omega arith in
    let z : (b + 8 == 0) ≡ false = ==_of_ne (b + 8) 0 (λ i. omega arith) in
    let h' = record h { free_list = b ∷ h.free_list } in
    let used : (c : ℕ) → in_use h' (update live b false) c ≡ true → in_use h live c ≡ true = λ c u.
      elim (Bool-cases (c == b)) [
        | inl same ↦ ground (arith, same, l)
        | inr other ↦ ground (arith, other, u)
      ] in
    rw (z, e)
      (record {
        apart = λ c d uc ud ne. v.apart c d (used c uc) (used d ud) ne;
        below = λ c uc. v.below c (used c uc);
        once = λ c lc. ground (arith, v.once c, lc);
        distinct = (v.once b l, v.distinct);
        room = v.room;
        pages = v.pages;
      })

free-front :
    (b : ℕ) (h : Heap) → b + 8 < 2 ^ 32 → free (b + 8) h ≡ record h { free_list = b ∷ h.free_list }
unfolding free
free-front b h lt =
    let e : (b + 8 + (2 ^ 32 - 8)) % 2 ^ 32 ≡ b = omega arith in
    let z : (b + 8 == 0) ≡ false = ==_of_ne (b + 8) 0 (λ i. omega arith) in rw (z, e) refl

malloc-front :
    (fuel size b : ℕ) (h : Heap)
    → b + 8 < 2 ^ 32
    → 0 < size
    → size ≤ h.sizes b
    → malloc fuel size (record h { free_list = b ∷ h.free_list }) ≡ some (b + 8, h)
unfolding malloc first_fit
malloc-front fuel size b h lt pos le =
    let z : (size == 0) ≡ false = ==_of_ne size 0 (λ i. omega arith) in
    let fits : leb size (h.sizes b) ≡ true = ground arith in
    let e : (b + 8) % 2 ^ 32 ≡ b + 8 = omega arith in rw (malloc, z) (rw (fits, e) refl)

-- Freeing a block that was handed out keeps the blocks apart, now with that block as a free one. It can
-- be handed out again: a call of malloc that follows, for a size from 1 to the block's, gives the same
-- pointer and the heap as it was before the block was freed.
pub free_lem :
    (b fuel size : ℕ) (h : Heap) (live : ℕ → Bool)
    → IsHeap h live
    → live b ≡ true
    → b + 8 < 2 ^ 32
    → 0 < size
    → size ≤ h.sizes b
    → IsHeap (free (b + 8) h) (update live b false)
      × (elem b (free (b + 8) h).free_list ≡ true)
      × (malloc fuel size (free (b + 8) h) ≡ some (b + 8, h))
free_lem b fuel size h live v l lt pos le =
    let e = free-front b h lt in
    (free-IsHeap b h live v l lt, rw e (ground arith), rw e (malloc-front fuel size b h lt pos le))
