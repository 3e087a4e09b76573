-- ===== src/Ring/Mpsc/Refine/Pop.antt =====
-- `try_pop` on a ring that no other thread is using.
use my_arbitrager.Prelude.{
  ℕ, ◌+◌, ◌%◌, ◌^◌, ◌≤◌, ◌<◌, ◌≡◌, refl, sym, ap, subst, ◌∙◌, inl, inr, false, List, [], ◌∷◌, ◌++◌,
  append_assoc, some, none, arith, length, get_elem?, length-append, get_elem?-append_length,
  get_elem?_bound, of_some, set, store, store_in_bounds,
}
use my_arbitrager.Prelude.Bits.{IsPow2, add64}
use my_arbitrager.Prelude.Int.{below}
use my_arbitrager.Queue
use my_arbitrager.Queue.{Call, put, take, Reply}
use my_arbitrager.Ring.Mpsc.{Slot, Mpsc, diff, slot_index, try_pop, reclaim}
use my_arbitrager.Ring.Mpsc.Slots.{diff_behind, diff_reached}
use my_arbitrager.Ring.Mpsc.Threads.Invariant.{Filling, Published, SlotOf, Inv, Published-set}
use my_arbitrager.Ring.Mpsc.Threads.Access.{index, size_pos, full_turn, index_in}
use my_arbitrager.Ring.Mpsc.Threads.Pops.{ready-Inv, read-Inv, reclaim-Inv, advance-Inv}
use my_arbitrager.Ring.Mpsc.Refine.{resting, Represents}

module _ {A : Type 0} {size : ℕ} (p : IsPow2 size) where
  try_pop-empty :
      {r : Mpsc A} {popped : List A}
      → Represents size r popped []
      → length popped + size < 2 ^ 63
      → try_pop size r ≡ some (none, r)
  unfolding try_pop
  try_pop-empty {r} {popped} v short =
      rw
        (
          index p r.head,
          free.found,
          (diff_behind free.slot.sequence (add64 r.head 1) (omega (arith, at_low, size_pos p))
              (omega (arith, free.number, at_low, size_pos p))).1,
        )
        refl
    where
      at_low : r.head ≡ length popped
      at_low = v.inv.consumer_knows

      not_published : SlotOf size r.buffer (popped ++ []) r.head → Filling size r.buffer r.head
      not_published (inl f) = f
      not_published (inr f) = absurd (
          omega
            (arith, at_low, length-append popped [], get_elem?_bound (popped ++ []) r.head f.holds))

      free : Filling size r.buffer r.head
      free =
          not_published
            (v.inv.slots r.head (omega (arith, at_low), omega (arith, at_low, size_pos p)))

  module _ {r : Mpsc A} {popped : List A} {x : A} {xs : List A}
      (v : Represents size r popped (x ∷ xs)) where
    first : Published size r.buffer (popped ++ x ∷ xs) r.head
    first =
        v.published r.head (omega (arith, v.inv.consumer_knows))
          (omega (arith, v.inv.consumer_knows))

    first-item : first.slot.item ≡ x
    first-item = of_some (
        sym first.holds
        ∙ ap (get_elem? (popped ++ x ∷ xs)) v.inv.consumer_knows
        ∙ get_elem?-append_length popped xs x)

    back : Slot A
    back = record first.slot { sequence = add64 r.head size }

    abbrev shifted : Mpsc A
    shifted = record r { head = add64 r.head 1; buffer = set r.buffer (r.head % size) back }

    try_pop-taken :
        length popped + length xs + 1 + size < 2 ^ 63 → try_pop size r ≡ some (some x, shifted)
    unfolding try_pop reclaim back
    try_pop-taken short =
        rw
          (
            index p r.head,
            first.found,
            diff_reached first.slot.sequence (add64 r.head 1)
                (omega (arith, first.number, v.inv.consumer_knows)) (omega (arith, first.number)),
            store_in_bounds r.buffer (r.head % size) back (index_in p v.inv r.head),
            first-item,
          )
          refl

    shifted-Inv :
        length popped + length xs + 1 + size < 2 ^ 63
        → Inv size (resting shifted (popped ++ x ∷ xs) (popped ++ x ∷ []))
    unfolding slot_index back
    shifted-Inv short =
        subst (λ i. Inv size (resting shifted (popped ++ x ∷ xs) (popped ++ i ∷ []))) first-item
          (advance-Inv p
            (reclaim-Inv p (read-Inv p (ready-Inv p v.inv long refl found late) refl found) long
              refl found st)
            long refl)
      where
        long : length (popped ++ x ∷ xs) + size < 2 ^ 63
        long = omega (arith, length-append popped (x ∷ xs))

        found : get_elem? r.buffer (slot_index size r.head) ≡ some first.slot
        found = rw (index p r.head) first.found

        late : below (diff first.slot.sequence (add64 r.head 1)) 0 ≡ false
        late =
            diff_reached first.slot.sequence (add64 r.head 1)
              (omega (arith, first.number, v.inv.consumer_knows)) (omega (arith, first.number))

        st : store r.buffer (slot_index size r.head) back ≡ some shifted.buffer
        st =
            rw (index p r.head)
              (store_in_bounds r.buffer (r.head % size) back (index_in p v.inv r.head))

    shifted-Represents :
        length popped + length xs + 1 + size < 2 ^ 63
        → Represents size shifted (popped ++ x ∷ []) xs
    shifted-Represents short = record {
      inv =
          subst (λ l. Inv size (resting shifted l (popped ++ x ∷ [])))
            (sym (append_assoc popped (x ∷ []) xs)) (shifted-Inv short);
      published = λ q from to.
          subst (λ l. Published size shifted.buffer l q) (sym (append_assoc popped (x ∷ []) xs))
            (kept q (omega (arith, from, length-append popped (x ∷ [])))
              (omega (arith, to, length-append popped (x ∷ []))));
    }
      where
        room : length (x ∷ xs) ≤ size
        room = omega (arith, full_turn p v.inv, length-append popped (x ∷ xs))

        kept :
            (q : ℕ)
            → length popped < q
            → q < length popped + 1 + length xs
            → Published size shifted.buffer (popped ++ x ∷ xs) q
        kept q from to =
            Published-set size {low = length popped} r.buffer r.head back
              (omega (arith, v.inv.consumer_knows), omega (arith, v.inv.consumer_knows, size_pos p))
              q (omega (arith, from), omega (arith, to, room))
              (λ e. absurd (omega (arith, e, from, v.inv.consumer_knows)))
              (v.published q (omega (arith, from)) (omega (arith, to)))

  -- `try_pop` returns what `poll` returns, and keeps the other entries.
  pub try_pop-refines :
      {r : Mpsc A} {popped : List A} (xs : List A)
      → Represents size r popped xs
      → length popped + length xs + 1 + size < 2 ^ 63
      → let (x, ys) = Queue.poll xs in
        (r' : Mpsc A) × (try_pop size r ≡ some (x, r'))
        × (popped' : List A) × (length popped' + length ys ≡ length popped + length xs)
        × Represents size r' popped' ys
  unfolding Queue.poll
  try_pop-refines {r} {popped} [] v short = (r, try_pop-empty v (omega arith), popped, refl, v)
  try_pop-refines {popped = popped} (x ∷ xs) v short = (
    shifted v,
    try_pop-taken v (omega arith),
    popped ++ x ∷ [],
    omega (arith, length-append popped (x ∷ [])),
    shifted-Represents v (omega arith),
  )
