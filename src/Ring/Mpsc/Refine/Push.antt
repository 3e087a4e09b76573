-- ===== src/Ring/Mpsc/Refine/Push.antt =====
-- `try_push` on a ring that no other thread is using.
use my_arbitrager.Prelude.{
  ℕ, ◌+◌, ◌%◌, ◌^◌, ◌≤◌, ◌<◌, ◌≡◌, refl, sym, ap, subst, ◌∙◌, inl, inr, true, false, List, [], ◌∷◌,
  ◌++◌, append_assoc, some, arith, length, get_elem?, length-append, get_elem?-set_self,
  get_elem?-append_length, get_elem?_bound, set, store_in_bounds, leb,
}
use native.Mathlib.Decide.{dec_le, ℕ_discrete}
use native.Mathlib.Nat.{add-mod_right}
use my_arbitrager.Prelude.Bits.{IsPow2, add64}
use my_arbitrager.Prelude.Int.{below}
use my_arbitrager.Queue
use my_arbitrager.Queue.{Call, put, take, Reply}
use my_arbitrager.Ring.Mpsc.{Slot, Mpsc, diff, is_zero, push_loop, try_push, fill, count}
use my_arbitrager.Ring.Mpsc.Slots.{diff_equal, diff_behind}
use my_arbitrager.Ring.Mpsc.Threads.{Producer, move}
use my_arbitrager.Ring.Mpsc.Threads.Invariant.{
  Filling, Published, SlotOf, Inv, Published-set, Published-append,
}
use my_arbitrager.Ring.Mpsc.Threads.Steps.{quiet-Inv, fill-Inv}
use my_arbitrager.Ring.Mpsc.Threads.Access.{index, size_pos, full_turn, index_in}
use my_arbitrager.Ring.Mpsc.Threads.Pushes.{claim-Inv}
use my_arbitrager.Ring.Mpsc.Refine.{resting, Represents}

module _ {A : Type 0} {size : ℕ} (p : IsPow2 size) where
  module _ {r : Mpsc A} {popped xs : List A} (v : Represents size r popped xs) where
    abbrev w : A → Slot A
    w x = record { sequence = add64 r.tail 1; item = x }

    abbrev filled : A → Mpsc A
    filled x = record r { tail = add64 r.tail 1; buffer = set r.buffer (r.tail % size) (w x) }

    ends : r.tail ≡ length popped + length xs
    ends = v.inv.tail_at ∙ length-append popped xs

    -- `size()` is exact on a ring that no other thread is using.
    pub count_lem : length popped + length xs < 2 ^ 64 → count r ≡ length xs
    unfolding count
    count_lem short = omega (arith, ends, v.inv.consumer_knows)

    bound : length xs ≤ size
    bound = omega (arith, full_turn p v.inv, length-append popped xs)

    filled-Published :
        (x : A)
        → length popped + length xs + size < 2 ^ 63
        → Published size (filled x).buffer ((popped ++ xs) ++ x ∷ []) r.tail
    filled-Published x short = record {
      slot = w x;
      found = get_elem?-set_self r.buffer (r.tail % size) (w x) (index_in p v.inv r.tail);
      number = omega (arith, ends);
      holds =
          ap (get_elem? ((popped ++ xs) ++ x ∷ [])) v.inv.tail_at
          ∙ get_elem?-append_length (popped ++ xs) [] x;
    }

    filled-Inv :
        (x : A)
        → length xs < size
        → length popped + length xs + 1 + size < 2 ^ 63
        → Inv size (resting (filled x) ((popped ++ xs) ++ x ∷ []) popped)
    filled-Inv x room short =
        let after =
          fill-Inv (claim-Inv p checked 0 long refl refl) 0 r.tail (w x) Producer.idle (size_pos p)
            refl tt (λ q f. elim f [ ]) (inr (filled-Published x (omega (arith, short)))) in
        record {
          waiting = after.waiting;
          split = after.split;
          room = after.room;
          tail_at = after.tail_at;
          sized = after.sized;
          slots = after.slots;
          producers_know = λ j. tt;
          apart = λ i j q ne f g. f;
          consumer_knows = after.consumer_knows;
        }
      where
        long : length ((popped ++ xs) ++ x ∷ []) + size < 2 ^ 63
        long = omega (arith, length-append (popped ++ xs) (x ∷ []), length-append popped xs)

        checked : Inv size (record (resting r (popped ++ xs) popped) {
          producers = move (λ _. Producer.idle) 0 (Producer.checked x r.tail);
        })
        checked =
            quiet-Inv v.inv 0 (Producer.checked x r.tail)
              (omega (arith, v.inv.tail_at), omega (arith, ends)) (λ q f. f)

    filled-Represents :
        (x : A)
        → length xs < size
        → length popped + length xs + 1 + size < 2 ^ 63
        → Represents size (filled x) popped (xs ++ x ∷ [])
    filled-Represents x room short = record {
      inv =
          subst (λ l. Inv size (resting (filled x) l popped)) (append_assoc popped xs (x ∷ []))
            (filled-Inv x room short);
      published = λ q from to.
          subst (λ l. Published size (filled x).buffer l q) (append_assoc popped xs (x ∷ []))
            (entries q from to);
    }
      where
        entries :
            (q : ℕ)
            → length popped ≤ q
            → q < length popped + length (xs ++ x ∷ [])
            → Published size (filled x).buffer ((popped ++ xs) ++ x ∷ []) q
        entries q from to = elim (ℕ_discrete q r.tail) [
          | yes e ↦
              subst (Published size (filled x).buffer ((popped ++ xs) ++ x ∷ [])) (sym e)
                (filled-Published x (omega (arith, short)))
          | no ne ↦ Published-append (x ∷ []) (
              Published-set size r.buffer r.tail (w x) (omega (arith, ends), omega (arith, ends)) q
                (from, omega (arith, to, length-append xs (x ∷ []))) ne
                (v.published q from (omega (arith, to, ends, ne, length-append xs (x ∷ [])))))
        ]

    try_push-full :
        (x : A)
        → 2 ≤ size
        → size ≤ length xs
        → length popped + length xs + size < 2 ^ 63
        → try_push size 1 r x ≡ some (false, r)
    unfolding try_push push_loop
    try_push-full x two full short =
        rw (index p r.tail, same_slot, first.found, signs.0, signs.1) refl
      where
        first : Published size r.buffer (popped ++ xs) (length popped)
        first = v.published (length popped) (omega arith) (omega arith)

        same_slot : r.tail % size ≡ length popped % size
        same_slot =
            ap (λ i. i % size) (omega (arith, ends, bound)) ∙ add-mod_right (length popped) size

        signs :
            (is_zero (diff first.slot.sequence r.tail) ≡ false)
            × (below (diff first.slot.sequence r.tail) 0 ≡ true)
        signs =
            diff_behind first.slot.sequence r.tail (omega (arith, ends))
              (omega (arith, ends, first.number))

    try_push-stored :
        (x : A)
        → length xs < size
        → length popped + length xs + size < 2 ^ 63
        → try_push size 1 r x ≡ some (true, filled x)
    unfolding try_push push_loop fill
    try_push-stored x room short =
        rw
          (
            index p r.tail,
            free.found,
            diff_equal free.slot.sequence r.tail (omega (arith, ends, free.number)) free.number,
            store_in_bounds r.buffer (r.tail % size) (w x) (index_in p v.inv r.tail),
          )
          refl
      where
        not_published : SlotOf size r.buffer (popped ++ xs) r.tail → Filling size r.buffer r.tail
        not_published (inl f) = f
        not_published (inr f) =
            absurd (omega (arith, v.inv.tail_at, get_elem?_bound (popped ++ xs) r.tail f.holds))

        free : Filling size r.buffer r.tail
        free = not_published (v.inv.slots r.tail (omega (arith, ends), omega (arith, ends)))

    -- `try_push` returns what `offer` returns, in one turn of its loop, and keeps the entries.
    pub try_push-refines :
        (x : A)
        → 2 ≤ size
        → length popped + length xs + 1 + size < 2 ^ 63
        → let (ok, ys) = Queue.offer size xs x in
          (r' : Mpsc A) × (try_push size 1 r x ≡ some (ok, r')) × Represents size r' popped ys
    unfolding Queue.offer
    try_push-refines x two short = elim (dec_le size (length xs)) [
      | yes h ↦ rw (leb_true h) (r, try_push-full x two h (omega arith), v)
      | no h ↦ rw (leb_false h) (
        filled x,
        try_push-stored x (omega arith) (omega arith),
        filled-Represents x (omega arith) short,
      )
    ]
      where
        leb_true : size ≤ length xs → leb size (length xs) ≡ true
        leb_true h = ground arith

        leb_false : ¬ (size ≤ length xs) → leb size (length xs) ≡ false
        leb_false h = ground arith
