-- ===== src/Ring/Blocking/Refine.antt =====
-- The blocking ring with and without overwriting, as bounded queues, when no other thread is in a call.
use my_arbitrager.Prelude.{
  ℕ, suc, ◌+◌, ◌-◌, ◌≤◌, ◌<◌, ◌≡◌, refl, ◌∙◌, true, false, List, [], ◌∷◌, ◌++◌, some, arith, length,
  length-append, length-set, set, store_in_bounds, leb, if◌then◌else◌, Bool-cases, if-true,
  if-false, inl, inr,
}
use my_arbitrager.Prelude.Bits.{IsPow2, add64}
use my_arbitrager.Queue
use my_arbitrager.Ring.Window.{step, next_index-eq-step, Holds-set}
use my_arbitrager.Ring.Spsc.{Spsc, capacity}
use my_arbitrager.Ring.Spsc.Refine.{Represents, next-head, pushed-Represents, pushed}
use my_arbitrager.Ring.Blocking.{Blocking, append, overwrite, push}

module _ {ℓ} {A : Type ℓ} {size : ℕ} (p : IsPow2 size) where
  module _ (b : Blocking A) {xs : List A} (item : A) (v : Represents size b.ring xs) where
    -- The states that `push` leaves of a ring with room, and of a full one in overwrite mode.
    abbrev pub appended : Blocking A
    appended = record b { ring = pushed p v item }

    abbrev pub overwritten : Blocking A
    overwritten = record b {
      ring = record {
        head = step size b.ring.head;
        tail = step size b.ring.tail;
        buffer = set b.ring.buffer b.ring.tail item;
      };
      dropped_count = add64 b.dropped_count 1;
    }

    tail_in : b.ring.tail < size
    tail_in = ground arith

    pub append_lem : append size b item ≡ some (true, appended)
    unfolding append
    append_lem = rw (
      store_in_bounds b.ring.buffer b.ring.tail item (ground (arith, tail_in)),
      next_index-eq-step b.ring.tail p tail_in,
    )

    pub overwrite_lem : overwrite size b item ≡ some (true, overwritten)
    unfolding overwrite
    overwrite_lem = rw (
      store_in_bounds b.ring.buffer b.ring.tail item (ground (arith, tail_in)),
      next_index-eq-step b.ring.tail p tail_in,
      next_index-eq-step b.ring.head p v.head_in,
    )

    pub push-room :
        leb (capacity size) (length xs) ≡ false → push size b item ≡ some (true, appended)
    unfolding push
    push-room room = rw (next-head p v ∙ room) append_lem

    pub push-full_overwrite :
        leb (capacity size) (length xs) ≡ true
        → b.overwrite_on_full ≡ true
        → push size b item ≡ some (true, overwritten)
    unfolding push
    push-full_overwrite full mode = rw (next-head p v ∙ full) (if-true _ _ mode ∙ overwrite_lem)

    -- With overwriting off, and no other thread in a call, `push` is a bounded queue's `offer`, and
    -- counts no drop.
    push-refines-offer :
        b.overwrite_on_full ≡ false
        → let (ok, ys) = Queue.offer (capacity size) xs item in
          (r : Spsc A) × (push size b item ≡ some (ok, record b { ring = r }))
          × Represents size r ys
    unfolding Queue.offer push capacity
    push-refines-offer mode = elim (Bool-cases (leb (capacity size) (length xs))) [
      | inl full ↦ rw full (b.ring, rw (next-head p v ∙ full) (if-false _ _ mode), v)
      | inr room ↦
          rw room (pushed p v item, push-room room, pushed-Represents p v item (leb_room room))
    ]
      where
        leb_room : leb (capacity size) (length xs) ≡ false → length xs + 1 < size
        leb_room h = ground arith

  pub overwritten-Represents :
      (b : Blocking A) (y : A) (q : List A) (item : A) (v : Represents size b.ring (y ∷ q))
      → size ≤ length q + 2
      → Represents size (overwritten b item v).ring (q ++ item ∷ [])
  overwritten-Represents b y q item v full = record {
    sized = length-set b.ring.buffer b.ring.tail item ∙ v.sized;
    head_in = ground arith;
    room = omega (arith, length-append q (item ∷ []));
    tail_at = ground (arith, length-append q (item ∷ []));
    held =
        (Holds-set size b.ring.buffer item (y ∷ q) b.ring.head b.ring.tail v.sized v.head_in v.room
          v.tail_at v.held).1;
  }

  -- With overwriting on, and no other thread in a call, a ring of two slots or more is a queue that
  -- drops its oldest entry to take a new one when full: `push` returns `true`, never leaves the
  -- buffer, and counts exactly the drops.
  pub push-refines-displace :
      (b : Blocking A) (xs : List A) (item : A)
      → 2 ≤ size
      → b.overwrite_on_full ≡ true
      → Represents size b.ring xs
      → let (dropped, ys) = Queue.displace (capacity size) xs item in
        (b' : Blocking A) × (push size b item ≡ some (true, b'))
        × Represents size b'.ring ys
        × (b'.dropped_count ≡ (if dropped then add64 b.dropped_count 1 else b.dropped_count))
        × (b'.overwrite_on_full ≡ true)
  unfolding Queue.displace capacity
  push-refines-displace b [] item two mode v = (
    appended b item v,
    push-room b item v (ground arith),
    pushed-Represents p v item two,
    refl,
    mode,
  )
  push-refines-displace b (y ∷ q) item two mode v =
      elim (Bool-cases (leb (size - 1) (suc (length q)))) [
        | inl full ↦ rw full (
          overwritten b item v,
          push-full_overwrite b item v full mode,
          overwritten-Represents b y q item v (ground arith),
          refl,
          mode,
        )
        | inr room ↦ rw room (
          appended b item v,
          push-room b item v room,
          pushed-Represents p v item (ground arith),
          refl,
          mode,
        )
      ]
