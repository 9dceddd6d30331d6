-- ===== src/Task/Buffer.antt =====
-- The buffer of the arrivals that find the task active.
use partsim.Prelude.{
  ℕ, zero, suc, ◌≤◌, ◌≡◌, refl, ap, true, arith, Bool-cases, inl, inr, some, List, [], ◌∷◌, ◌++◌,
  length, if◌then◌else◌,
}
use partsim.Prelude.Int.{ℤ, pos, negsuc, ◌+ℤ◌, ◌≤ℤ◌, leb_ℤ, int_laws}
use partsim.Prelude.Action.{return}
use partsim.Tick.{Tick}
use partsim.Task.{Task, pop_back, unbuff_all, buff_arrival, get_buff_arrival}

length-pop_back : (x : Tick) (xs : List Tick) → length (pop_back (x ∷ xs)) ≡ length xs
unfolding pop_back
length-pop_back x [] = refl
length-pop_back x (y ∷ ys) = ap suc (length-pop_back y ys)

pub unbuff_all_lem : (fuel : ℕ) (q : List Tick) → length q ≤ fuel → unbuff_all fuel q ≡ some []
unfolding unbuff_all
unbuff_all_lem fuel [] h = refl
unbuff_all_lem zero (x ∷ xs) h = absurd (omega arith)
unbuff_all_lem (suc fuel) (x ∷ xs) h =
    let l = length-pop_back x xs in unbuff_all_lem fuel (pop_back (x ∷ xs)) (omega (arith, l))

length-append : (q : List Tick) (t : Tick) → length (q ++ t ∷ []) ≡ suc (length q)
length-append [] t = refl
length-append (x ∷ xs) t = ap suc (length-append xs t)

-- Not more arrivals are buffered than one over the size.
abbrev pub IsBounded : {A : Type 0} → Task A → Type 0
IsBounded s = pos (length s.arr_queue) ≤ℤ s.arr_queue_size +ℤ pos 1

-- `buffArrival` on a buffer that holds at most one arrival over its size: the current time joins at
-- the end if at most the size was there, and otherwise the buffer stays; it holds at most one
-- arrival over its size again, and nothing else of the task changes.
pub buff_arrival-outcome :
    {A : Type 0} (s : Task A)
    → IsBounded s
    → ((buff_arrival s).0 ≡ return tt)
      × IsBounded (buff_arrival s).1
      × ((buff_arrival s).1.arr_queue ≡ (
          if leb_ℤ (pos (length s.arr_queue)) s.arr_queue_size
          then s.arr_queue ++ s.sim.glob_time ∷ []
          else s.arr_queue))
      × (record (buff_arrival s).1 { arr_queue = s.arr_queue } ≡ s)
unfolding buff_arrival
buff_arrival-outcome s b = elim (Bool-cases (leb_ℤ (pos (length s.arr_queue)) s.arr_queue_size)) [
  | inl h ↦
      let l = length-append s.arr_queue s.sim.glob_time in
      let fits : pos (length s.arr_queue) ≤ℤ s.arr_queue_size = ground arith in
      rw h (refl, rw l (one_over (length s.arr_queue) s.arr_queue_size fits), refl, refl)
  | inr h ↦ rw h (refl, b, refl, refl)
]
  where
    one_over : (n : ℕ) (size : ℤ) → pos n ≤ℤ size → pos (suc n) ≤ℤ size +ℤ pos 1
    one_over n size h = omega (int_laws, h)

-- The buffer of a task takes one arrival more than its size: with exactly the size there, one more
-- is buffered. And a size of -1 buffers nothing when the buffer is empty, instead of everything.
pub buff_arrival-exceeds_size :
    {A : Type 0} (s u : Task A)
    → pos (length s.arr_queue) ≡ s.arr_queue_size
    → u.arr_queue ≡ []
    → u.arr_queue_size ≡ negsuc 0
    → (pos (length (buff_arrival s).1.arr_queue) ≡ s.arr_queue_size +ℤ pos 1)
      × ((buff_arrival u).1.arr_queue ≡ [])
unfolding buff_arrival ◌+ℤ◌
buff_arrival-exceeds_size s u h e k =
    let fits : leb_ℤ (pos (length s.arr_queue)) s.arr_queue_size ≡ true = ground arith in
    let l = length-append s.arr_queue s.sim.glob_time in
    (rw fits (rw (← h) (rw l (ground arith))), rw (e, k) (ground arith))

-- Buffered arrivals are taken first in, first out: if an arrival is buffered behind others, the
-- next one taken is the first of those, and the new one is the last of what is left.
pub buff_arrival-fifo :
    {A : Type 0} (s : Task A) (t : Tick) (ts : List Tick)
    → s.arr_queue ≡ t ∷ ts
    → pos (length s.arr_queue) ≤ℤ s.arr_queue_size
    → ((get_buff_arrival (buff_arrival s).1).0 ≡ return t)
      × ((get_buff_arrival (buff_arrival s).1).1.arr_queue ≡ ts ++ s.sim.glob_time ∷ [])
unfolding buff_arrival get_buff_arrival
buff_arrival-fifo s t ts q h =
    let fits : leb_ℤ (pos (length s.arr_queue)) s.arr_queue_size ≡ true = ground arith in
    let joined : (buff_arrival s).1.arr_queue ≡ t ∷ (ts ++ s.sim.glob_time ∷ []) =
      rw fits (ap (λ l. l ++ s.sim.glob_time ∷ []) q) in
    (rw (joined, get_buff_arrival) refl, rw (joined, get_buff_arrival) refl)
