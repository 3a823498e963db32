-- ===== src/Connection/Queue.antt =====
-- The queue of payloads that wait for the channel to be secure.
use rift_net.Base.{
  ℕ, ◌+◌, ◌-◌, ◌%◌, ◌<◌, ◌≤◌, ◌^◌, ◌≡◌, inl, inr, refl, ap, ltb, Bool-cases, List, [], ◌∷◌, ◌++◌,
  length, length-append, arith,
}
use rift_net.Connection.{PendingSend, max_pending_bytes, drop_oldest}

-- The bytes of all payloads of a queue.
unfoldable pub total : List PendingSend → ℕ
total [] = 0
total (p ∷ queue) = length p.bytes + total queue

total-append : (xs ys : List PendingSend) → total (xs ++ ys) ≡ total xs + total ys
unfolding total
total-append [] ys = omega arith
total-append (x ∷ xs) ys = omega (arith, total-append xs ys)

-- `kept` is the longest end of `queue` that fits the limit, and `count` its number of bytes.
pub record LongestEnd (queue kept : List PendingSend) (count : ℕ) : Type 0 where
  pub counted : count ≡ total kept
  pub fits : count ≤ max_pending_bytes
  pub dropped : List PendingSend
  pub split : queue ≡ dropped ++ kept
  pub longest :
      (front end : List PendingSend)
      → queue ≡ front ++ end
      → total end ≤ max_pending_bytes
      → length end ≤ length kept

whole-LongestEnd :
    (queue : List PendingSend)
    → total queue ≤ max_pending_bytes
    → LongestEnd queue queue (total queue)
whole-LongestEnd queue h = record {
  counted = refl;
  fits = h;
  dropped = [];
  split = refl;
  longest = λ front end e _. omega (arith, ap length e, length-append front end);
}

step-LongestEnd :
    (first : PendingSend) (queue kept : List PendingSend) (count : ℕ)
    → max_pending_bytes < total (first ∷ queue)
    → LongestEnd queue kept count
    → LongestEnd (first ∷ queue) kept count
step-LongestEnd first queue kept count over l = record {
  counted = l.counted;
  fits = l.fits;
  dropped = first ∷ l.dropped;
  split = ap (◌∷◌ first) l.split;
  longest = ends;
}
  where
    ends :
        (front end : List PendingSend)
        → first ∷ queue ≡ front ++ end
        → total end ≤ max_pending_bytes
        → length end ≤ length kept
    ends [] end e h = absurd (omega (arith, ap total e))
    ends (x ∷ front) end e h = l.longest front end (cc e) h

-- The loop that drops the oldest payloads keeps the longest end of the queue that fits 512 KiB, with
-- its number of bytes, provided that it is given the number of bytes of the queue.
pub drop_oldest-LongestEnd :
    (queue : List PendingSend) (count : ℕ)
    → count ≡ total queue
    → count < 2 ^ 64
    → LongestEnd queue (drop_oldest queue count).0 (drop_oldest queue count).1
unfolding drop_oldest total
drop_oldest-LongestEnd [] count e h = rw e (whole-LongestEnd [] (omega arith))
drop_oldest-LongestEnd (first ∷ queue) count e h = elim (Bool-cases (ltb max_pending_bytes count)) [
  | inl over ↦
      let left : ℕ = (count + 2 ^ 64 - length first.bytes) % 2 ^ 64 in
      let same : left ≡ total queue = omega arith in
      rw over (
        step-LongestEnd first queue (drop_oldest queue left).0 (drop_oldest queue left).1
          (ground arith) (drop_oldest-LongestEnd queue left same (omega arith)))
  | inr fits ↦ rw (fits, e) (whole-LongestEnd (first ∷ queue) (ground arith))
]
