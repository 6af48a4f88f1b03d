-- ===== src/Chunking/Ae.antt =====
-- The sizes that ae_chunk_data returns.
use destor.Base.{
  ℕ, zero, suc, ◌+◌, ◌-◌, ◌≤◌, ◌<◌, ◌≡◌, refl, ap, ◌==◌, leb, false, ◌||◌, List, ◌∷◌, length, take,
  drop, replicate, length-replicate, arith, Bool-cases, inl, inr, le→ltb_false,
}
use destor.Serial.{big, load}
use destor.Chunking.Defs.{my_memcmp, ae_loop, ae_chunk_data}

ae_loop-size :
    (window_size max_size : ℕ) (p : List ℕ) (rounds curr most : ℕ)
    → 0 < curr
    → curr + rounds ≤ length p
    → (0 < ae_loop window_size max_size p rounds curr most)
      × (ae_loop window_size max_size p rounds curr most ≤ length p)
unfolding ae_loop
ae_loop-size w m p zero curr most h k = (omega arith, omega arith)
ae_loop-size w m p (suc rounds) curr most h k =
    let moved = ae_loop-size w m p rounds (curr + 1) curr (omega arith) (omega arith) in
    let kept = ae_loop-size w m p rounds (curr + 1) most (omega arith) (omega arith) in
    elim (Bool-cases (my_memcmp p curr most)) [
      | inr less ↦ rw less moved
      | inl more ↦ elim (Bool-cases ((curr == most + w) || (curr == m))) [
        | inl stop ↦ rw (more, stop) (h, omega arith)
        | inr go ↦ rw (more, go) kept
      ]
    ]

-- ae_chunk_data returns a part of the buffer, not empty where the buffer is not.
pub ae_chunk_data-size :
    (window_size max_size : ℕ) (p : List ℕ)
    → 0 < length p
    → (0 < ae_chunk_data window_size max_size p) × (ae_chunk_data window_size max_size p ≤ length p)
unfolding ae_chunk_data
ae_chunk_data-size w m p h = elim (Bool-cases (leb (length p) (w + 8))) [
  | inl small ↦ rw small (h, omega arith)
  | inr large ↦ rw large (ae_loop-size w m p (length p - 8) 1 0 (omega arith) (over large))
]
  where
    over : leb (length p) (w + 8) ≡ false → 1 + (length p - 8) ≤ length p
    over e = ground arith

take-replicate : (k n b : ℕ) → k ≤ n → take k (replicate n b) ≡ replicate k b
take-replicate zero n b h = refl
take-replicate (suc k) zero b h = absurd (omega arith)
take-replicate (suc k) (suc n) b h = ap (◌∷◌ b) (take-replicate k n b (omega arith))

take-drop-replicate : (n i b : ℕ) → i + 8 ≤ n → take 8 (drop i (replicate n b)) ≡ replicate 8 b
take-drop-replicate zero zero b h = absurd (omega arith)
take-drop-replicate zero (suc i) b h = absurd (omega arith)
take-drop-replicate (suc n) zero b h = take-replicate 8 (suc n) b (omega arith)
take-drop-replicate (suc n) (suc i) b h = take-drop-replicate n i b (omega arith)

ae_loop-replicate :
    (window_size max_size n b rounds curr most : ℕ)
    → curr + rounds + 7 ≤ n
    → most ≤ curr
    → ae_loop window_size max_size (replicate n b) rounds curr most ≡ n
unfolding ae_loop my_memcmp
ae_loop-replicate w m n b zero curr most h k = length-replicate n b
ae_loop-replicate w m n b (suc rounds) curr most h k =
    rw
      (
        take-drop-replicate n curr b (omega arith),
        take-drop-replicate n most b (omega arith),
        le→ltb_false (load big (replicate 8 b)) (load big (replicate 8 b)) (omega arith),
      )
      (ae_loop-replicate w m n b rounds (curr + 1) curr (omega arith) (omega arith))

-- On a buffer whose bytes are all the same, ae_chunk_data returns the whole of it, whatever
-- chunk_max_size is.
pub ae_chunk_data-replicate :
    (window_size max_size n b : ℕ) → ae_chunk_data window_size max_size (replicate n b) ≡ n
unfolding ae_chunk_data
ae_chunk_data-replicate w m n b = rw (length-replicate n b) (elim (Bool-cases (leb n (w + 8))) [
  | inl small ↦ rw small refl
  | inr large ↦ rw large (ae_loop-replicate w m n b (n - 8) 1 0 (over large) (omega arith))
])
  where
    over : leb n (w + 8) ≡ false → 1 + (n - 8) + 7 ≤ n
    over e = ground arith
