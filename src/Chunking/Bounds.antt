-- ===== src/Chunking/Bounds.antt =====
-- The sizes that the chunking functions return.
use destor.Base.{
  ℕ, zero, suc, ◌+◌, ◌-◌, ◌≤◌, ◌<◌, ◌≡◌, ◌==◌, ltb, leb, true, false, List, length, arith,
  Bool-cases, inl, inr, min,
}
use Prim.Native.Nat.{bit_and}
use destor.Serial.{byte_at}
use destor.Chunking.Defs.{
  fixed_chunk_data, FastCdc, gear_step, gear_loop, gear_loops, fastcdc_chunk_data,
}

-- What chunk_thread needs of a chunking function: a part of the buffer that is not empty and within
-- the largest chunk size.
abbrev pub IsChunking : (List ℕ → ℕ) → ℕ → Type 0
IsChunking chunking max_size =
    (p : List ℕ)
    → 0 < length p
    → (0 < chunking p) × (chunking p ≤ length p) × (chunking p ≤ max_size)

-- Fixed-size chunking, of a positive size.
pub fixed_chunk_data-IsChunking : (avg : ℕ) → 0 < avg → IsChunking (fixed_chunk_data avg) avg
unfolding fixed_chunk_data
fixed_chunk_data-IsChunking avg h p some_byte = ground arith

module _ (g : FastCdc) where
  -- A loop stops within its rounds, and goes through all of them unless it returned.
  gear_loop_lem :
      (mask : ℕ) (p : List ℕ) (rounds i fingerprint : ℕ)
      → (i ≤ (gear_loop g mask p rounds i fingerprint).1)
        × ((gear_loop g mask p rounds i fingerprint).1 ≤ i + rounds)
        × ((gear_loop g mask p rounds i fingerprint).0 ≡ false
            → (gear_loop g mask p rounds i fingerprint).1 ≡ i + rounds)
  unfolding gear_loop
  gear_loop_lem mask p zero i fingerprint = (omega arith, omega arith, λ _. omega arith)
  gear_loop_lem mask p (suc rounds) i fingerprint =
      let fingerprint' = gear_step g fingerprint (byte_at p i) in
      let (lo, hi, all) = gear_loop_lem mask p rounds (i + 1) fingerprint' in
      elim (Bool-cases (bit_and fingerprint' mask == 0)) [
        | inl cut ↦ rw cut (omega arith, omega arith, λ e. absurd (ground (arith, e)))
        | inr more ↦ rw more (omega (arith, lo), omega (arith, hi), λ e. omega (arith, all e))
      ]

  gear_loops_lem :
      (p : List ℕ) (mid n : ℕ)
      → g.min_size ≤ mid
      → mid ≤ n
      → (g.min_size ≤ gear_loops g p mid n) × (gear_loops g p mid n ≤ n)
  unfolding gear_loops
  gear_loops_lem p mid n lo hi =
      let first = gear_loop g g.mask_s p (mid - g.min_size) g.min_size 0 in
      let (lo1, hi1, all1) = gear_loop_lem g.mask_s p (mid - g.min_size) g.min_size 0 in
      let (lo2, hi2, all2) = gear_loop_lem g.mask_l p (n - first.1) first.1 first.2 in
      elim (Bool-cases first.0) [
        | inl cut ↦ rw cut (lo1, omega (arith, hi1))
        | inr more ↦ rw more (omega (arith, lo1, lo2), omega (arith, all1 more, hi2))
      ]

  -- With min_size ≤ expect_size ≤ max_size, fastcdc_chunk_data returns the whole buffer if that is
  -- no larger than min_size, and else a size from min_size up to the buffer's and to max_size.
  pub fastcdc_chunk_data-size :
      (p : List ℕ)
      → g.min_size ≤ g.expect_size
      → g.expect_size ≤ g.max_size
      → (min (length p) g.min_size ≤ fastcdc_chunk_data g p)
        × (fastcdc_chunk_data g p ≤ min (length p) g.max_size)
  unfolding fastcdc_chunk_data
  fastcdc_chunk_data-size p lo hi = elim (Bool-cases (leb (length p) g.min_size)) [
    | inl small ↦ rw small (omega arith, whole small)
    | inr large ↦ elim (Bool-cases (ltb g.max_size (length p))) [
      | inl cut ↦
          let (a, b) = gear_loops_lem p g.expect_size g.max_size lo hi in
          rw (large, cut) (omega (arith, a), above cut b)
      | inr fits ↦ elim (Bool-cases (ltb (length p) g.expect_size)) [
        | inl short ↦
            let (a, b) = gear_loops_lem p (length p) (length p) (over large) (omega arith) in
            rw (large, fits, short) (omega (arith, a), within fits b)
        | inr long ↦
            let (a, b) = gear_loops_lem p g.expect_size (length p) lo (reach long) in
            rw (large, fits, long) (omega (arith, a), within fits b)
      ]
    ]
  ]
    where
      n : ℕ
      n = length p

      whole : leb n g.min_size ≡ true → n ≤ min n g.max_size
      whole e = ground (arith, lo, hi)

      over : leb n g.min_size ≡ false → g.min_size ≤ n
      over e = ground arith

      above : {x : ℕ} → ltb g.max_size n ≡ true → x ≤ g.max_size → x ≤ min n g.max_size
      above e b = ground arith

      within : {x : ℕ} → ltb g.max_size n ≡ false → x ≤ n → x ≤ min n g.max_size
      within e b = ground arith

      reach : ltb n g.expect_size ≡ false → g.expect_size ≤ n
      reach e = ground arith

  pub fastcdc_chunk_data-IsChunking :
      0 < g.min_size
      → g.min_size ≤ g.expect_size
      → g.expect_size ≤ g.max_size
      → IsChunking (fastcdc_chunk_data g) g.max_size
  fastcdc_chunk_data-IsChunking pos_min lo hi p some_byte =
      let (a, b) = fastcdc_chunk_data-size p lo hi in
      (omega (arith, a), omega (arith, b), omega (arith, b))
