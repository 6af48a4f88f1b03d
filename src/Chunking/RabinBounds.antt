-- ===== src/Chunking/RabinBounds.antt =====
-- The sizes that the chunking functions of src/chunking/rabin_chunking.c return.
use Prim.Native.Nat.{bit_or, bit_xor}
use destor.Base.{
  ℕ, zero, suc, ◌+◌, ◌-◌, ◌*◌, ◌/◌, ◌%◌, ◌^◌, ◌==◌, ◌≡◌, ◌≤◌, ◌<◌, ltb, leb, Option, some, List, [],
  ◌∷◌, if◌then◌else◌, get_elem?, length, length-replicate, Bool-cases, inl, inr, arith, ◌⊎◌, refl,
}
use destor.Chunking.Rabin.{
  Rabin, Window, set_elem, slide, slide_at, is_break, rabin_loop, end_of, rabin_chunk_data,
  normalized_rabin_chunk_data, tttd_loop, tttd_chunk_data, new_window,
}

module _ {A : Type 0} where
  get_elem?-some : (l : List A) (i : ℕ) → i < length l → (a : A) × (get_elem? l i ≡ some a)
  get_elem?-some [] i lt = absurd (omega arith)
  get_elem?-some (x ∷ l) zero lt = (x, refl)
  get_elem?-some (x ∷ l) (suc i) lt = get_elem?-some l i (omega arith)

  set_elem-some :
      (l : List A) (i : ℕ) (a : A)
      → i < length l
      → (l' : List A) × (set_elem l i a ≡ some l') × (length l' ≡ length l)
  unfolding set_elem
  set_elem-some [] i a lt = absurd (omega arith)
  set_elem-some (x ∷ l) zero a lt = (a ∷ l, refl, refl)
  set_elem-some (x ∷ l) (suc i) a lt =
      let (l', run, same) = set_elem-some l i a (omega arith) in
      (x ∷ l', ground (arith, run), omega (arith, same))

-- The window has room for 48 bytes.
abbrev IsWindow : Window → Type 0
IsWindow w = length w.buf ≡ 128

slide_at-some :
    (d : Rabin) (p : List ℕ) (i : ℕ) (w : Window)
    → 1 ≤ i
    → i ≤ length p
    → IsWindow w
    → (w' : Window) × (slide_at d p i w ≡ some w') × IsWindow w'
unfolding slide_at slide
slide_at-some d p i w pos le v =
    let (m, here) = get_elem?-some p (i - 1) (omega arith) in
    let at : ℕ = if leb 48 w.next then 0 else w.next in
    let lt : at < length w.buf = ground arith in
    let (om, old) = get_elem?-some w.buf at lt in
    let (buf, new, same) = set_elem-some w.buf at m lt in
    let fp1 = bit_xor w.fp (d.table_u om) in
    let fp2 = bit_xor (bit_or (fp1 * 2 ^ 8 % 2 ^ 64) m) (d.table_t (fp1 / 2 ^ d.shift)) in
    (
      record { fp = fp2; next = at + 1; buf = buf },
      ground (arith, here, old, new),
      omega (arith, same, v),
    )

-- A size between two bounds.
abbrev pub Between : ℕ → ℕ → Option ℕ → Type 0
Between a b r = (n : ℕ) × (r ≡ some n) × (a ≤ n) × (n ≤ b)

rabin_loop-Between :
    (k : ℕ) (d : Rabin) (mask : ℕ → ℕ) (p : List ℕ) (i : ℕ) (w : Window)
    → 1 ≤ i
    → i + k ≤ length p
    → IsWindow w
    → Between i (i + k) (rabin_loop k d mask p i w)
unfolding rabin_loop
rabin_loop-Between zero d mask p i w pos le v = (i, refl, omega arith, omega arith)
rabin_loop-Between (suc k) d mask p i w pos le v =
    let (w', step, v') = slide_at-some d p i w pos (omega (arith, le)) v in
    let (n, run, low, high) =
      rabin_loop-Between k d mask p (i + 1) w' (omega arith) (omega (arith, le)) v' in
    elim (Bool-cases (is_break (mask i) w')) [
      | inl stop ↦ (i, ground (arith, step, stop), omega arith, omega arith)
      | inr go ↦ (n, ground (arith, step, go, run), omega (arith, low), omega (arith, high))
    ]

tttd_loop-Between :
    (k : ℕ) (d : Rabin) (p : List ℕ) (least m i : ℕ) (w : Window)
    → 1 ≤ i
    → i + k ≤ length p
    → least ≤ i
    → (m ≡ 0) ⊎ ((least ≤ m) × (m ≤ i))
    → IsWindow w
    → Between least (i + k) (tttd_loop k d p m i w)
unfolding tttd_loop
tttd_loop-Between zero d p least m i w pos le low back v =
    ((if m == 0 then i else m), refl, ground (arith, back), ground (arith, back))
tttd_loop-Between (suc k) d p least m i w pos le low back v =
    let (w', step, v') = slide_at-some d p i w pos (omega (arith, le)) v in
    elim (Bool-cases (is_break (d.chunk_avg_size / 2 - 1) w')) [
      | inl half ↦
          let (n, run, a, b) =
            tttd_loop-Between k d p least i (i + 1) w' (omega arith) (omega (arith, le))
              (omega (arith, low)) (inr (low, omega arith)) v' in
          elim (Bool-cases (is_break (d.chunk_avg_size - 1) w')) [
            | inl stop ↦ (i, ground (arith, step, half, stop), low, omega arith)
            | inr go ↦ (n, ground (arith, step, half, go, run), a, omega (arith, b))
          ]
      | inr go ↦
          let (n, run, a, b) =
            tttd_loop-Between k d p least m (i + 1) w' (omega arith) (omega (arith, le))
              (omega (arith, low)) (ground (arith, back)) v' in
          (n, ground (arith, step, go, run), a, omega (arith, b))
    ]

-- Each of the three functions, on data longer than the minimum, a positive minimum that is at most
-- the maximum: it reads and writes inside its window and the data, and returns a size from the
-- minimum to the smaller of the maximum and the length of the data.
pub rabin_chunk_data-size :
    (d : Rabin) (p : List ℕ)
    → 1 ≤ d.chunk_min_size
    → d.chunk_min_size ≤ d.chunk_max_size
    → d.chunk_min_size < length p
    → Between d.chunk_min_size (end_of d (length p)) (rabin_chunk_data d p)
      × Between d.chunk_min_size (end_of d (length p)) (normalized_rabin_chunk_data d p)
      × Between d.chunk_min_size (end_of d (length p)) (tttd_chunk_data d p)
      × (end_of d (length p) ≤ length p)
      × (end_of d (length p) ≤ d.chunk_max_size)
unfolding rabin_chunk_data normalized_rabin_chunk_data tttd_chunk_data new_window
rabin_chunk_data-size d p pos le long =
    let k : ℕ = end_of d (length p) - d.chunk_min_size in
    let total : d.chunk_min_size + k ≡ end_of d (length p) = ground arith in
    let within : end_of d (length p) ≤ length p = ground arith in
    let (n1, run1, a1, b1) =
      rabin_loop-Between k d (λ i. d.chunk_avg_size - 1) p d.chunk_min_size new_window pos
        (omega (arith, total, within)) (length-replicate {A = ℕ} 128 0) in
    let (n2, run2, a2, b2) =
      rabin_loop-Between k d
        (λ i. if ltb i d.chunk_avg_size then d.chunk_avg_size * 2 - 1 else d.chunk_avg_size / 2 - 1)
        p d.chunk_min_size new_window pos (omega (arith, total, within))
        (length-replicate {A = ℕ} 128 0) in
    let (n3, run3, a3, b3) =
      tttd_loop-Between k d p d.chunk_min_size 0 d.chunk_min_size new_window pos
        (omega (arith, total, within)) (omega arith) (inl refl) (length-replicate {A = ℕ} 128 0) in
    (
      (n1, ground (arith, long, run1), a1, omega (arith, b1, total)),
      (n2, ground (arith, long, run2), a2, omega (arith, b2, total)),
      (n3, ground (arith, long, run3), a3, omega (arith, b3, total)),
      within,
      ground arith,
    )
