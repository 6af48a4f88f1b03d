-- ===== src/Container/Buffer.antt =====
-- Bytes written to a buffer and read back.
use destor.Base.{
  ℕ, zero, suc, ◌+◌, ◌≤◌, ◌≡◌, refl, ap, List, [], ◌∷◌, ◌++◌, length, take, drop, arith,
  length-append, length-take, length-drop, take-append, drop-append, length-replicate,
}
use destor.Container.Defs.{write_at, slice, zeros}

take-take-append :
    (l off : ℕ) (d r : List ℕ) → l ≤ off → off ≤ length d → take l (take off d ++ r) ≡ take l d
take-take-append zero off d r h k = refl
take-take-append (suc l) zero d r h k = absurd (omega arith)
take-take-append (suc l) (suc off) [] r h k = absurd (omega arith)
take-take-append (suc l) (suc off) (x ∷ d) r h k =
    ap (◌∷◌ x) (take-take-append l off d r (omega arith) (omega arith))

slice-take-append :
    (d r : List ℕ) (o l off : ℕ)
    → o + l ≤ off
    → off ≤ length d
    → slice (take off d ++ r) o l ≡ slice d o l
slice-take-append d r zero l off h k = take-take-append l off d r (omega arith) k
slice-take-append d r (suc o) l zero h k = absurd (omega arith)
slice-take-append [] r (suc o) l (suc off) h k = absurd (omega arith)
slice-take-append (x ∷ d) r (suc o) l (suc off) h k =
    slice-take-append d r o l off (omega arith) (omega arith)

-- A write leaves what lies before it.
pub slice-write_at_before :
    (d bs : List ℕ) (o l off : ℕ)
    → o + l ≤ off
    → off ≤ length d
    → slice (write_at d off bs) o l ≡ slice d o l
slice-write_at_before d bs o l off h k =
    slice-take-append d (bs ++ drop (off + length bs) d) o l off h k

length-take_le : (off : ℕ) (d : List ℕ) → off ≤ length d → length (take off d) ≡ off
length-take_le off d h = omega (arith, length-take off d)

-- What was written is read back.
pub slice-write_at_self :
    (d bs : List ℕ) (off : ℕ) → off ≤ length d → slice (write_at d off bs) off (length bs) ≡ bs
slice-write_at_self d bs off h =
    rw (drop-append off (take off d) (bs ++ drop (off + length bs) d) (length-take_le off d h))
      (take-append (length bs) bs (drop (off + length bs) d) refl)

-- A write inside the buffer keeps its length.
pub length-write_at :
    (d bs : List ℕ) (off : ℕ) → off + length bs ≤ length d → length (write_at d off bs) ≡ length d
length-write_at d bs off h = omega (
  arith,
  length-append (take off d) (bs ++ drop (off + length bs) d),
  length-append bs (drop (off + length bs) d),
  length-take off d,
  length-drop (off + length bs) d,
)

pub length-zeros : (n : ℕ) → length (zeros n) ≡ n
unfolding zeros
length-zeros n = length-replicate n 0
