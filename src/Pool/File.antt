-- ===== src/Pool/File.antt =====
-- A file as its bytes by offset: what a write changes, and what a read returns.
use destor.Base.{
  ℕ, zero, suc, ◌+◌, ◌-◌, ◌≤◌, ◌<◌, ◌≡◌, refl, ap, ap₂, ◌∙◌, List, [], ◌∷◌, length, take, drop,
  arith, ◌⊎◌,
}
use destor.Pool.Defs.{write_file, read_file}
use destor.Serial.{byte_at}

pub length-read_file : (f : ℕ → ℕ) (off n : ℕ) → length (read_file f off n) ≡ n
unfolding read_file
length-read_file f off zero = refl
length-read_file f off (suc n) = ap suc (length-read_file f (off + 1) n)

read_part :
    (f : ℕ → ℕ) (off : ℕ) (bs : List ℕ) (k o : ℕ) (rest : List ℕ)
    → o ≡ off + k
    → ((i : ℕ) → i < length rest → byte_at bs (k + i) ≡ byte_at rest i)
    → k + length rest ≤ length bs
    → read_file (write_file f off bs) o (length rest) ≡ rest
unfolding read_file
read_part f off bs k o [] e h le = refl
read_part f off bs k o (b ∷ rest) e h le =
    ap₂ ◌∷◌ (here (ap (byte_at bs) shift ∙ h 0 (omega arith))) (
      read_part f off bs (k + 1) (o + 1) rest (omega arith)
        (λ i lt. ap (byte_at bs) (next i) ∙ h (suc i) (omega arith)) (omega arith))
  where
    shift : o - off ≡ k + 0
    shift = omega arith

    next : (i : ℕ) → k + 1 + i ≡ k + suc i
    next i = omega arith

    here : byte_at bs (o - off) ≡ b → write_file f off bs o ≡ b
    here q = unfold write_file in ground arith

-- What was written is read back.
pub read_file-write_file :
    (f : ℕ → ℕ) (off : ℕ) (bs : List ℕ) → read_file (write_file f off bs) off (length bs) ≡ bs
read_file-write_file f off bs =
    read_part f off bs 0 off bs (omega arith) (λ i lt. ap (byte_at bs) (zero_add i)) (omega arith)
  where
    zero_add : (i : ℕ) → 0 + i ≡ i
    zero_add i = omega arith

-- A write elsewhere is not seen.
pub read_file-write_file_apart :
    (f : ℕ → ℕ) (off o n : ℕ) (bs : List ℕ)
    → (o + n ≤ off) ⊎ (off + length bs ≤ o)
    → read_file (write_file f off bs) o n ≡ read_file f o n
unfolding read_file
read_file-write_file_apart f off o zero bs h = refl
read_file-write_file_apart f off o (suc n) bs h =
    ap₂ ◌∷◌ (unfold write_file in ground arith)
      (read_file-write_file_apart f off (o + 1) n bs (omega arith))

-- A read in the middle of a longer one.
pub take-drop-read_file :
    (f : ℕ → ℕ) (off o k n N : ℕ)
    → o ≡ off + k
    → k + n ≤ N
    → take n (drop k (read_file f off N)) ≡ read_file f o n
unfolding read_file
take-drop-read_file f off o zero zero N e h = refl
take-drop-read_file f off o zero (suc n) zero e h = absurd (omega arith)
take-drop-read_file f off o zero (suc n) (suc N) e h =
    ap₂ ◌∷◌ (ap f (omega arith))
      (take-drop-read_file f (off + 1) (o + 1) zero n N (omega arith) (omega arith))
take-drop-read_file f off o (suc k) n zero e h = absurd (omega arith)
take-drop-read_file f off o (suc k) n (suc N) e h =
    take-drop-read_file f (off + 1) o k n N (omega arith) (omega arith)
