-- ===== src/Serial/Bytes.antt =====
-- Digits to the base 256: lengths, ranges, and the two round trips.
use mathlib.Core.List.{reverse, reverse-cons}
use native.Mathlib.Nat.{pow-suc}
use destor.Base.{
  ℕ, zero, suc, ◌+◌, ◌*◌, ◌/◌, ◌%◌, ◌^◌, ◌<◌, ◌≡◌, refl, ap, List, [], ◌∷◌, ◌++◌, length, All,
  arith, length-reverse, All-reverse, ◌∙◌,
}
use destor.Serial.Defs.{le_bytes, le_value, swap_loop, byte_at}

abbrev pub IsByte : ℕ → Type 0
IsByte b = b < 256

-- The wire format: the most significant byte first.
abbrev pub be_bytes : ℕ → ℕ → List ℕ
be_bytes n v = reverse (le_bytes n v)

pub length-le_bytes : (n v : ℕ) → length (le_bytes n v) ≡ n
unfolding le_bytes
length-le_bytes zero v = refl
length-le_bytes (suc n) v = ap suc (length-le_bytes n (v / 256))

pub le_bytes-IsByte : (n v : ℕ) → All IsByte (le_bytes n v)
unfolding le_bytes
le_bytes-IsByte zero v = tt
le_bytes-IsByte (suc n) v = (omega arith, le_bytes-IsByte n (v / 256))

pub le_value-le_bytes : (n v : ℕ) → v < 256 ^ n → le_value (le_bytes n v) ≡ v
unfolding le_bytes le_value
le_value-le_bytes zero v h = omega arith
le_value-le_bytes (suc n) v h =
    omega (arith, le_value-le_bytes n (v / 256) (omega (arith, pow-suc 256 n)))

pub le_bytes-le_value : (bs : List ℕ) → All IsByte bs → le_bytes (length bs) (le_value bs) ≡ bs
unfolding le_bytes le_value
le_bytes-le_value [] h = refl
le_bytes-le_value (b ∷ bs) h = rw (head, tail, le_bytes-le_value bs h.1)
  where
    head : (b + 256 * le_value bs) % 256 ≡ b
    head = omega (arith, h.0)

    tail : (b + 256 * le_value bs) / 256 ≡ le_value bs
    tail = omega (arith, h.0)

pub length-be_bytes : (n v : ℕ) → length (be_bytes n v) ≡ n
length-be_bytes n v = length-reverse (le_bytes n v) ∙ length-le_bytes n v

pub be_bytes-IsByte : (n v : ℕ) → All IsByte (be_bytes n v)
be_bytes-IsByte n v = All-reverse IsByte (le_bytes n v) (le_bytes-IsByte n v)

byte_at-append : (xs : List ℕ) (b : ℕ) → byte_at (xs ++ (b ∷ [])) (length xs) ≡ b
byte_at-append [] b = refl
byte_at-append (x ∷ xs) b = byte_at-append xs b

byte_at-append_left : (xs ys : List ℕ) (i : ℕ) → i < length xs → byte_at (xs ++ ys) i ≡ byte_at xs i
byte_at-append_left [] ys i h = absurd (omega arith)
byte_at-append_left (x ∷ xs) ys zero h = refl
byte_at-append_left (x ∷ xs) ys (suc i) h = byte_at-append_left xs ys i (omega arith)

swap_loop-cons :
    (k : ℕ) (x : ℕ) (xs : List ℕ) → swap_loop (suc k) (x ∷ xs) ≡ swap_loop k xs ++ (x ∷ [])
unfolding swap_loop
swap_loop-cons zero x xs = refl
swap_loop-cons (suc k) x xs = ap (◌∷◌ (byte_at xs k)) (swap_loop-cons k x xs)

-- The copying loop reverses a buffer of its length.
pub swap_loop-reverse : (xs : List ℕ) → swap_loop (length xs) xs ≡ reverse xs
unfolding swap_loop
swap_loop-reverse [] = refl
swap_loop-reverse (x ∷ xs) =
    swap_loop-cons (length xs) x xs ∙ rw (swap_loop-reverse xs, reverse-cons)
