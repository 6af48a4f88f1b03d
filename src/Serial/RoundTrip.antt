-- ===== src/Serial/RoundTrip.antt =====
-- What one host writes, another reads back, whatever the byte orders of the two.
use destor.Base.{
  ℕ, ◌+◌, ◌-◌, ◌^◌, ◌<◌, ◌≡◌, refl, ap₂, sym, append_assoc, List, [], ◌∷◌, ◌++◌, length, All, arith,
  take, drop, take-append, drop-append, ℤ, pos, negsuc, length-append, ◌≢◌,
}
use destor.Serial.Defs.{
  Endian, serial_uint16, serial_uint32, serial_uint64, unserial_uint16, unserial_uint32,
  unserial_uint64, serial_int16, serial_int32, serial_int64, unserial_int16, unserial_int32,
  unserial_int64, strlen, serial_string, unserial_string, to_word, of_word,
}
use destor.Serial.Wire.{serial_uint-be_bytes, unserial_uint-be_bytes}

-- The integers of w bits in two's complement.
abbrev pub InRange : ℕ → ℤ → Type 0
InRange w (pos n) = n < 2 ^ (w - 1)
InRange w (negsuc n) = n < 2 ^ (w - 1)

-- Unsigned integers written on one host and read on another come back, with what follows them.
unserial_uint-serial_uint :
    (e e' : Endian) (v : ℕ) (rest : List ℕ)
    → (v < 2 ^ 16 → unserial_uint16 e' (serial_uint16 e v ++ rest) ≡ (v, rest))
      × (v < 2 ^ 32 → unserial_uint32 e' (serial_uint32 e v ++ rest) ≡ (v, rest))
      × (v < 2 ^ 64 → unserial_uint64 e' (serial_uint64 e v ++ rest) ≡ (v, rest))
unserial_uint-serial_uint e e' v rest =
    let (w2, w4, w8) = serial_uint-be_bytes e v in
    let (r2, r4, r8) = unserial_uint-be_bytes e' v rest in
    (λ h. rw w2 (r2 h), λ h. rw w4 (r4 h), λ h. rw w8 (r8 h))

of_word-to_word16 :
    (v : ℤ) → InRange 16 v → (to_word 16 v < 2 ^ 16) × (of_word 16 (to_word 16 v) ≡ v)
of_word-to_word16 (pos n) h = (omega arith, ground arith)
of_word-to_word16 (negsuc n) h = (omega arith, ground arith)

of_word-to_word32 :
    (v : ℤ) → InRange 32 v → (to_word 32 v < 2 ^ 32) × (of_word 32 (to_word 32 v) ≡ v)
of_word-to_word32 (pos n) h = (omega arith, ground arith)
of_word-to_word32 (negsuc n) h = (omega arith, ground arith)

of_word-to_word64 :
    (v : ℤ) → InRange 64 v → (to_word 64 v < 2 ^ 64) × (of_word 64 (to_word 64 v) ≡ v)
of_word-to_word64 (pos n) h = (omega arith, ground arith)
of_word-to_word64 (negsuc n) h = (omega arith, ground arith)

-- Each width of signed integers in range, negative ones included, written on one host and read on another come
-- back, with what follows them.
pub unserial_int-serial_int :
    (e e' : Endian) (v : ℤ) (rest : List ℕ)
    → (InRange 16 v → unserial_int16 e' (serial_int16 e v ++ rest) ≡ (v, rest))
      × (InRange 32 v → unserial_int32 e' (serial_int32 e v ++ rest) ≡ (v, rest))
      × (InRange 64 v → unserial_int64 e' (serial_int64 e v ++ rest) ≡ (v, rest))
unfolding serial_int16 serial_int32 serial_int64 unserial_int16 unserial_int32 unserial_int64
unserial_int-serial_int e e' v rest = (
  λ h.
      let (lt, back) = of_word-to_word16 v h in
      let read = (unserial_uint-serial_uint e e' (to_word 16 v) rest).0 lt in rw (read, back),
  λ h.
      let (lt, back) = of_word-to_word32 v h in
      let read = (unserial_uint-serial_uint e e' (to_word 32 v) rest).1 lt in rw (read, back),
  λ h.
      let (lt, back) = of_word-to_word64 v h in
      let read = (unserial_uint-serial_uint e e' (to_word 64 v) rest).2 lt in rw (read, back),
)

strlen_text : (s rest : List ℕ) → All (λ b. b ≢ 0) s → strlen (s ++ (0 ∷ rest)) ≡ length s
unfolding strlen
strlen_text [] rest h = refl
strlen_text (b ∷ s) rest h = ground (arith, strlen_text s rest h.1, h.0)

regroup : (s rest : List ℕ) → s ++ (0 ∷ rest) ≡ (s ++ (0 ∷ [])) ++ rest
regroup s rest = sym (append_assoc s (0 ∷ []) rest)

length-text : (s : List ℕ) → length (s ++ (0 ∷ [])) ≡ length s + 1
length-text s = length-append s (0 ∷ [])

cut_text :
    (s rest : List ℕ)
    → All (λ b. b ≢ 0) s
    → (take (strlen (s ++ (0 ∷ rest)) + 1) (s ++ (0 ∷ rest)) ≡ s ++ (0 ∷ []))
      × (drop (strlen (s ++ (0 ∷ rest)) + 1) (s ++ (0 ∷ rest)) ≡ rest)
cut_text s rest h =
    rw (strlen_text s rest h, regroup s rest)
      (
        take-append (length s + 1) (s ++ (0 ∷ [])) rest (length-text s),
        drop-append (length s + 1) (s ++ (0 ∷ [])) rest (length-text s),
      )

-- A string of nonzero bytes is written up to its terminator, whatever lies behind that in memory,
-- and is read back with the terminator, before what follows.
pub unserial_string-serial_string :
    (s behind rest : List ℕ)
    → All (λ b. b ≢ 0) s
    → (serial_string (s ++ (0 ∷ behind)) ≡ s ++ (0 ∷ []))
      × (unserial_string (serial_string (s ++ (0 ∷ behind)) ++ rest) ≡ (s ++ (0 ∷ []), rest))
unfolding serial_string unserial_string
unserial_string-serial_string s behind rest h =
    let written = (cut_text s behind h).0 in
    (
      written,
      rw (written, ← regroup s rest)
          (ap₂ (λ a b. (a, b)) (cut_text s rest h).0 (cut_text s rest h).1),
    )

-- A 16-, a 32- and a 64-bit signed integer written one after another on one host are read back in
-- that order on a host of either byte order, negative values included, with what follows them.
pub unserial-serial :
    (e e' : Endian) (a b c : ℤ) (rest : List ℕ)
    → InRange 16 a
    → InRange 32 b
    → InRange 64 c
    → (unserial_int16 e' (serial_int16 e a ++ (serial_int32 e b ++ (serial_int64 e c ++ rest)))
        ≡ (a, serial_int32 e b ++ (serial_int64 e c ++ rest)))
      × (unserial_int32 e' (serial_int32 e b ++ (serial_int64 e c ++ rest))
          ≡ (b, serial_int64 e c ++ rest))
      × (unserial_int64 e' (serial_int64 e c ++ rest) ≡ (c, rest))
unserial-serial e e' a b c rest ha hb hc = (
  (unserial_int-serial_int e e' a _).0 ha,
  (unserial_int-serial_int e e' b _).1 hb,
  (unserial_int-serial_int e e' c rest).2 hc,
)
