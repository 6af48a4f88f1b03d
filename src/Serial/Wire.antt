-- ===== src/Serial/Wire.antt =====
-- What the serialisers put on the wire, on a host of either byte order.
use mathlib.Core.List.{reverse, reverse-reverse}
use destor.Base.{
  ℕ, ◌^◌, ◌<◌, ◌≡◌, refl, ap, ap₂, sym, ◌∙◌, List, ◌++◌, length, take-append, drop-append,
}
use destor.Serial.Defs.{
  Endian, big, little, le_bytes, le_value, memory, load, hton, ntoh, value64, swap_loop,
  serial_uint16, serial_uint32, serial_uint64, unserial_uint16, unserial_uint32, unserial_uint64,
}
use destor.Serial.Bytes.{
  be_bytes, length-le_bytes, le_value-le_bytes, le_bytes-le_value, length-be_bytes, be_bytes-IsByte,
  swap_loop-reverse,
}

-- htonl and its kin, stored to memory, give the wire format.
memory-hton : (e : Endian) (n v : ℕ) → memory e n (hton e n v) ≡ be_bytes n v
unfolding memory hton
memory-hton big n v = refl
memory-hton little n v =
    ap (λ k. le_bytes k (le_value (be_bytes n v))) (sym (length-be_bytes n v))
    ∙ le_bytes-le_value (be_bytes n v) (be_bytes-IsByte n v)

-- ntohl and its kin, on what is loaded, read the wire format.
ntoh-load : (e : Endian) (n v : ℕ) → v < 256 ^ n → ntoh e n (load e (be_bytes n v)) ≡ v
unfolding ntoh hton load
ntoh-load big n v h = rw reverse-reverse (le_value-le_bytes n v h)
ntoh-load little n v h =
    ap (λ bs. le_value (reverse bs))
      (ap (λ k. le_bytes k (le_value (be_bytes n v))) (sym (length-be_bytes n v))
        ∙ le_bytes-le_value (be_bytes n v) (be_bytes-IsByte n v))
    ∙ rw reverse-reverse (le_value-le_bytes n v h)

swap8 : (xs : List ℕ) → length xs ≡ 8 → swap_loop 8 xs ≡ reverse xs
swap8 xs h = ap (λ k. swap_loop k xs) (sym h) ∙ swap_loop-reverse xs

serial_uint64-be_bytes : (e : Endian) (v : ℕ) → serial_uint64 e v ≡ be_bytes 8 v
unfolding serial_uint64 hton memory swap_loop le_bytes le_value
serial_uint64-be_bytes big v = refl
serial_uint64-be_bytes little v = refl

-- Every host writes the same bytes: the digits to the base 256, the most significant first.
pub serial_uint-be_bytes :
    (e : Endian) (v : ℕ)
    → (serial_uint16 e v ≡ be_bytes 2 v)
      × (serial_uint32 e v ≡ be_bytes 4 v)
      × (serial_uint64 e v ≡ be_bytes 8 v)
unfolding serial_uint16 serial_uint32
serial_uint-be_bytes e v = (memory-hton e 2 v, memory-hton e 4 v, serial_uint64-be_bytes e v)

value64_big : (bs : List ℕ) → value64 big bs ≡ le_value (reverse bs)
unfolding value64 hton load
value64_big bs = refl

value64_little : (bs : List ℕ) → value64 little bs ≡ le_value (swap_loop 8 bs)
unfolding value64 hton load le_bytes le_value
value64_little bs = refl

value64-be_bytes : (e : Endian) (v : ℕ) → v < 256 ^ 8 → value64 e (be_bytes 8 v) ≡ v
value64-be_bytes big v h = value64_big (be_bytes 8 v) ∙ rw reverse-reverse (le_value-le_bytes 8 v h)
value64-be_bytes little v h =
    value64_little (be_bytes 8 v)
    ∙ ap le_value (swap8 (be_bytes 8 v) (length-be_bytes 8 v))
    ∙ rw reverse-reverse (le_value-le_bytes 8 v h)

-- Each deserialiser, on a host of either byte order, reads from the wire format the value and
-- leaves what follows.
pub unserial_uint-be_bytes :
    (e : Endian) (v : ℕ) (rest : List ℕ)
    → (v < 2 ^ 16 → unserial_uint16 e (be_bytes 2 v ++ rest) ≡ (v, rest))
      × (v < 2 ^ 32 → unserial_uint32 e (be_bytes 4 v ++ rest) ≡ (v, rest))
      × (v < 2 ^ 64 → unserial_uint64 e (be_bytes 8 v ++ rest) ≡ (v, rest))
unfolding unserial_uint16 unserial_uint32 unserial_uint64
unserial_uint-be_bytes e v rest = (
  λ h.
      ap₂ (λ a b. (a, b))
        (rw (take-append 2 (be_bytes 2 v) rest (length-be_bytes 2 v)) (ntoh-load e 2 v h))
        (drop-append 2 (be_bytes 2 v) rest (length-be_bytes 2 v)),
  λ h.
      ap₂ (λ a b. (a, b))
        (rw (take-append 4 (be_bytes 4 v) rest (length-be_bytes 4 v)) (ntoh-load e 4 v h))
        (drop-append 4 (be_bytes 4 v) rest (length-be_bytes 4 v)),
  λ h.
      ap₂ (λ a b. (a, b))
        (rw (take-append 8 (be_bytes 8 v) rest (length-be_bytes 8 v)) (value64-be_bytes e v h))
        (drop-append 8 (be_bytes 8 v) rest (length-be_bytes 8 v)),
)

-- An integer stored to memory and loaded on the same host.
pub load-memory : (e : Endian) (n v : ℕ) → v < 256 ^ n → load e (memory e n v) ≡ v
unfolding load memory
load-memory big n v h = rw reverse-reverse (le_value-le_bytes n v h)
load-memory little n v h = le_value-le_bytes n v h

pub length-memory : (e : Endian) (n v : ℕ) → length (memory e n v) ≡ n
unfolding memory
length-memory big n v = length-be_bytes n v
length-memory little n v = length-le_bytes n v
