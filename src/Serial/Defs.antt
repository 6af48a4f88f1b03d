-- ===== src/Serial/Defs.antt =====
-- The functions of src/utils/serial.c. `*ptr` is a stream: a serialiser returns the bytes that it
-- stores, and a deserialiser the value with the bytes that follow. The byte order of the host is
-- an argument, since the code tests it.
use mathlib.Core.List.{reverse}
use destor.Base.{
  ℕ, zero, suc, ◌+◌, ◌-◌, ◌*◌, ◌/◌, ◌%◌, ◌^◌, List, [], ◌∷◌, take, drop, ℤ, pos, negsuc, ◌==◌, ltb,
  if◌then◌else◌,
}

pub data Endian : Type 0 where
  big little : Endian

-- The digits of a number to the base 256, the least first.
unfoldable pub le_bytes : ℕ → ℕ → List ℕ
le_bytes zero v = []
le_bytes (suc n) v = (v % 256) ∷ le_bytes n (v / 256)

unfoldable pub le_value : List ℕ → ℕ
le_value [] = 0
le_value (b ∷ bs) = b + 256 * le_value bs

-- The bytes of an n-byte integer in the host's memory, and the integer that bytes there hold.
unfoldable pub memory : Endian → ℕ → ℕ → List ℕ
memory big n v = reverse (le_bytes n v)
memory little n v = le_bytes n v

unfoldable pub load : Endian → List ℕ → ℕ
load big bs = le_value (reverse bs)
load little bs = le_value bs

-- htons, htonl, ntohs and ntohl of <arpa/inet.h>, at 2 and 4 bytes: the identity on a big-endian
-- host, a byte swap on a little-endian one.
unfoldable pub hton : Endian → ℕ → ℕ → ℕ
hton big n v = v
hton little n v = le_value (reverse (le_bytes n v))

unfoldable pub ntoh : Endian → ℕ → ℕ → ℕ
ntoh = hton

abbrev pub byte_at : List ℕ → ℕ → ℕ
byte_at [] i = 0
byte_at (b ∷ bs) zero = b
byte_at (b ∷ bs) (suc i) = byte_at bs i

-- `for (i = 0; i < 8; i++) rv[i] = pv[7 - i];` with the count of rounds left.
unfoldable pub swap_loop : ℕ → List ℕ → List ℕ
swap_loop zero pv = []
swap_loop (suc k) pv = byte_at pv k ∷ swap_loop k pv

-- Signed integers as words, in two's complement.
abbrev pub to_word : ℕ → ℤ → ℕ
to_word w (pos n) = n % 2 ^ w
to_word w (negsuc n) = 2 ^ w - 1 - n % 2 ^ w

abbrev pub of_word : ℕ → ℕ → ℤ
of_word w u = if ltb u (2 ^ (w - 1)) then pos u else negsuc (2 ^ w - 1 - u)

unfoldable pub serial_uint16 : Endian → ℕ → List ℕ
serial_uint16 e v = memory e 2 (hton e 2 v)

unfoldable pub serial_uint32 : Endian → ℕ → List ℕ
serial_uint32 e v = memory e 4 (hton e 4 v)

-- `htonl(1) == 1L` tells a big-endian host.
unfoldable pub serial_uint64 : Endian → ℕ → List ℕ
serial_uint64 e v = if hton e 4 1 == 1 then memory e 8 v else swap_loop 8 (memory e 8 v)

unfoldable pub serial_int16 : Endian → ℤ → List ℕ
serial_int16 e v = serial_uint16 e (to_word 16 v)

unfoldable pub serial_int32 : Endian → ℤ → List ℕ
serial_int32 e v = serial_uint32 e (to_word 32 v)

unfoldable pub serial_int64 : Endian → ℤ → List ℕ
serial_int64 e v = serial_uint64 e (to_word 64 v)

unfoldable pub unserial_uint16 : Endian → List ℕ → ℕ × List ℕ
unserial_uint16 e ptr = (ntoh e 2 (load e (take 2 ptr)), drop 2 ptr)

unfoldable pub unserial_uint32 : Endian → List ℕ → ℕ × List ℕ
unserial_uint32 e ptr = (ntoh e 4 (load e (take 4 ptr)), drop 4 ptr)

-- The value that unserial_uint64 makes of the 8 bytes it has copied.
unfoldable pub value64 : Endian → List ℕ → ℕ
value64 e v = if hton e 4 1 == 1 then load e v else load e (swap_loop 8 v)

unfoldable pub unserial_uint64 : Endian → List ℕ → ℕ × List ℕ
unserial_uint64 e ptr = (value64 e (take 8 ptr), drop 8 ptr)

unfoldable pub unserial_int16 : Endian → List ℕ → ℤ × List ℕ
unserial_int16 e ptr = let (v, rest) = unserial_uint16 e ptr in (of_word 16 v, rest)

unfoldable pub unserial_int32 : Endian → List ℕ → ℤ × List ℕ
unserial_int32 e ptr = let (v, rest) = unserial_uint32 e ptr in (of_word 32 v, rest)

unfoldable pub unserial_int64 : Endian → List ℕ → ℤ × List ℕ
unserial_int64 e ptr = let (v, rest) = unserial_uint64 e ptr in (of_word 64 v, rest)

-- strlen, over the bytes from the pointer on.
unfoldable pub strlen : List ℕ → ℕ
strlen [] = 0
strlen (b ∷ bs) = if b == 0 then 0 else suc (strlen bs)

unfoldable pub serial_string : List ℕ → List ℕ
serial_string str = take (strlen str + 1) str

unfoldable pub unserial_string : List ℕ → List ℕ × List ℕ
unserial_string ptr = let len = strlen ptr + 1 in (take len ptr, drop len ptr)
