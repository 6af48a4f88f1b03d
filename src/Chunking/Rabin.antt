-- ===== src/Chunking/Rabin.antt =====
-- src/chunking/rabin_chunking.c: the rolling window and the three chunking functions. The tables T
-- and U and `shift`, which window_init computes from the polynomial, are arguments; a read or
-- write outside the window or the data is `none`.
use mathlib.Core.Option
use Prim.Native.Nat.{bit_and, bit_or, bit_xor}
use destor.Base.{
  ℕ, zero, suc, ◌+◌, ◌-◌, ◌*◌, ◌/◌, ◌%◌, ◌^◌, ◌==◌, ltb, leb, Bool, Option, none, some, List, [],
  ◌∷◌, if◌then◌else◌, get_elem?, replicate, length,
}

pub record Rabin : Type 0 where
  pub table_t : ℕ → ℕ
  pub table_u : ℕ → ℕ
  pub shift : ℕ
  pub chunk_min_size : ℕ
  pub chunk_avg_size : ℕ
  pub chunk_max_size : ℕ

-- `next` is bufPos + 1, since bufPos starts at -1.
pub record Window : Type 0 where
  pub fp : ℕ
  pub next : ℕ
  pub buf : List ℕ

unfoldable pub set_elem : {A : Type 0} → List A → ℕ → A → Option (List A)
set_elem [] i a = none
set_elem (x ∷ l) zero a = some (a ∷ l)
set_elem (x ∷ l) (suc i) a = Option.map (◌∷◌ x) (set_elem l i a)

abbrev pub breakmark_value : ℕ
breakmark_value = 120

unfoldable pub new_window : Window
new_window = record { fp = 0; next = 0; buf = replicate 128 0 }

-- The macro SLIDE.
unfoldable pub slide : Rabin → ℕ → Window → Option Window
unfolding set_elem
slide d m w =
    let pos = if leb 48 w.next then 0 else w.next in
    elim (get_elem? w.buf pos) [
      | none ↦ none
      | some om ↦
          let fp1 = bit_xor w.fp (d.table_u om) in
          let x = fp1 / 2 ^ d.shift in
          let fp2 = bit_xor (bit_or (fp1 * 2 ^ 8 % 2 ^ 64) m) (d.table_t x) in
          Option.map (λ buf. record { fp = fp2; next = pos + 1; buf = buf }) (set_elem w.buf pos m)
    ]

-- SLIDE with p[i - 1].
unfoldable pub slide_at : Rabin → List ℕ → ℕ → Window → Option Window
unfolding slide
slide_at d p i w = elim (get_elem? p (i - 1)) [ none ↦ none | some m ↦ slide d m w ]

-- `(fp & mask) == BREAKMARK_VALUE`
abbrev pub is_break : ℕ → Window → Bool
is_break mask w = bit_and w.fp mask == breakmark_value

-- The loops of rabin_chunk_data and normalized_rabin_chunk_data, which differ in the mask at a
-- position. The first argument is end - i, the rounds that are left.
unfoldable pub rabin_loop : ℕ → Rabin → (ℕ → ℕ) → List ℕ → ℕ → Window → Option ℕ
unfolding slide_at
rabin_loop zero d mask p i w = some i
rabin_loop (suc k) d mask p i w = elim (slide_at d p i w) [
  | none ↦ none
  | some w' ↦
      let rest = rabin_loop k d mask p (i + 1) w' in if is_break (mask i) w' then some i else rest
]

abbrev pub end_of : Rabin → ℕ → ℕ
end_of d n = if ltb d.chunk_max_size n then d.chunk_max_size else n

unfoldable pub rabin_chunk_data : Rabin → List ℕ → Option ℕ
unfolding rabin_loop new_window
rabin_chunk_data d p =
    if leb (length p) d.chunk_min_size
    then some (length p)
    else rabin_loop (end_of d (length p) - d.chunk_min_size) d (λ i. d.chunk_avg_size - 1) p
        d.chunk_min_size new_window

unfoldable pub normalized_rabin_chunk_data : Rabin → List ℕ → Option ℕ
unfolding rabin_loop new_window
normalized_rabin_chunk_data d p =
    if leb (length p) d.chunk_min_size
    then some (length p)
    else rabin_loop (end_of d (length p) - d.chunk_min_size) d
        (λ i. if ltb i d.chunk_avg_size then d.chunk_avg_size * 2 - 1 else d.chunk_avg_size / 2 - 1)
        p d.chunk_min_size new_window

-- The loop of tttd_chunk_data and what follows it; `m` is the last backup break.
unfoldable pub tttd_loop : ℕ → Rabin → List ℕ → ℕ → ℕ → Window → Option ℕ
unfolding slide_at
tttd_loop zero d p m i w = some (if m == 0 then i else m)
tttd_loop (suc k) d p m i w = elim (slide_at d p i w) [
  | none ↦ none
  | some w' ↦
      let back = is_break (d.chunk_avg_size / 2 - 1) w' in
      let rest = tttd_loop k d p (if back then i else m) (i + 1) w' in
      if back then (if is_break (d.chunk_avg_size - 1) w' then some i else rest) else rest
]

unfoldable pub tttd_chunk_data : Rabin → List ℕ → Option ℕ
unfolding tttd_loop new_window
tttd_chunk_data d p =
    if leb (length p) d.chunk_min_size
    then some (length p)
    else tttd_loop (end_of d (length p) - d.chunk_min_size) d p 0 d.chunk_min_size new_window
