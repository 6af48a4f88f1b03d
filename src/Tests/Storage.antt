-- ===== src/Tests/Storage.antt =====
-- src/utils/serial.c and src/storage/containerstore.c at small inputs.
use destor.Base.{
  ℕ, ◌≡◌, ◌≢◌, refl, Bool, true, false, none, some, List, [], ◌∷◌, ◌++◌, arith, pos, negsuc, ◌==◌,
  ==_iff, assoc, Table, is_some, not, ◌&&◌, if◌then◌else◌,
}
use destor.Chunk.{Chunk, chunk_unique, temporary_id}
use destor.Serial.{
  big, little, serial_uint16, serial_uint32, serial_uint64, serial_int16, serial_int32,
  serial_int64, unserial_int16, unserial_int32, unserial_int64, serial_string, unserial_string,
}
use destor.Serial.Bytes.{be_bytes}
use destor.Serial.Wire.{serial_uint-be_bytes}
use destor.Serial.RoundTrip.{unserial-serial, unserial_string-serial_string}
use destor.Container.{
  MetaEntry, Container, Pool, zeros, write_at, create_container, container_overflow, append_chunk,
  add_chunk_to_container, lookup_fingerprint_in_container, get_chunk_in_container,
  init_container_meta, container_size, append_data,
}
use destor.Container.Add.{
  IsValid, create_container-IsValid, append_chunk-IsValid, add_chunk_to_container-IsValid,
}
use destor.Container.Contents.{stored, stored-add_chunk_to_container, get_chunk-add_chunk}
use destor.Pool.{write_container, retrieve_container_by_id, read_container_meta}
use destor.Pool.RoundTrip.{ShortKeys, retrieve-write_container}
use destor.Pool.Apart.{retrieve-write_container_other}

serial_uint-be_bytes_example :
    (serial_uint16 little 258 ≡ be_bytes 2 258)
    × (serial_uint32 little 258 ≡ be_bytes 4 258)
    × (serial_uint64 little 258 ≡ be_bytes 8 258)
serial_uint-be_bytes_example = serial_uint-be_bytes little 258

-- From a little-endian host to a big-endian one.
unserial-serial_example :
    (unserial_int16 big (
        serial_int16 little (negsuc 4)
        ++ (serial_int32 little (pos 7) ++ (serial_int64 little (negsuc 0) ++ (9 ∷ []))))
      ≡ (negsuc 4, serial_int32 little (pos 7) ++ (serial_int64 little (negsuc 0) ++ (9 ∷ []))))
    × (unserial_int32 big
          (serial_int32 little (pos 7) ++ (serial_int64 little (negsuc 0) ++ (9 ∷ [])))
        ≡ (pos 7, serial_int64 little (negsuc 0) ++ (9 ∷ [])))
    × (unserial_int64 big (serial_int64 little (negsuc 0) ++ (9 ∷ [])) ≡ (negsuc 0, 9 ∷ []))
unserial-serial_example =
    unserial-serial little big (negsuc 4) (pos 7) (negsuc 0) (9 ∷ []) (omega arith) (omega arith)
      (omega arith)

unserial_string-serial_string_example :
    (serial_string (65 ∷ 66 ∷ 0 ∷ 1 ∷ []) ≡ 65 ∷ 66 ∷ 0 ∷ [])
    × (unserial_string (serial_string (65 ∷ 66 ∷ 0 ∷ 1 ∷ []) ++ (7 ∷ []))
        ≡ (65 ∷ 66 ∷ 0 ∷ [], 7 ∷ []))
unserial_string-serial_string_example =
    unserial_string-serial_string (65 ∷ 66 ∷ []) (1 ∷ []) (7 ∷ [])
      ((λ e. omega (arith, e)), ((λ e. omega (arith, e)), tt))

-- A pool with three containers, and its fourth, which holds one chunk.
abbrev entries : Table ℕ MetaEntry ◌==◌
entries = assoc ℕ MetaEntry ◌==◌ ==_iff

abbrev pool : Pool
pool = record { container_count = 3; file = λ i. 0 }

abbrev new_container : Container entries.Map
new_container = record {
  meta = record (init_container_meta entries) { id = pos 3 };
  contents = some (zeros container_size);
}

abbrev first_chunk : Chunk
first_chunk = record {
  size = 2;
  flag = chunk_unique;
  id = temporary_id;
  fp = 5;
  data_bytes = 10 ∷ 20 ∷ [];
}

abbrev second_chunk : Chunk
second_chunk = record first_chunk { fp = 6; data_bytes = 30 ∷ 40 ∷ [] }

abbrev one_chunk : Container entries.Map
one_chunk = append_chunk entries 0 new_container first_chunk

create_container_new : (create_container entries 0 pool).0 ≡ new_container
unfolding create_container
create_container_new = refl

new_container-IsValid : IsValid entries 0 new_container
new_container-IsValid = rw⁻¹ create_container_new ((create_container-IsValid entries 0 pool).0)

create_container-IsValid_example :
    IsValid entries 0 (create_container entries 0 pool).0
    × ((create_container entries 0 pool).0.meta.id ≡ pos 3)
    × ((create_container entries 0 pool).1.container_count ≡ 4)
create_container-IsValid_example = create_container-IsValid entries 0 pool

new_room : container_overflow entries new_container 2 ≡ false
unfolding container_overflow init_container_meta
new_room = refl

add_chunk_to_container-IsValid_example :
    (r : Bool × Container entries.Map × Chunk) × (add_chunk_to_container entries 0 new_container
        first_chunk
      ≡ some r)
    × IsValid entries 0 r.1
    × (r.1.meta.id ≡ pos 3)
    × (r.2.id ≡ pos 3)
    × (lookup_fingerprint_in_container entries r.1 5 ≡ true)
add_chunk_to_container-IsValid_example =
    add_chunk_to_container-IsValid entries 0 first_chunk new_container-IsValid new_room refl

one_chunk-IsValid : IsValid entries 0 one_chunk
unfolding init_container_meta
one_chunk-IsValid =
    append_chunk-IsValid entries 0 first_chunk new_container-IsValid new_room refl refl

abbrev two_bytes : List ℕ
two_bytes = write_at (zeros container_size) 0 (10 ∷ 20 ∷ [])

one_chunk_bytes : one_chunk.contents ≡ some two_bytes
unfolding append_chunk append_data init_container_meta
one_chunk_bytes = refl

one_room : container_overflow entries one_chunk 2 ≡ false
unfolding container_overflow append_chunk init_container_meta
one_room = refl

-- The second chunk, and what the container has under each fingerprint.
stored-add_chunk_to_container_example :
    (r : Bool × Container entries.Map × Chunk) × (add_chunk_to_container entries 0 one_chunk
        second_chunk
      ≡ some r)
    × (r.0 ≡ not (is_some (entries.lookup 6 one_chunk.meta.map)))
    × (stored entries r.1 5
        ≡ (if r.0 && (6 == 5) then some (30 ∷ 40 ∷ []) else stored entries one_chunk 5))
stored-add_chunk_to_container_example =
    stored-add_chunk_to_container entries one_chunk second_chunk two_bytes 5 one_chunk-IsValid
      one_chunk_bytes one_room refl

second_new : entries.lookup 6 one_chunk.meta.map ≡ none
unfolding append_chunk init_container_meta
second_new = refl

get_chunk-add_chunk_example :
    (r : Bool × Container entries.Map × Chunk) × (add_chunk_to_container entries 0 one_chunk
        second_chunk
      ≡ some r)
    × (get_chunk_in_container entries 0 99 [] r.1 6
        ≡ some (record {
          size = 2;
          flag = chunk_unique;
          id = one_chunk.meta.id;
          fp = 99;
          data_bytes = 30 ∷ 40 ∷ [];
        }))
get_chunk-add_chunk_example =
    get_chunk-add_chunk entries one_chunk second_chunk two_bytes 99 [] one_chunk-IsValid
      one_chunk_bytes one_room refl second_new

one_chunk-ShortKeys : ShortKeys little entries one_chunk
unfolding append_chunk init_container_meta
one_chunk-ShortKeys fp me here = ground (arith, here)

one_chunk_id : one_chunk.meta.id ≡ pos 3
unfolding append_chunk
one_chunk_id = refl

one_chunk_some : one_chunk.meta.chunk_num ≢ 0
unfolding append_chunk init_container_meta
one_chunk_some e = omega (arith, e)

retrieve-write_container_example :
    (p' : Pool) × (write_container little entries 0 one_chunk pool ≡ some p')
    × (c' : Container entries.Map) × (retrieve_container_by_id little entries 0 (pos 3) p'
        ≡ some c')
    × (c'.meta.id ≡ one_chunk.meta.id)
    × (c'.meta.chunk_num ≡ one_chunk.meta.chunk_num)
    × (c'.meta.data_size ≡ one_chunk.meta.data_size)
    × (stored entries c' 5 ≡ stored entries one_chunk 5)
retrieve-write_container_example =
    retrieve-write_container little entries 3 one_chunk two_bytes pool 5 one_chunk-IsValid
      one_chunk-ShortKeys one_chunk_bytes one_chunk_id (omega arith) one_chunk_some

other_number : ◌≢◌ {A = ℕ} 1 3
other_number e = omega (arith, e)

retrieve-write_container_other_example :
    (p' : Pool) × (write_container little entries 0 one_chunk pool ≡ some p')
    × (retrieve_container_by_id little entries 0 (pos 1) p'
        ≡ retrieve_container_by_id little entries 0 (pos 1) pool)
    × (read_container_meta little entries 0 (pos 1) p'
        ≡ read_container_meta little entries 0 (pos 1) pool)
retrieve-write_container_other_example =
    retrieve-write_container_other little entries 0 3 1 one_chunk pool one_chunk-IsValid
      one_chunk_id (omega arith) (omega arith) other_number
