-- ===== src/Chunk/Defs.antt =====
-- `struct chunk` and the flags of src/destor.h. The bits of `flag` are kept as named Booleans.
use destor.Base.{ℕ, ℤ, negsuc, Bool, false, ◌||◌, List, ◌==ℤ◌, not}

-- One Boolean for each mask of src/destor.h.
pub record ChunkFlag : Type 0 where
  pub file_start : Bool
  pub file_end : Bool
  pub segment_start : Bool
  pub segment_end : Bool
  pub wait : Bool
  pub ready : Bool
  pub duplicate : Bool
  pub sparse : Bool
  pub out_of_order : Bool
  pub in_cache : Bool
  pub rewrite_denied : Bool

-- CHUNK_UNIQUE: no bit is set.
abbrev pub chunk_unique : ChunkFlag
chunk_unique = record {
  file_start = false;
  file_end = false;
  segment_start = false;
  segment_end = false;
  wait = false;
  ready = false;
  duplicate = false;
  sparse = false;
  out_of_order = false;
  in_cache = false;
  rewrite_denied = false;
}

-- A fingerprint is the number that its 20 bytes spell, the first byte the most significant.
abbrev pub Fingerprint : Type 0
Fingerprint = ℕ

-- TEMPORARY_ID
abbrev pub temporary_id : ℤ
temporary_id = negsuc 0

pub record Chunk : Type 0 where
  pub size : ℕ
  pub flag : ChunkFlag
  pub id : ℤ
  pub fp : Fingerprint
  pub data_bytes : List ℕ

-- CHUNK_FILE_START or CHUNK_FILE_END.
abbrev pub is_file_mark : Chunk → Bool
is_file_mark c = c.flag.file_start || c.flag.file_end

-- Any of the four marks that delimit files and segments.
abbrev pub is_signal : Chunk → Bool
is_signal c = c.flag.file_start || (c.flag.file_end || (c.flag.segment_start || c.flag.segment_end))

-- A chunk that stands for stored data under a known container.
abbrev pub has_id : Chunk → Bool
has_id c = not (c.id ==ℤ temporary_id)
