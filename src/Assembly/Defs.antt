-- ===== src/Assembly/Defs.antt =====
-- src/assembly_restore.c: chunks of the recipe wait in an area; the container of the first is read
-- and all its chunks in the area are filled at once. What the area is given of the container store
-- is `Reader`. `level` is destor.simulation_level. A failed assert or a container that cannot be
-- read gives `none`.
use mathlib.Core.Option
use destor.Base.{
  ℕ, zero, suc, ◌+◌, ◌-◌, ◌*◌, ◌==◌, leb, ◌&&◌, ◌||◌, not, Bool, true, false, Option, none, some,
  List, [], ◌∷◌, ◌++◌, take, length, if◌then◌else◌, ℤ, ◌==ℤ◌,
}
use destor.Chunk.{Chunk, Fingerprint, is_file_mark}
use destor.Container.{container_size}

-- retrieve_container_by_id and get_chunk_in_container.
pub record Reader : Type 1 where
  pub Con : Type 0
  pub retrieve : ℤ → Option Con
  pub chunk_of : Con → Fingerprint → Option Chunk

pub record AssemblyArea : Type 0 where
  pub area : List Chunk
  pub area_size : ℕ
  pub size : ℕ

-- `restore_cache` is destor.restore_cache[1].
unfoldable pub init_assembly_area : ℕ → AssemblyArea
init_assembly_area restore_cache = record {
  area = [];
  area_size = (restore_cache - 1) * container_size;
  size = 0;
}

-- SET_CHUNK(c, CHUNK_READY)
abbrev pub set_ready : Chunk → Chunk
set_ready c = record c { flag = record (c.flag) { ready = true } }

-- The first loop of assemble_area: the marks in front, and the rest.
unfoldable pub split_marks : List Chunk → List Chunk × List Chunk
split_marks [] = ([], [])
split_marks (c ∷ area) =
    let (marks, rest) = split_marks area in
    if is_file_mark c then (c ∷ marks, rest) else ([], c ∷ area)

-- The last loop: what can be issued, what stays, and the size of that.
unfoldable pub issue : ℕ → List Chunk → List Chunk × List Chunk × ℕ
issue size [] = ([], [], size)
issue size (c ∷ area) =
    let size' = if is_file_mark c then size else size - c.size in
    let (q, rest, left) = issue size' area in
    if is_file_mark c || c.flag.ready then (c ∷ q, rest, left) else ([], c ∷ area, size)

-- No chunk is in the area: g_sequence_get_length is 0.
unfoldable pub is_nil : List Chunk → Bool
is_nil [] = true
is_nil (c ∷ area) = false

-- `true` if the area is full.
unfoldable pub assembly_area_push : Chunk → AssemblyArea → Bool × AssemblyArea
assembly_area_push c a =
    if is_file_mark c
    then (false, record a { area = a.area ++ (c ∷ []) })
    else let a' = record a { area = a.area ++ (c ∷ []); size = a.size + c.size } in
      (leb a'.area_size a'.size, a')

-- What goes on to restore_chunk_queue: in simulation the marks alone.
unfoldable pub send : ℕ → List Chunk → List Chunk
send level [] = []
send level (c ∷ q) = if is_file_mark c || not (leb 1 level) then c ∷ send level q else send level q

module _ (R : Reader) (level : ℕ) where
  -- The body of the middle loop.
  unfoldable pub fill : Option R.Con → ℤ → Chunk → Option Chunk
  fill con id c =
      if not (is_file_mark c) && (id ==ℤ c.id)
      then (if level == 0
          then elim con [
            | none ↦ none
            | some con' ↦ elim (R.chunk_of con' c.fp) [
              | none ↦ none
              | some buf ↦
                  if c.size == buf.size
                  then some (set_ready (record c { data_bytes = take c.size buf.data_bytes }))
                  else none
            ]
          ]
          else some (set_ready c))
      else some c

  unfoldable pub fill_all : Option R.Con → ℤ → List Chunk → Option (List Chunk)
  fill_all con id [] = some []
  fill_all con id (c ∷ area) = elim (fill con id c) [
    | none ↦ none
    | some c' ↦ Option.map (◌∷◌ c') (fill_all con id area)
  ]

  -- The container of the first chunk, without simulation; `none` in simulation.
  unfoldable pub container_of : ℤ → Option R.Con
  container_of id = if level == 0 then R.retrieve id else none

  -- assemble_area behind its first loop: the marks taken off the front, and the rest.
  unfoldable pub assemble_rest :
      AssemblyArea → List Chunk → List Chunk → Option (Option (List Chunk) × AssemblyArea)
  assemble_rest a marks [] = some (some marks, record a { area = [] })
  assemble_rest a marks (c ∷ area) = elim (fill_all (container_of c.id) c.id (c ∷ area)) [
    | none ↦ none
    | some filled ↦
        let (q, left, size) = issue a.size filled in
        some (some (marks ++ q), record a { area = left; size = size })
  ]

  -- The queue that is returned is `none` for NULL.
  unfoldable pub assemble_area : AssemblyArea → Option (Option (List Chunk) × AssemblyArea)
  assemble_area a =
      if is_nil a.area
      then some (none, a)
      else let (marks, rest) = split_marks a.area in assemble_rest a marks rest

  -- The loop over the recipe: the chunks sent, and the area at its end.
  unfoldable pub restore_loop : List Chunk → AssemblyArea → Option (List Chunk × AssemblyArea)
  restore_loop [] a = some ([], a)
  restore_loop (c ∷ recipe) a =
      let (full, a') = assembly_area_push c a in
      let rest = restore_loop recipe in
      if full
      then elim (assemble_area a') [
        | none ↦ none
        | some (none, a'') ↦ none
        | some (some q, a'') ↦ Option.map (λ r. (send level q ++ r.0, r.1)) (rest a'')
      ]
      else rest a'

  -- `while ((q = assemble_area()))`, with fuel; `none` also if that runs out.
  unfoldable pub drain : ℕ → AssemblyArea → Option (List Chunk)
  drain zero a = none
  drain (suc fuel) a = elim (assemble_area a) [
    | none ↦ none
    | some (none, a') ↦ some []
    | some (some q, a') ↦ Option.map (λ out. send level q ++ out) (drain fuel a')
  ]

  unfoldable pub assembly_restore : ℕ → List Chunk → Option (List Chunk)
  assembly_restore restore_cache recipe =
      elim (restore_loop recipe (init_assembly_area restore_cache)) [
        | none ↦ none
        | some (sent, a) ↦ Option.map (λ out. sent ++ out) (drain (suc (length a.area)) a)
      ]
