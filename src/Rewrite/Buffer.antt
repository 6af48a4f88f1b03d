-- ===== src/Rewrite/Buffer.antt =====
-- The rewrite buffer: its records, number and size are the sums over its queue.
use destor.Base.{
  ℕ, suc, ◌+◌, ◌-◌, ◌<◌, ◌≡◌, refl, ap, ◌∙◌, ◌==◌, Bool, false, some, List, [], ◌∷◌, ◌++◌, arith,
  if◌then◌else◌, ℤ, ◌==ℤ◌, find, All, Bool-cases, inl, inr,
}
use destor.Chunk.{Chunk, is_signal}
use destor.Rewrite.Defs.{
  RewriteBuffer, init_rewrite_buffer, rewrite_buffer_push, rewrite_buffer_pop, checked,
}
use destor.Rewrite.Records.{
  Marked, Exact, Exact-front, total, total-append, add_record_lem, take_record_lem,
}

abbrev pub normals : List Chunk → ℕ
normals [] = 0
normals (c ∷ queue) = let n = normals queue in if is_signal c then n else suc n

abbrev pub bytes : List Chunk → ℕ
bytes [] = 0
bytes (c ∷ queue) = let n = bytes queue in if is_signal c then n else c.size + n

pub record IsValid (b : RewriteBuffer) : Type 0 where
  pub records : (id : ℤ) → find ◌==ℤ◌ id b.container_records ≡ total id b.chunk_queue
  pub counted : b.num ≡ normals b.chunk_queue
  pub summed : b.size ≡ bytes b.chunk_queue
  pub marked : All Marked b.chunk_queue
  pub exact : Exact b.chunk_queue

pub init_rewrite_buffer-IsValid : IsValid init_rewrite_buffer
unfolding init_rewrite_buffer
init_rewrite_buffer-IsValid = record {
  records = λ id. refl;
  counted = refl;
  summed = refl;
  marked = tt;
  exact = λ i j there there' same. absurd (ground (arith, there));
}

pub normals-append :
    (queue : List Chunk) (c : Chunk)
    → normals (queue ++ (c ∷ [])) ≡ (if is_signal c then normals queue else normals queue + 1)
normals-append [] c = ground arith
normals-append (x ∷ queue) c = ground (arith, normals-append queue c)

bytes-append :
    (queue : List Chunk) (c : Chunk)
    → bytes (queue ++ (c ∷ [])) ≡ (if is_signal c then bytes queue else bytes queue + c.size)
bytes-append [] c = ground arith
bytes-append (x ∷ queue) c = ground (arith, bytes-append queue c)

Marked-append :
    (queue : List Chunk) (c : Chunk) → All Marked queue → Marked c → All Marked (queue ++ (c ∷ []))
Marked-append [] c h k = (k, tt)
Marked-append (x ∷ queue) c h k = (h.0, Marked-append queue c h.1 k)

-- A push of a marked chunk onto a valid buffer with fewer than `most` chunks, whose containers are
-- told apart, fails no assert. It
-- puts the chunk at the end, keeps the records, the number and the size right, and says whether the
-- buffer has `most` chunks now.
pub rewrite_buffer_push-IsValid :
    (most : ℕ) (c : Chunk) (b : RewriteBuffer)
    → IsValid b
    → Marked c
    → Exact (b.chunk_queue ++ (c ∷ []))
    → b.num < most
    → (full : Bool) × (b' : RewriteBuffer) × (rewrite_buffer_push most c b ≡ some (full, b'))
      × IsValid b'
      × (b'.chunk_queue ≡ b.chunk_queue ++ (c ∷ []))
      × (full ≡ (b'.num == most))
unfolding rewrite_buffer_push
rewrite_buffer_push-IsValid most c b v h exact room = elim (Bool-cases (is_signal c)) [
  | inl s ↦ (
    false,
    record b { chunk_queue = b.chunk_queue ++ (c ∷ []) },
    ground (arith, s),
    record {
      records = λ id. v.records id ∙ ground (arith, s, total-append id b.chunk_queue c);
      counted = ground (arith, s, v.counted, normals-append b.chunk_queue c);
      summed = ground (arith, s, v.summed, bytes-append b.chunk_queue c);
      marked = Marked-append b.chunk_queue c v.marked h;
      exact = exact;
    },
    refl,
    ground (arith, room),
  )
  | inr s ↦
      let (records', added, same) =
        add_record_lem c b.chunk_queue b.container_records v.records h exact s in
      (
        (b.num + 1) == most,
        record {
          chunk_queue = b.chunk_queue ++ (c ∷ []);
          container_records = records';
          num = b.num + 1;
          size = b.size + c.size;
        },
        ground (arith, s, added, room),
        record {
          records = same;
          counted = ground (arith, s, v.counted, normals-append b.chunk_queue c);
          summed = ground (arith, s, v.summed, bytes-append b.chunk_queue c);
          marked = Marked-append b.chunk_queue c v.marked h;
          exact = exact;
        },
        refl,
        refl,
      )
]

-- A pop from a valid buffer with a chunk in front fails no assert: it returns that chunk, after
-- har_check where it is a duplicate in a container, and leaves a valid buffer of the others.
pub rewrite_buffer_pop-IsValid :
    (sparse : ℤ → Bool) (c : Chunk) (queue : List Chunk) (b : RewriteBuffer)
    → IsValid b
    → b.chunk_queue ≡ c ∷ queue
    → (b' : RewriteBuffer) × (rewrite_buffer_pop sparse b
        ≡ some (some (if is_signal c then c else checked sparse c), b'))
      × IsValid b'
      × (b'.chunk_queue ≡ queue)
unfolding rewrite_buffer_pop
rewrite_buffer_pop-IsValid sparse c queue b v e = elim (Bool-cases (is_signal c)) [
  | inl s ↦ (
    record b { chunk_queue = queue },
    ground (arith, s, e),
    record {
      records = λ id. v.records id ∙ ap (total id) e ∙ ground (arith, s);
      counted = v.counted ∙ ap normals e ∙ ground (arith, s);
      summed = v.summed ∙ ap bytes e ∙ ground (arith, s);
      marked = (rw e at v.marked).1;
      exact = Exact-front c queue (rw e at v.exact);
    },
    refl,
  )
  | inr s ↦
      let (records', taken, same) =
        take_record_lem c queue b.container_records (λ id. v.records id ∙ ap (total id) e)
          (rw e at v.marked).0 (rw e at v.marked).1 (rw e at v.exact) s in
      (
        record {
          chunk_queue = queue;
          container_records = records';
          num = b.num - 1;
          size = b.size - c.size;
        },
        ground (arith, s, e, taken),
        record {
          records = same;
          counted = ground (arith, s, v.counted ∙ ap normals e);
          summed = ground (arith, s, v.summed ∙ ap bytes e);
          marked = (rw e at v.marked).1;
          exact = Exact-front c queue (rw e at v.exact);
        },
        refl,
      )
]
