-- ===== src/Sampling/Features.antt =====
-- The tables of features that src/index/sampling_method.c returns.
use native.Mathlib.Nat.{div-eq-sub-div, zero-mod}
use destor.Base.{
  ℕ, ◌+◌, ◌%◌, ◌==◌, ◌≡◌, ◌≢◌, ◌≤◌, refl, sym, ◌∙◌, ltb, Bool, not, ◌&&◌, some, List, [], ◌∷◌, map,
  length, take, Bool-cases, Option-cases, inl, inr, arith, Table, find,
}
use destor.Chunk.{Chunk, Fingerprint}
use destor.Sampling.Defs.{
  feature_number, or_default, all_ones, add_features, add_new, number_of, random_features,
  uniform_features, index_sampling_min, index_sampling_optimized_min, index_sampling_random,
  index_sampling_uniform, SamplingMethod, random, optimized_min, minimum, uniform, sampling,
}
use destor.Sampling.Candidates.{select_anchors-smallest}

-- min-sampling always asks for a feature at least.
pub feature_number_pos : (k n : ℕ) → 1 ≤ feature_number k n
unfolding feature_number
feature_number_pos k n = elim (Bool-cases (not (k == 0) && ltb k n)) [
  | inr few ↦ ground (arith, few)
  | inl many ↦
      ground
        (arith, many, div-eq-sub-div {m = k} {n = n} (ground (arith, many)) (ground (arith, many)))
]

module _ {K : Type 0} {eq : K → K → Bool} (F : Table K (Unit {0}) eq)
    (key_of : Fingerprint → K) where
  size-lookup : (k : K) (m : F.Map) (u : Unit {0}) → F.lookup k m ≡ some u → F.size m ≢ 0
  size-lookup k m u there e = go (F.entries m) (F.find-entries k m ∙ there) (sym (F.size_lem m) ∙ e)
    where
      go : (es : List (K × Unit {0})) → find eq k es ≡ some u → length es ≢ 0
      go [] h e = ground (arith, h)
      go (x ∷ es) h e = omega (arith, e)

  size-insert_some : (k : K) (m : F.Map) → F.size (F.insert k tt m) ≢ 0
  size-insert_some k m e = elim (Option-cases (F.lookup k m)) [
    | inl new ↦ ground (arith, F.size-insert k tt m, new, e)
    | inr (u, there) ↦ size-lookup k m u there (ground (arith, F.size-insert k tt m, there, e))
  ]

  or_default_some : (f : Fingerprint) (m : F.Map) → F.size (or_default F key_of f m) ≢ 0
  or_default_some f m = elim (Bool-cases (F.size m == 0)) [
    | inl empty ↦ rw empty (size-insert_some (key_of f) m)
    | inr full ↦ rw full (ground (arith, full))
  ]

  add_new_some : (f : Fingerprint) (m : F.Map) → F.size (add_new F key_of f m) ≢ 0
  add_new_some f m = elim (Option-cases (F.lookup (key_of f) m)) [
    | inl new ↦ rw new (size-insert_some (key_of f) m)
    | inr (u, there) ↦ rw there (size-lookup (key_of f) m u there)
  ]

  uniform_features_some :
      (k : ℕ) (cs : List Chunk) (count : ℕ) (m : F.Map)
      → F.size m ≢ 0
      → F.size (uniform_features F key_of k cs count m) ≢ 0
  unfolding uniform_features
  uniform_features_some k [] count m full = full
  uniform_features_some k (c ∷ cs) count m full = elim (Bool-cases (count % k == 0)) [
    | inl here ↦
        rw here
          (uniform_features_some k cs (count + 1) (add_new F key_of c.fp m) (add_new_some c.fp m))
    | inr other ↦ rw other (uniform_features_some k cs (count + 1) m full)
  ]

  -- The first chunk is sampled.
  uniform_some :
      (k : ℕ) (cs : List Chunk) (m : F.Map)
      → 1 ≤ length cs
      → F.size (uniform_features F key_of k cs 0 m) ≢ 0
  unfolding uniform_features
  uniform_some k [] m some_chunk = absurd (omega arith)
  uniform_some k (c ∷ cs) m some_chunk =
      rw (zero-mod k) (uniform_features_some k cs 1 (add_new F key_of c.fp m) (add_new_some c.fp m))

  uniform_lem :
      (k : ℕ) (chunks : List Chunk) (chunk_num : ℕ)
      → k ≢ 0
      → chunk_num ≤ length chunks
      → index_sampling_uniform F key_of k chunks chunk_num
        ≡ some (or_default F key_of 0 (uniform_features F key_of k chunks 0 F.empty))
  unfolding index_sampling_uniform
  uniform_lem k [] chunk_num pos le = ground arith
  uniform_lem k (c ∷ cs) chunk_num pos le =
      ground (arith, uniform_some k (c ∷ cs) F.empty (omega arith))

  -- With a sampling ratio that is not 0, and no more chunks counted than there are, every sampling
  -- method fails no assert and returns a table with at least one feature.
  pub sampling-nonempty :
      (m : SamplingMethod) (k : ℕ) (chunks : List Chunk) (chunk_num : ℕ)
      → k ≢ 0
      → chunk_num ≤ length chunks
      → (features : F.Map) × (sampling F key_of m k chunks chunk_num ≡ some features)
        × (F.size features ≢ 0)
  unfolding sampling index_sampling_random index_sampling_min index_sampling_optimized_min
  sampling-nonempty (random e) k chunks chunk_num pos le =
      (_, ground (arith, pos), or_default_some 0 (random_features F key_of e k chunks F.empty))
  sampling-nonempty minimum k chunks chunk_num pos le = (_, refl, or_default_some all_ones _)
  sampling-nonempty uniform k chunks chunk_num pos le =
      (_, uniform_lem k chunks chunk_num pos le, or_default_some 0 _)
  sampling-nonempty optimized_min k chunks chunk_num pos le =
      let n = feature_number k (number_of F key_of chunks chunk_num) in
      let (all, perm, sorted, run) =
        select_anchors-smallest n chunks
          (feature_number_pos k (number_of F key_of chunks chunk_num)) in
      (
        or_default F key_of all_ones
            (add_features F key_of (map (λ a. a.candidate) (take n all)) F.empty),
        ground (arith, run),
        or_default_some all_ones _,
      )
