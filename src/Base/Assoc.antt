-- ===== src/Base/Assoc.antt =====
-- Association lists by a Boolean equality of keys: the concrete table of the tests.
use Prim.Native.Nat.{suc}
use mathlib.Core.Path.{◌≡◌, refl}
use mathlib.Core.Logic.{◌↔◌, inl, inr}
use mathlib.Core.Bool.{Bool, true, false}
use mathlib.Core.Option.{Option, none, some}
use mathlib.Core.List.{List, [], ◌∷◌}
use native.Mathlib.Omega.{arith}
use destor.Base.Tests.{if◌then◌else◌, Bool-cases}
use destor.Base.Lists.{length}

abbrev pub is_some {ℓ} : {A : Type ℓ} → Option A → Bool
is_some none = false
is_some (some a) = true

module _ {K V : Type 0} (eq : K → K → Bool) where
  abbrev pub find : K → List (K × V) → Option V
  find k [] = none
  find k ((j, v) ∷ m) = if eq j k then some v else find k m

  abbrev pub put : K → V → List (K × V) → List (K × V)
  put k v [] = (k, v) ∷ []
  put k v ((j, w) ∷ m) = if eq j k then (k, v) ∷ m else (j, w) ∷ put k v m

  abbrev pub delete : K → List (K × V) → List (K × V)
  delete k [] = []
  delete k ((j, w) ∷ m) = if eq j k then delete k m else (j, w) ∷ delete k m

  -- No key occurs twice.
  abbrev pub Distinct : List (K × V) → Type 0
  Distinct [] = Unit
  Distinct ((k, v) ∷ m) = (find k m ≡ none) × Distinct m

  pub length-put :
      (k : K) (v : V) (m : List (K × V))
      → length (put k v m) ≡ (if is_some (find k m) then length m else suc (length m))
  length-put k v [] = refl
  length-put k v ((j, w) ∷ m) = ground (arith, length-put k v m)

  module _ (eq_iff : (a b : K) → (eq a b ≡ true) ↔ (a ≡ b)) where
    pub find-put :
        (j k : K) (v : V) (m : List (K × V))
        → find j (put k v m) ≡ (if eq k j then some v else find j m)
    find-put j k v [] = refl
    find-put j k v ((i, w) ∷ m) =
        ground (arith, eq_iff k j, eq_iff i k, eq_iff i j, find-put j k v m)

    pub find-delete :
        (j k : K) (m : List (K × V)) → find j (delete k m) ≡ (if eq k j then none else find j m)
    find-delete j k [] = ground arith
    find-delete j k ((i, w) ∷ m) =
        ground (arith, eq_iff k j, eq_iff i k, eq_iff i j, find-delete j k m)

    pub put-Distinct : (k : K) (v : V) (m : List (K × V)) → Distinct m → Distinct (put k v m)
    put-Distinct k v [] h = (refl, tt)
    put-Distinct k v ((j, w) ∷ m) h = elim (Bool-cases (eq j k)) [
      | inl same ↦ rw same (rw ((eq_iff j k).0 same) at h.0, h.1)
      | inr other ↦
          rw other
            (ground (arith, find-put j k v m, h.0, eq_iff k j, eq_iff j k), put-Distinct k v m h.1)
    ]

    pub delete-Distinct : (k : K) (m : List (K × V)) → Distinct m → Distinct (delete k m)
    delete-Distinct k [] h = tt
    delete-Distinct k ((j, w) ∷ m) h = elim (Bool-cases (eq j k)) [
      | inl same ↦ rw same (delete-Distinct k m h.1)
      | inr other ↦ rw other (ground (arith, find-delete j k m, h.0), delete-Distinct k m h.1)
    ]
