-- ===== src/Base/HashTable.antt =====
-- GLib's GHashTable, a library the sources only call: the operations they use, with the behaviour
-- its manual documents. `entries` is the order in which an iterator meets the entries, of which
-- nothing is assumed but that it lists each entry once.
use Prim.Native.Nat.{ℕ, suc}
use mathlib.Core.Path.{◌≡◌, refl}
use mathlib.Core.Logic.{◌↔◌}
use mathlib.Core.Bool.{Bool, true}
use mathlib.Core.Option.{Option, none, some}
use mathlib.Core.List.{List, [], ◌∷◌}
use destor.Base.Tests.{if◌then◌else◌}
use destor.Base.Lists.{length, All}
use native.Mathlib.Omega.{arith}
use destor.Base.Assoc.{
  find, put, delete, Distinct, put-Distinct, delete-Distinct, is_some, length-put, find-put,
  find-delete,
}

-- `eq` is the equality function given to g_hash_table_new_full.
pub record Table (K V : Type 0) (eq : K → K → Bool) : Type 1 where
  pub Map : Type 0
  pub empty : Map
  pub lookup : K → Map → Option V
  -- g_hash_table_insert and g_hash_table_replace
  pub insert : K → V → Map → Map
  pub remove : K → Map → Map
  pub entries : Map → List (K × V)
  pub size : Map → ℕ
  pub lookup-empty : (j : K) → lookup j empty ≡ none
  pub lookup-insert :
      (j k : K) (v : V) (m : Map)
      → lookup j (insert k v m) ≡ (if eq k j then some v else lookup j m)
  pub lookup-remove :
      (j k : K) (m : Map) → lookup j (remove k m) ≡ (if eq k j then none else lookup j m)
  pub find-entries : (j : K) (m : Map) → find eq j (entries m) ≡ lookup j m
  pub entries-Distinct : (m : Map) → Distinct eq (entries m)
  pub entries-empty : entries empty ≡ []
  pub size_lem : (m : Map) → size m ≡ length (entries m)
  pub size-empty : size empty ≡ 0
  pub size-insert :
      (k : K) (v : V) (m : Map)
      → size (insert k v m) ≡ (if is_some (lookup k m) then size m else suc (size m))

-- A table can be had: the association list, by an equality that decides equality.
module _ (K V : Type 0) (eq : K → K → Bool) (eq_iff : (a b : K) → (eq a b ≡ true) ↔ (a ≡ b)) where
  abbrev pub assoc : Table K V eq
  assoc = record {
    Map = (m : List (K × V)) × Distinct eq m;
    empty = ([], tt);
    lookup = λ j m. find eq j m.0;
    insert = λ k v m. (put eq k v m.0, put-Distinct eq eq_iff k v m.0 m.1);
    remove = λ k m. (delete eq k m.0, delete-Distinct eq eq_iff k m.0 m.1);
    entries = λ m. m.0;
    size = λ m. length m.0;
    lookup-empty = λ j. refl;
    lookup-insert = λ j k v m. find-put eq eq_iff j k v m.0;
    lookup-remove = λ j k m. find-delete eq eq_iff j k m.0;
    find-entries = λ j m. refl;
    entries-Distinct = λ m. m.1;
    entries-empty = refl;
    size_lem = λ m. refl;
    size-empty = refl;
    size-insert = λ k v m. length-put eq k v m.0;
  }

-- What an iterator sees of a table, and what inserting it all again gives.
module _ {K V : Type 0} {eq : K → K → Bool} (eq_iff : (a b : K) → (eq a b ≡ true) ↔ (a ≡ b))
    (T : Table K V eq) where
  abbrev pub insert_all : List (K × V) → T.Map → T.Map
  insert_all [] m = m
  insert_all ((k, v) ∷ es) m = insert_all es (T.insert k v m)

  find-tail :
      (k j : K) (v w : V) (es : List (K × V))
      → find eq k es ≡ none
      → find eq j es ≡ some w
      → find eq j ((k, v) ∷ es) ≡ some w
  find-tail k j v w es fresh h = ground (arith, eq_iff k j)

  pub All-find :
      (P : K → V → Type 0) (es : List (K × V))
      → Distinct eq es
      → ((k : K) (v : V) → find eq k es ≡ some v → P k v)
      → All (λ e. P e.0 e.1) es
  All-find P [] d h = tt
  All-find P ((k, v) ∷ es) d h = (
    h k v (ground (arith, eq_iff k k)),
    All-find P es d.1 (λ j w e. h j w (find-tail k j v w es d.0 e)),
  )

  pub lookup-insert_all :
      (j : K) (es : List (K × V)) (m : T.Map)
      → Distinct eq es
      → T.lookup j (insert_all es m) ≡ elim (find eq j es) [ some v ↦ some v | none ↦ T.lookup j m ]
  lookup-insert_all j [] m d = refl
  lookup-insert_all j ((k, v) ∷ es) m d =
      ground (
        arith,
        lookup-insert_all j es (T.insert k v m) d.1,
        T.lookup-insert j k v m,
        eq_iff k j,
        d.0,
      )

  -- A copy made entry by entry has the same lookups.
  pub lookup-copy :
      (j : K) (m : T.Map) → T.lookup j (insert_all (T.entries m) T.empty) ≡ T.lookup j m
  lookup-copy j m = ground (
    arith,
    lookup-insert_all j (T.entries m) T.empty (T.entries-Distinct m),
    T.find-entries j m,
    T.lookup-empty j,
  )
