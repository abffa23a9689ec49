-- ===== src/Dict.antt =====
-- Go's `map[string]string` as an association list; a nil map is the empty one.
use harbor_workload_identity.Base.{
  Bool, true, false, ◌&&◌, ◌≡◌, refl, List, [], ◌∷◌, Option, none, some, ◌==◌, length,
  if◌then◌else◌, arith,
}
use harbor_workload_identity.Text.{Bytes, text_eq}
use harbor_workload_identity.Text.Prefix.{text_eq_iff}

abbrev pub Dict : Type 0
Dict = List (Bytes × Bytes)

-- `v, ok := m[k]`
unfoldable pub lookup : Bytes → Dict → Option Bytes
lookup k [] = none
lookup k ((j, v) ∷ m) = if text_eq j k then some v else lookup k m

-- `m[k]`, which is "" for a missing key.
unfoldable pub get : Bytes → Dict → Bytes
unfolding lookup
get k m = elim (lookup k m) [ some v ↦ v | none ↦ [] ]

-- `m[k] = v`
unfoldable pub insert : Bytes → Bytes → Dict → Dict
insert k v [] = (k, v) ∷ []
insert k v ((j, w) ∷ m) = if text_eq j k then (j, v) ∷ m else (j, w) ∷ insert k v m

-- `for k, v := range new { m[k] = v }`
unfoldable pub insert_all : Dict → Dict → Dict
unfolding insert
insert_all [] m = m
insert_all ((k, v) ∷ new) m = insert_all new (insert k v m)

abbrev pub holds : Option Bytes → Bytes → Bool
holds none v = false
holds (some w) v = text_eq w v

unfoldable pub all_held : Dict → Dict → Bool
unfolding lookup
all_held [] b = true
all_held ((k, v) ∷ a) b = holds (lookup k b) v && all_held a b

-- `equalStringMaps` of reconciler.go.
unfoldable pub equal_string_maps : Dict → Dict → Bool
unfolding all_held
equal_string_maps a b = length a == length b && all_held a b

pub lookup-insert :
    (k j v : Bytes) (m : Dict)
    → lookup j (insert k v m) ≡ (if text_eq k j then some v else lookup j m)
unfolding lookup insert
lookup-insert k j v [] = refl
lookup-insert k j v ((i, w) ∷ m) =
    ground (arith, text_eq_iff k j, text_eq_iff i k, text_eq_iff i j, lookup-insert k j v m)

pub get-insert :
    (k j v : Bytes) (m : Dict) → get j (insert k v m) ≡ (if text_eq k j then v else get j m)
unfolding get
get-insert k j v m = ground (arith, lookup-insert k j v m)
