-- ===== src/Json/Laws.antt =====
-- Laws of the dict operations, in the form that `simp` and `ground` read.
use proxy_gateway_console_pu.Prelude.{
  String, ◌≡◌, refl, Option, none, some, arith, ◌==◌, eq_iff, if◌then◌else◌,
}
use proxy_gateway_console_pu.Json.{Json, Fields, end, field, lookup, put, merge, without}

pub lookup-put :
    (k j : String) (v : Json) (fs : Fields)
    → lookup j (put k v fs) ≡ (if k == j then some v else lookup j fs)
unfolding put
lookup-put k j v end = refl
lookup-put k j v (field i w fs) =
    ground (arith, eq_iff k j, eq_iff i k, eq_iff i j, lookup-put k j v fs)

pub lookup-without :
    (k j : String) (fs : Fields) → lookup j (without k fs) ≡ (if k == j then none else lookup j fs)
unfolding without
lookup-without k j end = ground arith
lookup-without k j (field i w fs) =
    ground (arith, eq_iff k j, eq_iff i k, eq_iff i j, lookup-without k j fs)

abbrev or_else : Option Json → Option Json → Option Json
or_else (some v) o = some v
or_else none o = o

-- The last entry of a key: the one that an update leaves.
abbrev last : String → Fields → Option Json
last k end = none
last k (field j v fs) = or_else (last k fs) (if j == k then some v else none)

lookup-merge-last :
    (k : String) (fs gs : Fields) → lookup k (merge fs gs) ≡ or_else (last k gs) (lookup k fs)
unfolding merge
lookup-merge-last k fs end = refl
lookup-merge-last k fs (field j v gs) =
    ground (arith, lookup-merge-last k (put j v fs) gs, lookup-put j k v fs)

abbrev pub UniqueKeys : Fields → Type 0
UniqueKeys end = Unit
UniqueKeys (field k v fs) = (lookup k fs ≡ none) × UniqueKeys fs

last-eq-lookup : (k : String) (fs : Fields) → UniqueKeys fs → last k fs ≡ lookup k fs
last-eq-lookup k end u = refl
last-eq-lookup k (field j v fs) u = ground (arith, last-eq-lookup k fs u.1, eq_iff j k)

-- `{**fs, **gs}` has the entry of `gs` where there is one.
pub lookup-merge :
    (k : String) (fs gs : Fields)
    → UniqueKeys gs
    → lookup k (merge fs gs) ≡ or_else (lookup k gs) (lookup k fs)
lookup-merge k fs gs u = ground (arith, lookup-merge-last k fs gs, last-eq-lookup k gs u)

pub put-UniqueKeys : (k : String) (v : Json) (fs : Fields) → UniqueKeys fs → UniqueKeys (put k v fs)
unfolding put
put-UniqueKeys k v end u = (refl, tt)
put-UniqueKeys k v (field j w fs) u =
    ground (arith, eq_iff j k, eq_iff k j, put-UniqueKeys k v fs u.1, lookup-put k j v fs)
