-- ===== src/Json.antt =====
-- The values of `json.loads`, which the Python code passes as `dict[str, Any]`.
-- A dict is its entries in insertion order. A `float` with parts m and k is the number m / 2^k,
-- which every finite double is; `NaN` and the infinities are left out.
pub mod Laws
use proxy_gateway_console_pu.Prelude.{
  ℕ, suc, ◌*◌, ◌^◌, ℤ, pos, negsuc, String, Bool, true, false, not, ◌||◌, Option, none, some, List,
  [], ◌∷◌, ◌==◌, ◌=?◌, if◌then◌else◌,
}

mutual
  pub data Json : Type 0 where
    null : Json
    bool : Bool → Json
    int : ℤ → Json
    float : ℤ → ℕ → Json
    str : String → Json
    list : Items → Json
    dict : Fields → Json

  pub data Items : Type 0 where
    nil : Items
    cons : Json → Items → Items

  pub data Fields : Type 0 where
    end : Fields
    field : String → Json → Fields → Fields

-- `[a, b]` and `{k: v, …}` with keys that differ.
abbrev pub items : List Json → Items
items [] = nil
items (x ∷ xs) = cons x (items xs)

abbrev pub fields : List (String × Json) → Fields
fields [] = end
fields ((k, v) ∷ xs) = field k v (fields xs)

abbrev pub obj : List (String × Json) → Json
obj xs = dict (fields xs)

abbrev pub arr : List Json → Json
arr xs = list (items xs)

abbrev pub nat : ℕ → Json
nat n = int (pos n)

-- The elements of a list, and the values and the keys of a dict, in order.
abbrev pub elems : Items → List Json
elems nil = []
elems (cons x xs) = x ∷ elems xs

abbrev pub keys : Fields → List String
keys end = []
keys (field k v fs) = k ∷ keys fs

abbrev pub entries : Fields → List (String × Json)
entries end = []
entries (field k v fs) = (k, v) ∷ entries fs

-- fs.get(k)
abbrev pub lookup : String → Fields → Option Json
lookup k end = none
lookup k (field j v fs) = if j == k then some v else lookup k fs

-- fs.get(k, d)
abbrev pub or_default : Json → Option Json → Json
or_default d none = d
or_default d (some v) = v

abbrev pub get_or : String → Json → Fields → Json
get_or k d fs = or_default d (lookup k fs)

-- fs.get(k), with `None` for a missing key
abbrev pub get : String → Fields → Json
get k fs = get_or k null fs

-- k in fs
abbrev pub has : String → Fields → Bool
has k fs = elim (lookup k fs) [ none ↦ false | some _ ↦ true ]

-- fs[k] = v
unfoldable pub put : String → Json → Fields → Fields
put k v end = field k v end
put k v (field j w fs) = if j == k then field j v fs else field j w (put k v fs)

-- {**fs, **gs} and fs.update(gs)
unfoldable pub merge : Fields → Fields → Fields
unfolding put
merge fs end = fs
merge fs (field k v gs) = merge (put k v fs) gs

-- {key: value for key, value in fs.items() if key != k}
unfoldable pub without : String → Fields → Fields
without k end = end
without k (field j v fs) = let rest = without k fs in if j == k then rest else field j v rest

-- bool(v)
abbrev zero_int : ℤ → Bool
zero_int (pos n) = n =? 0
zero_int (negsuc n) = false

abbrev pub truthy : Json → Bool
truthy null = false
truthy (bool b) = b
truthy (int z) = not (zero_int z)
truthy (float z k) = not (zero_int z)
truthy (str s) = not (s == "")
truthy (list nil) = false
truthy (list (cons _ _)) = true
truthy (dict end) = false
truthy (dict (field _ _ _)) = true

-- v == n, for a number n; a Boolean is a number in Python
abbrev pub eq_ℕ : ℕ → Json → Bool
eq_ℕ n (bool true) = n =? 1
eq_ℕ n (bool false) = n =? 0
eq_ℕ n (int (pos m)) = m =? n
eq_ℕ n (float (pos m) k) = m =? (n * 2 ^ k)
eq_ℕ n _ = false

-- v == s, for a text s
abbrev pub eq_str : String → Json → Bool
eq_str s (str t) = t == s
eq_str s _ = false

-- isinstance(v, str) and so on
abbrev pub is_str : Json → Bool
is_str (str s) = true
is_str _ = false

abbrev pub as_dict : Json → Option Fields
as_dict (dict fs) = some fs
as_dict _ = none

abbrev pub as_list : Json → Option Items
as_list (list xs) = some xs
as_list _ = none

-- The entries of a value that the code reads by `.get`, where no dict is the empty one.
abbrev pub dict_or_empty : Json → Fields
dict_or_empty (dict fs) = fs
dict_or_empty _ = end
