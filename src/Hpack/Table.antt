-- ===== src/Hpack/Table.antt =====
-- The dynamic table of core/controller/c/containerd/h2c.c (struct hpack_dyn, dyn_*). `alloc` is
-- whether both malloc calls of dyn_add succeed.
use strimserver.Prelude.{
  ℕ, zero, suc, ◌+◌, ◌-◌, Bool, true, false, ◌&&◌, ◌||◌, Option, none, some, List, [], ◌∷◌, ◌++◌,
  ltb, leb, ◌==◌, if◌then◌else◌, length, get_elem?,
}

-- memcmp over two texts of the same length
abbrev pub same_bytes : List ℕ → List ℕ → Bool
same_bytes [] [] = true
same_bytes [] (y ∷ ys) = false
same_bytes (x ∷ xs) [] = false
same_bytes (x ∷ xs) (y ∷ ys) = let later = same_bytes xs ys in if x == y then later else false

-- hpack_dyn_entry
pub record DynEntry : Type 0 where
  pub name : List ℕ
  pub value : List ℕ
  pub size : ℕ

-- hpack_dyn: the oldest entry stands first, and `count` is the length.
pub record Dyn : Type 0 where
  pub entries : List DynEntry
  pub size : ℕ
  pub max_size : ℕ

-- H2C_DYN_MAX_ENTRIES
abbrev pub dyn_max_entries : ℕ
dyn_max_entries = 128

unfoldable pub dyn_reset : Dyn → Dyn
dyn_reset dyn = record { entries = []; size = 0; max_size = 4096 }

unfoldable pub dyn_get : Dyn → (index : ℕ) → Option DynEntry
dyn_get dyn index =
    if (index == 0) || ltb (length dyn.entries) index
    then none
    else get_elem? dyn.entries (length dyn.entries - index)

unfoldable pub dyn_evict_one : Dyn → Dyn
dyn_evict_one dyn = elim dyn.entries [
  | [] ↦ dyn
  | e ∷ rest ↦ record dyn { entries = rest; size = dyn.size - e.size }
]

-- `while (dyn->size > dyn->max_size && dyn->count > 0)`, over the entries.
unfoldable pub shrink : List DynEntry → (size max_size : ℕ) → Dyn
shrink [] size max_size = record { entries = []; size = size; max_size = max_size }
shrink (e ∷ rest) size max_size =
    let later = shrink rest (size - e.size) max_size in
    if ltb max_size size
    then later
    else record { entries = e ∷ rest; size = size; max_size = max_size }

unfoldable pub dyn_set_max : Dyn → ℕ → Dyn
unfolding shrink
dyn_set_max dyn max_size = shrink dyn.entries dyn.size max_size

-- The evictions of dyn_add, and whether there is room then.
unfoldable pub make_room : List DynEntry → (size max_size entry_size : ℕ) → Dyn × Bool
make_room [] size max_size entry_size =
    (record { entries = []; size = size; max_size = max_size }, leb (size + entry_size) max_size)
make_room (e ∷ rest) size max_size entry_size =
    let later = make_room rest (size - e.size) max_size entry_size in
    if ltb max_size (size + entry_size) || leb dyn_max_entries (length (e ∷ rest))
    then later
    else (record { entries = e ∷ rest; size = size; max_size = max_size }, true)

unfoldable pub add_entry : Bool → Dyn → DynEntry → Dyn
add_entry alloc dyn e =
    if alloc then record dyn { entries = dyn.entries ++ e ∷ []; size = dyn.size + e.size } else dyn

unfoldable pub dyn_add : (alloc : Bool) → Dyn → (name value : List ℕ) → Dyn
unfolding make_room add_entry
dyn_add alloc dyn name value =
    let entry_size = length name + length value + 32 in
    let e : DynEntry = record { name = name; value = value; size = entry_size } in
    let roomy = make_room dyn.entries dyn.size dyn.max_size entry_size in
    if ltb dyn.max_size entry_size then dyn else add_entry (alloc && roomy.1) roomy.0 e

-- The loop `for (i = 1; i <= dyn->count; i++)` with `left` rounds to go; 0 is not found.
unfoldable pub dyn_find_from : (DynEntry → Bool) → Dyn → (left i : ℕ) → ℕ
dyn_find_from test dyn zero i = 0
dyn_find_from test dyn (suc left) i =
    let later = dyn_find_from test dyn left (suc i) in
    elim (dyn_get dyn i) [ none ↦ 0 | some e ↦ if test e then i else later ]

unfoldable pub dyn_find_pair : Dyn → (name value : List ℕ) → ℕ
unfolding dyn_find_from
dyn_find_pair dyn name value =
    dyn_find_from (λ e. same_bytes e.name name && same_bytes e.value value) dyn (length dyn.entries)
      1

unfoldable pub dyn_find_name : Dyn → (name : List ℕ) → ℕ
unfolding dyn_find_from
dyn_find_name dyn name = dyn_find_from (λ e. same_bytes e.name name) dyn (length dyn.entries) 1
