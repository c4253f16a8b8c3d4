-- ===== src/Hpack/Bounds.antt =====
-- The bounds of the dynamic table, whatever is added to it.
use strimserver.Prelude.{
  ℕ, ◌+◌, ◌-◌, ◌≤◌, ◌<◌, ◌≡◌, refl, Bool, true, ◌||◌, List, [], ◌∷◌, ◌++◌, arith, ltb, leb, if_both,
  if_split, length, length-append, All, All-append,
}
use strimserver.Hpack.Table.{
  DynEntry, Dyn, dyn_max_entries, shrink, dyn_set_max, make_room, add_entry, dyn_add, dyn_reset,
}

-- The sum of the sizes.
abbrev pub total : List DynEntry → ℕ
total [] = 0
total (e ∷ rest) = e.size + total rest

-- The size of an entry as RFC 7541 counts it.
abbrev pub IsSized : DynEntry → Type 0
IsSized e = e.size ≡ length e.name + length e.value + 32

pub record IsTable (dyn : Dyn) : Type 0 where
  pub summed : dyn.size ≡ total dyn.entries
  pub fits : dyn.size ≤ dyn.max_size
  pub few : length dyn.entries ≤ dyn_max_entries
  pub sized : All IsSized dyn.entries
  pub capped : dyn.max_size ≤ 4096

shrink-IsTable :
    (entries : List DynEntry) (size max_size : ℕ)
    → size ≡ total entries
    → length entries ≤ dyn_max_entries
    → All IsSized entries
    → max_size ≤ 4096
    → IsTable (shrink entries size max_size)
unfolding shrink
shrink-IsTable [] size max_size summed few sized capped = record {
  summed = summed;
  fits = omega (arith, summed);
  few = few;
  sized = sized;
  capped = capped;
}
shrink-IsTable (e ∷ rest) size max_size summed few sized capped =
    if_split IsTable (ltb max_size size) _ _
      (λ _.
        shrink-IsTable rest (size - e.size) max_size (omega (arith, summed)) (omega (arith, few))
          sized.1 capped)
      (λ enough. record {
        summed = summed;
        fits = ground (arith, enough);
        few = few;
        sized = sized;
        capped = capped;
      })

pub dyn_set_max-IsTable :
    (dyn : Dyn) (max_size : ℕ) → IsTable dyn → max_size ≤ 4096 → IsTable (dyn_set_max dyn max_size)
unfolding dyn_set_max
dyn_set_max-IsTable dyn max_size t capped =
    shrink-IsTable dyn.entries dyn.size max_size t.summed t.few t.sized capped

-- A table with room for one more entry of the size.
record IsRoomy (max_size entry_size : ℕ) (r : Dyn × Bool) : Type 0 where
  pub roomy : r.1 ≡ true
  pub table : IsTable r.0
  pub kept : r.0.max_size ≡ max_size
  pub room : r.0.size + entry_size ≤ max_size
  pub fewer : length r.0.entries < dyn_max_entries

make_room-IsRoomy :
    (entries : List DynEntry) (size max_size entry_size : ℕ)
    → size ≡ total entries
    → length entries ≤ dyn_max_entries
    → All IsSized entries
    → max_size ≤ 4096
    → entry_size ≤ max_size
    → IsRoomy max_size entry_size (make_room entries size max_size entry_size)
unfolding make_room
make_room-IsRoomy [] size max_size entry_size summed few sized capped small = record {
  roomy = ground (arith, summed);
  table = record {
    summed = summed;
    fits = omega (arith, summed);
    few = few;
    sized = sized;
    capped = capped;
  };
  kept = refl;
  room = omega (arith, summed);
  fewer = omega arith;
}
make_room-IsRoomy (e ∷ rest) size max_size entry_size summed few sized capped small =
    if_split (IsRoomy max_size entry_size)
      (ltb max_size (size + entry_size) || leb dyn_max_entries (length (e ∷ rest))) _ _
      (λ _.
        make_room-IsRoomy rest (size - e.size) max_size entry_size (omega (arith, summed))
          (omega (arith, few)) sized.1 capped small)
      (λ enough. record {
        roomy = refl;
        table = record {
          summed = summed;
          fits = ground (arith, enough);
          few = few;
          sized = sized;
          capped = capped;
        };
        kept = refl;
        room = ground (arith, enough);
        fewer = ground (arith, enough);
      })

total-append : (es fs : List DynEntry) → total (es ++ fs) ≡ total es + total fs
total-append [] fs = omega arith
total-append (e ∷ es) fs = omega (arith, total-append es fs)

add_entry-IsTable :
    (ok : Bool) (max_size : ℕ) (r : Dyn × Bool) (e : DynEntry)
    → IsRoomy max_size e.size r
    → IsSized e
    → IsTable (add_entry ok r.0 e)
unfolding add_entry
add_entry-IsTable ok max_size r e room sized =
    if_both IsTable ok _ _
      (record {
        summed = omega (arith, total-append r.0.entries (e ∷ []), room.table.summed);
        fits = omega (arith, room.room, room.kept);
        few = omega (arith, length-append r.0.entries (e ∷ []), room.fewer);
        sized = All-append IsSized r.0.entries (e ∷ []) room.table.sized (sized, tt);
        capped = room.table.capped;
      })
      room.table

pub dyn_add-IsTable :
    (alloc : Bool) (dyn : Dyn) (name value : List ℕ)
    → IsTable dyn
    → IsTable (dyn_add alloc dyn name value)
unfolding dyn_add
dyn_add-IsTable alloc dyn name value t =
    if_split IsTable (ltb dyn.max_size (length name + length value + 32)) _ _ (λ _. t)
      (λ small.
        let room =
          make_room-IsRoomy dyn.entries dyn.size dyn.max_size (length name + length value + 32)
            t.summed t.few t.sized t.capped (ground (arith, small)) in
        add_entry-IsTable _ dyn.max_size _ _ room refl)

pub dyn_reset-IsTable : (dyn : Dyn) → IsTable (dyn_reset dyn)
unfolding dyn_reset
dyn_reset-IsTable dyn = record {
  summed = refl;
  fits = omega arith;
  few = omega arith;
  sized = tt;
  capped = omega arith;
}
