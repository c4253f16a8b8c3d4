-- ===== src/Hpack/Huffman.antt =====
-- The Huffman decoder of core/controller/c/containerd/h2c.c (huff_build, huff_decode). The table of
-- codes is generated (core/controller/c/containerd/h2c_huff.inc), and a parameter here.
use strimserver.Prelude.{
  ℕ, zero, suc, ◌+◌, ◌/◌, ◌%◌, ◌^◌, Bool, true, false, not, ◌&&◌, ◌||◌, Option, none, some, List,
  [], ◌∷◌, ◌++◌, ◌>>=◌, ltb, leb, ◌==◌, if◌then◌else◌, length, get_elem?, set,
}

pub record HuffCode : Type 0 where
  pub code : ℕ
  pub bits : ℕ

-- huff_node; -1 is `none`.
pub record HuffNode : Type 0 where
  pub child0 : Option ℕ
  pub child1 : Option ℕ
  pub sym : Option ℕ

-- H2C_HUFF_NODES
abbrev pub huff_nodes_max : ℕ
huff_nodes_max = 1024

abbrev pub empty_node : HuffNode
empty_node = record { child0 = none; child1 = none; sym = none }

abbrev pub child : HuffNode → (bit : ℕ) → Option ℕ
child node bit = if bit == 0 then node.child0 else node.child1

abbrev pub with_child : HuffNode → (bit next : ℕ) → HuffNode
with_child node bit next =
    if bit == 0 then record node { child0 = some next } else record node { child1 = some next }

-- One bit of a code: the node below, made if there is none.
unfoldable pub grow_into :
    List HuffNode → (at bit : ℕ) → HuffNode → Option ℕ → Option (List HuffNode × ℕ)
grow_into nodes at bit node (some next) = some (nodes, next)
grow_into nodes at bit node none =
    if leb huff_nodes_max (length nodes)
    then none
    else some (set nodes at (with_child node bit (length nodes)) ++ empty_node ∷ [], length nodes)

unfoldable pub grow : List HuffNode → (at bit : ℕ) → Option (List HuffNode × ℕ)
unfolding grow_into
grow nodes at bit = get_elem? nodes at >>= (λ node. grow_into nodes at bit node (child node bit))

-- The loop over the bits of a code, the highest first.
unfoldable pub add_bits : (code left : ℕ) → List HuffNode → (at : ℕ) → Option (List HuffNode × ℕ)
unfolding grow
add_bits code zero nodes at = some (nodes, at)
add_bits code (suc left) nodes at =
    grow nodes at (code / 2 ^ left % 2) >>= (λ grown. add_bits code left grown.0 grown.1)

unfoldable pub add_symbol : List HuffNode → HuffCode → (i : ℕ) → Option (List HuffNode)
unfolding add_bits
add_symbol nodes entry i = add_bits entry.code entry.bits nodes 0 >>= (λ grown.
    get_elem? grown.0 grown.1
    >>= (λ node. some (set grown.0 grown.1 (record node { sym = some i }))))

unfoldable pub add_symbols : List HuffNode → List HuffCode → (i : ℕ) → Option (List HuffNode)
unfolding add_symbol
add_symbols nodes [] i = some nodes
add_symbols nodes (entry ∷ codes) i =
    add_symbol nodes entry i >>= (λ grown. add_symbols grown codes (suc i))

-- `none`: the trie has more nodes than the array (g_huff_built is 2).
unfoldable pub huff_build : List HuffCode → Option (List HuffNode)
unfolding add_symbols
huff_build codes = add_symbols (empty_node ∷ []) codes 0

-- The locals of huff_decode.
pub record HuffState : Type 0 where
  pub node : ℕ
  pub emitted : List ℕ
  pub pad_ones : Bool
  pub depth : ℕ

unfoldable pub huff_emit :
    (out_cap : ℕ) → HuffState → (next : ℕ) → Option ℕ → (bit : ℕ) → Option HuffState
huff_emit out_cap s next none bit = some (record {
  node = next;
  emitted = s.emitted;
  pad_ones = if bit == 0 then false else s.pad_ones;
  depth = s.depth + 1;
})
huff_emit out_cap s next (some symbol) bit =
    if symbol == 256
    then none
    else if leb out_cap (length s.emitted)
    then none
    else some
        (record { node = 0; emitted = s.emitted ++ symbol % 256 ∷ []; pad_ones = true; depth = 0 })

unfoldable pub huff_bit : List HuffNode → (out_cap : ℕ) → HuffState → (bit : ℕ) → Option HuffState
unfolding huff_emit
huff_bit nodes out_cap s bit =
    get_elem? nodes s.node
    >>= (λ here. child here bit)
    >>= (λ next. get_elem? nodes next >>= (λ there. huff_emit out_cap s next there.sym bit))

-- The bits of a byte, the highest first.
unfoldable pub huff_byte :
    List HuffNode → (out_cap : ℕ) → (left byte : ℕ) → HuffState → Option HuffState
unfolding huff_bit
huff_byte nodes out_cap zero byte s = some s
huff_byte nodes out_cap (suc left) byte s =
    huff_bit nodes out_cap s (byte / 2 ^ left % 2) >>= huff_byte nodes out_cap left byte

unfoldable pub huff_bytes : List HuffNode → (out_cap : ℕ) → List ℕ → HuffState → Option HuffState
unfolding huff_byte
huff_bytes nodes out_cap [] s = some s
huff_bytes nodes out_cap (b ∷ rest) s =
    huff_byte nodes out_cap 8 b s >>= huff_bytes nodes out_cap rest

-- At most seven padding bits, all ones.
unfoldable pub huff_end : HuffState → Option (List ℕ)
huff_end s = if not (s.node == 0) && (not s.pad_ones || ltb 7 s.depth) then none else some s.emitted

unfoldable pub huff_decode : List HuffCode → List ℕ → (out_cap : ℕ) → Option (List ℕ)
unfolding huff_build huff_bytes huff_end
huff_decode codes input out_cap =
    let begin : HuffState = record { node = 0; emitted = []; pad_ones = true; depth = 0 } in
    huff_build codes >>= (λ nodes. huff_bytes nodes out_cap input begin) >>= huff_end
