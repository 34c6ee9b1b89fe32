-- ===== src/Sshserver/Delta/Index.antt =====
-- kailab/sshserver/delta.go, deltaIndex: the hash index of a source and the search for a match. Bytes
-- and Go's int are numbers; an int that may wrap is its bit pattern, below 2 ^ 64. A table entry of -1
-- is `none`.
use kai_server.Common.{
  ℕ, zero, suc, ◌+◌, ◌-◌, ◌*◌, ◌/◌, ◌%◌, ◌^◌, bit_and, Option, none, some, List, [], ◌∷◌, ltb, ◌==◌,
  if◌then◌else◌, length, get_or, set, replicate, drop,
}
use kai_server.Common.Bytes.{Bytes}

abbrev pub min_match_size : ℕ
min_match_size = 4

abbrev pub block_size : ℕ
block_size = 16

abbrev pub max_chain_length : ℕ
max_chain_length = 64

-- `table` is nil for a source shorter than a block.
pub record DeltaIndex : Type 0 where
  pub src : Bytes
  pub table : Option (List (Option ℕ))
  pub next : List (Option ℕ)
  pub mask : ℕ

-- the loop of hashBlock; `rounds` is what is left of the block
unfoldable pub hash_loop : ℕ → Bytes → ℕ → ℕ
hash_loop zero bytes h = h
hash_loop (suc rounds) [] h = h
hash_loop (suc rounds) (b ∷ bytes) h = hash_loop rounds bytes ((h * 31 + b) % 2 ^ 64)

unfoldable pub hash_block : Bytes → ℕ
unfolding hash_loop
hash_block bytes = bit_and (hash_loop block_size bytes 0) 0x7fff_ffff

-- for tableSize < len(src)/blockSize { tableSize <<= 1 }
unfoldable pub table_size_loop : ℕ → ℕ → ℕ → ℕ
table_size_loop zero blocks size = size
table_size_loop (suc fuel) blocks size =
    let rest = table_size_loop fuel blocks (size * 2) in if ltb size blocks then rest else size

-- `blocks` doublings reach any number of blocks.
unfoldable pub table_size : ℕ → ℕ
unfolding table_size_loop
table_size blocks = let size = table_size_loop blocks blocks 1 in if ltb size 256 then 256 else size

-- one round of the loop that builds the index, at offset `i`
abbrev pub index_block :
    ℕ → Bytes → List (Option ℕ) × List (Option ℕ) → ℕ → List (Option ℕ) × List (Option ℕ)
index_block mask src (table, next) i =
    let slot = bit_and (hash_block (drop i src)) mask in
    (set table slot (some i), set next i (get_or table slot none))

unfoldable pub index_loop :
    ℕ → ℕ → Bytes → List (Option ℕ) × List (Option ℕ) → ℕ → List (Option ℕ) × List (Option ℕ)
index_loop zero mask src tables i = tables
index_loop (suc rounds) mask src tables i =
    index_loop rounds mask src (index_block mask src tables i) (i + 1)

unfoldable pub new_delta_index : Bytes → DeltaIndex
unfolding index_loop
new_delta_index src =
    if ltb (length src) block_size
    then record { src = src; table = none; next = []; mask = 0 }
    else let size = table_size (length src / block_size) in
      let offsets = length src - block_size + 1 in
      let (table, next) =
        index_loop offsets (size - 1) src (replicate size none, replicate offsets none) 0 in
      record { src = src; table = some table; next = next; mask = size - 1 }

-- the loop of matchLength: `rounds` is maxLen - length
unfoldable pub match_loop : ℕ → Bytes → ℕ → Bytes → ℕ → ℕ → ℕ
match_loop zero src src_off tgt tgt_off len = len
match_loop (suc rounds) src src_off tgt tgt_off len =
    let more = match_loop rounds src src_off tgt tgt_off (len + 1) in
    if get_or src (src_off + len) 0 == get_or tgt (tgt_off + len) 0 then more else len

-- A negative maxLen runs no round, like 0.
unfoldable pub match_length : Bytes → ℕ → Bytes → ℕ → ℕ
unfolding match_loop
match_length src src_off tgt tgt_off =
    let src_left = length src - src_off in
    let tgt_left = length tgt - tgt_off in
    match_loop (if ltb tgt_left src_left then tgt_left else src_left) src src_off tgt tgt_off 0

-- the loop of findMatch over one chain: `rounds` is maxChainLength - chainLen
unfoldable pub chain_loop : ℕ → DeltaIndex → Bytes → ℕ → Option ℕ → Option ℕ × ℕ → Option ℕ × ℕ
chain_loop zero idx tgt tgt_off src_off best = best
chain_loop (suc rounds) idx tgt tgt_off none best = best
chain_loop (suc rounds) idx tgt tgt_off (some src_off) (best_off, best_len) =
    let len = match_length idx.src src_off tgt tgt_off in
    let better = if ltb best_len len then (some src_off, len) else (best_off, best_len) in
    chain_loop rounds idx tgt tgt_off (get_or idx.next src_off none) better

-- (-1, 0) for no match is (none, 0)
unfoldable pub search_table : List (Option ℕ) → DeltaIndex → Bytes → ℕ → Option ℕ × ℕ
search_table table idx tgt tgt_off =
    if ltb (length tgt) (tgt_off + block_size)
    then (none, 0)
    else let slot = bit_and (hash_block (drop tgt_off tgt)) idx.mask in
      let (off, len) =
        chain_loop max_chain_length idx tgt tgt_off (get_or table slot none) (none, 0) in
      if ltb len min_match_size then (none, 0) else (off, len)

unfoldable pub find_match : DeltaIndex → Bytes → ℕ → Option ℕ × ℕ
unfolding search_table
find_match idx tgt tgt_off = elim idx.table [
  | none ↦ (none, 0)
  | some table ↦ search_table table idx tgt tgt_off
]
