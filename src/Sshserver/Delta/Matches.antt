-- ===== src/Sshserver/Delta/Matches.antt =====
-- delta.go: what matchLength and findMatch report.
use kai_server.Common.{
  ℕ, zero, suc, ◌+◌, ◌-◌, ◌≤◌, ◌<◌, ◌≡◌, refl, sym, ◌∙◌, arith, Option, none, some, List, length,
  length-drop, get_or, get_or-drop, take, drop, take-suc, ltb, ◌==◌, ==_iff, if◌then◌else◌,
  Bool-cases, bit_and, inl, inr,
}
use kai_server.Common.Bytes.{Bytes}
use native.Mathlib.Numerals.{add-one}
use kai_server.Sshserver.Delta.Index.{
  DeltaIndex, min_match_size, match_loop, match_length, chain_loop, search_table, find_match,
  block_size, max_chain_length, hash_block,
}

-- The `len` bytes at `src_off` in the source are those at `tgt_off` in the target.
pub record IsMatch (src tgt : Bytes) (src_off tgt_off len : ℕ) : Type 0 where
  pub in_src : src_off + len ≤ length src
  pub in_tgt : tgt_off + len ≤ length tgt
  pub same : take len (drop src_off src) ≡ take len (drop tgt_off tgt)

module _ (src : Bytes) (src_off : ℕ) (tgt : Bytes) (tgt_off : ℕ) where
  -- One more equal byte makes the common part longer.
  one_more :
      (len : ℕ)
      → len < length src - src_off
      → len < length tgt - tgt_off
      → take len (drop src_off src) ≡ take len (drop tgt_off tgt)
      → get_or src (src_off + len) 0 ≡ get_or tgt (tgt_off + len) 0
      → take (suc len) (drop src_off src) ≡ take (suc len) (drop tgt_off tgt)
  one_more len in_src in_tgt same eq =
      take-suc len (drop src_off src) 0 (omega (arith, length-drop src_off src))
      ∙ cc (same, eq, get_or-drop src_off len src 0, get_or-drop tgt_off len tgt 0)
      ∙ sym (take-suc len (drop tgt_off tgt) 0 (omega (arith, length-drop tgt_off tgt)))

  match_loop_lem :
      (rounds len : ℕ)
      → rounds + len ≤ length src - src_off
      → rounds + len ≤ length tgt - tgt_off
      → take len (drop src_off src) ≡ take len (drop tgt_off tgt)
      → (r : ℕ) → match_loop rounds src src_off tgt tgt_off len ≡ r
      → (r ≤ length src - src_off)
        × (r ≤ length tgt - tgt_off)
        × (take r (drop src_off src) ≡ take r (drop tgt_off tgt))
  unfolding match_loop
  match_loop_lem zero len hs ht same r e = ground arith
  match_loop_lem (suc rounds) len hs ht same r e =
      elim (Bool-cases (get_or src (src_off + len) 0 == get_or tgt (tgt_off + len) 0)) [
        | inl eq ↦
            match_loop_lem rounds (len + 1) (omega arith) (omega arith)
              (rw add-one (one_more len (omega arith) (omega arith) same ((==_iff _ _).0 eq))) r
              (rw eq at e)
        | inr ne ↦ ground arith
      ]

  match_length-IsMatch :
      (len : ℕ)
      → match_length src src_off tgt tgt_off ≡ len
      → 0 < len
      → IsMatch src tgt src_off tgt_off len
  unfolding match_length
  match_length-IsMatch len e pos =
      let rounds : ℕ =
        if ltb (length tgt - tgt_off) (length src - src_off)
        then length tgt - tgt_off
        else length src - src_off in
      let (in_src, in_tgt, same) =
        match_loop_lem rounds 0 (ground arith) (ground arith) refl len e in
      record { in_src = omega arith; in_tgt = omega arith; same = same }

-- (-1, 0), or a match.
abbrev pub IsReport : Bytes → Bytes → ℕ → Option ℕ × ℕ → Type 0
IsReport src tgt tgt_off (none, len) = len ≡ 0
IsReport src tgt tgt_off (some off, len) = IsMatch src tgt off tgt_off len

module _ (idx : DeltaIndex) (tgt : Bytes) (tgt_off : ℕ) where
  better-IsReport :
      (src_off : ℕ) (best_off : Option ℕ) (best_len : ℕ)
      → IsReport idx.src tgt tgt_off (best_off, best_len)
      → IsReport idx.src tgt tgt_off (
          if ltb best_len (match_length idx.src src_off tgt tgt_off)
          then (some src_off, match_length idx.src src_off tgt tgt_off)
          else (best_off, best_len))
  better-IsReport src_off best_off best_len h =
      elim (Bool-cases (ltb best_len (match_length idx.src src_off tgt tgt_off))) [
        | inl longer ↦
            rw longer (match_length-IsMatch idx.src src_off tgt tgt_off _ refl (ground arith))
        | inr no_longer ↦ rw no_longer h
      ]

  chain_loop-IsReport :
      (rounds : ℕ) (src_off : Option ℕ) (best : Option ℕ × ℕ)
      → IsReport idx.src tgt tgt_off best
      → IsReport idx.src tgt tgt_off (chain_loop rounds idx tgt tgt_off src_off best)
  unfolding chain_loop
  chain_loop-IsReport zero src_off best h = h
  chain_loop-IsReport (suc rounds) none best h = h
  chain_loop-IsReport (suc rounds) (some src_off) (best_off, best_len) h =
      chain_loop-IsReport rounds (get_or idx.next src_off none)
        (if ltb best_len (match_length idx.src src_off tgt tgt_off)
          then (some src_off, match_length idx.src src_off tgt tgt_off)
          else (best_off, best_len))
        (better-IsReport src_off best_off best_len h)

  long_enough-IsReport :
      (best : Option ℕ × ℕ)
      → IsReport idx.src tgt tgt_off best
      → IsReport idx.src tgt tgt_off
          (if ltb best.1 min_match_size then (none, 0) else (best.0, best.1))
  long_enough-IsReport best h = elim (Bool-cases (ltb best.1 min_match_size)) [
    | inl short ↦ rw short refl
    | inr long ↦ rw long h
  ]

  search_table-IsReport :
      (table : List (Option ℕ)) → IsReport idx.src tgt tgt_off (search_table table idx tgt tgt_off)
  unfolding search_table
  search_table-IsReport table = elim (Bool-cases (ltb (length tgt) (tgt_off + block_size))) [
    | inl near_end ↦ rw near_end refl
    | inr inside ↦ rw inside (
        long_enough-IsReport
          (chain_loop max_chain_length idx tgt tgt_off
            (get_or table (bit_and (hash_block (drop tgt_off tgt)) idx.mask) none) (none, 0))
          (chain_loop-IsReport max_chain_length
            (get_or table (bit_and (hash_block (drop tgt_off tgt)) idx.mask) none) (none, 0) refl))
  ]

-- findMatch reports no match as (-1, 0), and else a place where source and target agree.
pub find_match-IsReport :
    (idx : DeltaIndex) (tgt : Bytes) (tgt_off : ℕ)
    → IsReport idx.src tgt tgt_off (find_match idx tgt tgt_off)
unfolding find_match
find_match-IsReport idx tgt tgt_off = at_table idx.table
  where
    at_table :
        (table : Option (List (Option ℕ)))
        → IsReport idx.src tgt tgt_off
            (elim table [ none ↦ (none, 0) | some t ↦ search_table t idx tgt tgt_off ])
    at_table none = refl
    at_table (some table) = search_table-IsReport idx tgt tgt_off table
