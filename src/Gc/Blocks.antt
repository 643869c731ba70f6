-- ===== src/Gc/Blocks.antt =====
-- The blocks of memory that a table consists of.
use clht.Prelude.{
  ℕ, zero, suc, ◌+◌, ◌-◌, ◌<◌, ◌≡◌, refl, ◌==◌, ltb, leb, if◌then◌else◌, ◌&&◌, Bool, true, false,
  List, [], ◌∷◌, ◌++◌, length, done, Returns, arith,
}
use clht.LbRes.Bucket.{Chain, last, link, hops}
use clht.LbRes.Table.{Hashtable}
use clht.LbRes.Table.Invariant.{chain_at}
use clht.Gc.{
  Block, overflow, buckets, struct, handle, allocator, free_links, free_bins, blocks_of, gc_free,
  Handle,
}

-- the overflow buckets of the chains from `bin` on
unfoldable pub chain_blocks : ℕ → ℕ → List Chain → List Block
chain_blocks v bin [] = []
chain_blocks v bin (c ∷ cs) = free_links v bin 0 c ++ chain_blocks v (suc bin) cs

unfoldable pub table_blocks : Hashtable → List Block
unfolding chain_blocks
table_blocks t = chain_blocks t.version 0 t.table ++ buckets t.version ∷ struct t.version ∷ []

abbrev pub Sized : Hashtable → Type 0
Sized t = length t.table ≡ t.num_buckets

free_bins-chain_blocks :
    (v bin : ℕ) (cs : List Chain) → free_bins v bin (length cs) cs ≡ done (chain_blocks v bin cs)
unfolding free_bins chain_blocks
free_bins-chain_blocks v bin [] = refl
free_bins-chain_blocks v bin (c ∷ cs) = rw (free_bins-chain_blocks v (suc bin) cs)

pub blocks_of-table_blocks : (t : Hashtable) → Sized t → blocks_of t ≡ done (table_blocks t)
unfolding blocks_of table_blocks
blocks_of-table_blocks t sized = rw (← sized, free_bins-chain_blocks)

same_block : Block → Block → Bool
same_block (overflow v b i) (overflow w c j) = (v == w) && (b == c) && (i == j)
same_block (buckets v) (buckets w) = v == w
same_block (struct v) (struct w) = v == w
same_block handle handle = true
same_block allocator allocator = true
same_block _ _ = false

-- how often a block is in a list
unfoldable pub times : Block → List Block → ℕ
unfolding same_block
times b [] = 0
times b (c ∷ cs) = (if same_block b c then 1 else 0) + times b cs

pub times-append : (b : Block) (xs ys : List Block) → times b (xs ++ ys) ≡ times b xs + times b ys
unfolding times
times-append b [] ys = omega arith
times-append b (x ∷ xs) ys = omega (arith, times-append b xs ys)

-- 1 if index j is that of an overflow bucket of the chain, counted from i on
abbrev linked : ℕ → ℕ → Chain → ℕ
linked i j c = if leb i j && ltb (j - i) (hops c) then 1 else 0

times-free_links :
    (v b q i j : ℕ) (c : Chain)
    → times (overflow v q j) (free_links v b i c) ≡ (if q == b then linked i j c else 0)
unfolding times free_links hops
times-free_links v b q i j (last x) = ground arith
times-free_links v b q i j (link x c) = ground (arith, times-free_links v b q (suc i) j c)

times-chain_blocks_before :
    (v b q j : ℕ) (cs : List Chain) → q < b → times (overflow v q j) (chain_blocks v b cs) ≡ 0
unfolding times chain_blocks
times-chain_blocks_before v b q j [] h = refl
times-chain_blocks_before v b q j (c ∷ cs) h = rw times-append (
    ground (
      arith,
      times-free_links v b q 0 j c,
      times-chain_blocks_before v (suc b) q j cs (omega arith),
    ))

times-chain_blocks :
    (v b m j : ℕ) (cs : List Chain)
    → times (overflow v (b + m) j) (chain_blocks v b cs) ≡ linked 0 j (chain_at cs m)
unfolding times chain_blocks hops
times-chain_blocks v b m j [] = ground arith
times-chain_blocks v b zero j (c ∷ cs) = rw times-append (
    ground (
      arith,
      times-free_links v b (b + 0) 0 j c,
      times-chain_blocks_before v (suc b) (b + 0) j cs (omega arith),
    ))
times-chain_blocks v b (suc m) j (c ∷ cs) =
    let here : suc b + m ≡ b + suc m = omega arith in
    let rest = rw here at (times-chain_blocks v (suc b) m j cs) in
    rw times-append (ground (arith, times-free_links v b (b + suc m) 0 j c, rest))

is_overflow : Block → Bool
is_overflow (overflow v b i) = true
is_overflow _ = false

same_block_other :
    (x : Block) (v b i : ℕ) → is_overflow x ≡ false → same_block x (overflow v b i) ≡ false
unfolding is_overflow same_block
same_block_other (overflow w c j) v b i h = cc
same_block_other (buckets w) v b i h = refl
same_block_other (struct w) v b i h = refl
same_block_other handle v b i h = refl
same_block_other allocator v b i h = refl

times-free_links_other :
    (x : Block) (v b i : ℕ) (c : Chain) → is_overflow x ≡ false → times x (free_links v b i c) ≡ 0
unfolding times free_links
times-free_links_other x v b i (last y) h = refl
times-free_links_other x v b i (link y c) h =
    rw (same_block_other x v b i h) (omega (arith, times-free_links_other x v b (suc i) c h))

times-chain_blocks_other :
    (x : Block) (v b : ℕ) (cs : List Chain)
    → is_overflow x ≡ false
    → times x (chain_blocks v b cs) ≡ 0
unfolding times chain_blocks
times-chain_blocks_other x v b [] h = refl
times-chain_blocks_other x v b (c ∷ cs) h =
    rw times-append
      (omega (arith, times-free_links_other x v b 0 c h, times-chain_blocks_other x v (suc b) cs h))

times_overflow :
    (t : Hashtable) (m j : ℕ)
    → times (overflow t.version m j) (table_blocks t)
      ≡ (if ltb j (hops (chain_at t.table m)) then 1 else 0)
unfolding table_blocks times
times_overflow t m j =
    let zero_add : 0 + m ≡ m = omega arith in
    let here = rw zero_add at (times-chain_blocks t.version 0 m j t.table) in
    rw times-append (ground (arith, here))

times_buckets : (t : Hashtable) → times (buckets t.version) (table_blocks t) ≡ 1
unfolding table_blocks times is_overflow
times_buckets t =
    rw times-append
      (ground (arith, times-chain_blocks_other (buckets t.version) t.version 0 t.table refl))

pub times_struct : (t : Hashtable) → times (struct t.version) (table_blocks t) ≡ 1
unfolding table_blocks times is_overflow
times_struct t =
    rw times-append
      (ground (arith, times-chain_blocks_other (struct t.version) t.version 0 t.table refl))

-- Freeing a table that has as many buckets as it says gives back each of its blocks once: the array,
-- the struct, and the overflow bucket with index j behind bucket m exactly where the chain of that
-- bucket has more than j links.
pub gc_free-once :
    (h : Handle) (t : Hashtable) (m j : ℕ)
    → Sized t
    → Returns (gc_free h t) (λ r.
      (times (overflow t.version m j) r.freed
        ≡ times (overflow t.version m j) h.freed
          + (if ltb j (hops (chain_at t.table m)) then 1 else 0))
      × (times (buckets t.version) r.freed ≡ times (buckets t.version) h.freed + 1)
      × (times (struct t.version) r.freed ≡ times (struct t.version) h.freed + 1))
unfolding gc_free
gc_free-once h t m j sized = rw (blocks_of-table_blocks t sized) (
  _,
  refl,
  (
    rw (times-append, times_overflow),
    rw (times-append, times_buckets),
    rw (times-append, times_struct),
  ),
)
