-- ===== src/Gc/Collect.antt =====
-- Which versions of a table a collection frees.
use clht.Prelude.{
  ℕ, suc, ◌≤◌, ◌≡◌, inl, inr, refl, sym, ap, ◌∙◌, ◌==◌, ltb, leb, if◌then◌else◌, Bool, true, false,
  List, [], ◌∷◌, ◌++◌, length, Returns, arith, Bool-cases, leb→le, eq→==,
}
use mathlib.Core.List.{append-nil}
use mathlib.Core.Path.{subst}
use clht.LbRes.Bucket.{lock_free}
use clht.LbRes.Table.{Hashtable}
use clht.Gc.{
  Block, Handle, min_version_used, Collected, collect_loop, collected, collect_below, collect_cond,
}
use clht.Gc.Blocks.{table_blocks, Sized, blocks_of-table_blocks}
use clht.Gc.Versions.{All, min_version_used_lem}

-- the tables older than a version, and the others
abbrev pub older : ℕ → List Hashtable → List Hashtable
older n [] = []
older n (t ∷ ts) = if ltb t.version n then t ∷ older n ts else older n ts

abbrev pub kept : ℕ → List Hashtable → List Hashtable
kept n [] = []
kept n (t ∷ ts) = if ltb t.version n then kept n ts else t ∷ kept n ts

abbrev pub all_blocks : List Hashtable → List Block
all_blocks [] = []
all_blocks (t ∷ ts) = table_blocks t ++ all_blocks ts

-- versions increase along the chain, from n on
abbrev pub Ascends : ℕ → List Hashtable → Type 0
Ascends n [] = Unit
Ascends n (t ∷ ts) = (n ≤ t.version) × Ascends (suc t.version) ts

-- the chain ends at the current table
abbrev pub EndsAt : Hashtable → List Hashtable → Type 0
EndsAt ht [] = ⊥
EndsAt ht (t ∷ []) = t ≡ ht
EndsAt ht (t ∷ u ∷ ts) = EndsAt ht (u ∷ ts)

-- The versions of a handle are in order.
pub record IsChained (h : Handle) : Type 0 where
  pub ascends : Ascends h.version_min h.chain
  pub ends : EndsAt h.ht h.chain
  pub sized : All Sized h.chain

kept-all :
    (n m : ℕ) (ts : List Hashtable) → Ascends n ts → m ≤ n → (kept m ts ≡ ts) × (older m ts ≡ [])
kept-all n m [] a h = (refl, refl)
kept-all n m (t ∷ ts) a h =
    let rest = kept-all (suc t.version) m ts a.1 (omega (arith, a.0)) in
    let stays : ltb t.version m ≡ false = ground (arith, a.0) in
    rw stays (ap (λ us. t ∷ us) rest.0, rest.1)

-- A correct end of the loop over `chain`.
record Splits (m : ℕ) (ht : Hashtable) (chain : List Hashtable) (r : Collected) : Type 0 where
  rest : r.rest ≡ kept m chain
  num : r.num ≡ length (older m chain)
  blocks : r.blocks ≡ all_blocks (older m chain)
  ends : EndsAt ht r.rest
  from : ℕ
  ascends : Ascends from r.rest
  sized : All Sized r.rest

unsplit :
    (n m : ℕ) (ht : Hashtable) (chain : List Hashtable)
    → EndsAt ht chain
    → Ascends n chain
    → All Sized chain
    → m ≤ n
    → Splits m ht chain (record { num = 0; blocks = []; rest = chain })
unsplit n m ht chain ends ascends sized h =
    let all = kept-all n m chain ascends h in
    record {
      rest = sym all.0;
      num = rw all.1;
      blocks = rw all.1;
      ends = ends;
      from = n;
      ascends = ascends;
      sized = sized;
    }

collect_loop-Splits :
    (n m : ℕ) (ht : Hashtable) (chain : List Hashtable)
    → EndsAt ht chain
    → Ascends n chain
    → All Sized chain
    → m ≤ ht.version
    → Returns (collect_loop m chain) (Splits m ht chain)
unfolding collect_loop
collect_loop-Splits n m ht [] ends ascends sized h = absurd ends
collect_loop-Splits n m ht (t ∷ []) ends ascends sized h =
    let new : m ≤ t.version = rw ends h in
    let stays : ltb t.version m ≡ false = ground arith in
    rw stays (_, refl, unsplit t.version m ht (t ∷ []) ends (omega arith, tt) sized new)
collect_loop-Splits n m ht (t ∷ u ∷ ts) ends ascends sized h = elim (Bool-cases (ltb t.version m)) [
  | inr e ↦ rw e (
    _,
    refl,
    unsplit t.version m ht (t ∷ u ∷ ts) ends (omega arith, ascends.1) sized (ground arith),
  )
  | inl e ↦
      let (r, run, p) =
        collect_loop-Splits (suc t.version) m ht (u ∷ ts) ends ascends.1 sized.1 h in
      rw (e, blocks_of-table_blocks t sized.0, run)
        (
          _,
          refl,
          record {
            rest = rw e p.rest;
            num = rw e (ap suc p.num);
            blocks = rw e (ap (λ bs. table_blocks t ++ bs) p.blocks);
            ends = p.ends;
            from = p.from;
            ascends = p.ascends;
            sized = p.sized;
          },
        )
]

-- A correct end of a collection of the versions below `m`.
pub record Collects (h : Handle) (m : ℕ) (r : ℕ × Handle) : Type 0 where
  pub chain : r.1.chain ≡ kept m h.chain
  pub freed : r.1.freed ≡ h.freed ++ all_blocks (older m h.chain)
  pub counted : r.0 ≡ length (older m h.chain)
  pub current : r.1.ht ≡ h.ht
  pub released : r.1.released ≡ h.released
  pub threads : r.1.version_list ≡ h.version_list
  pub unlocked : r.1.gc_lock ≡ lock_free
  pub chained : IsChained r.1

nothing-Collects :
    (h : Handle) (m l : ℕ)
    → IsChained h
    → m ≤ h.version_min
    → l ≡ lock_free
    → Collects h m (0, record h { gc_lock = l })
nothing-Collects h m l c low free =
    let all = kept-all h.version_min m h.chain c.ascends low in
    record {
      chain = sym all.0;
      freed = rw all.1 (sym (append-nil h.freed));
      counted = rw all.1;
      current = refl;
      released = refl;
      threads = refl;
      unlocked = free;
      chained = record { ascends = c.ascends; ends = c.ends; sized = c.sized };
    }

collected-Collects :
    (h : Handle) (m : ℕ) (r : Collected) (rest : List Hashtable)
    → r.rest ≡ rest
    → Splits m h.ht h.chain r
    → Returns (collected h r rest) (Collects h m)
unfolding collected
collected-Collects h m r [] e p = absurd (subst (EndsAt h.ht) e p.ends)
collected-Collects h m r (cur ∷ ts) e p = (
  _,
  refl,
  record {
    chain = sym e ∙ p.rest;
    freed = ap (λ bs. h.freed ++ bs) p.blocks;
    counted = p.num;
    current = refl;
    released = refl;
    threads = refl;
    unlocked = refl;
    chained = record {
      ascends = (omega arith, (subst (Ascends p.from) e p.ascends).1);
      ends = subst (EndsAt h.ht) e p.ends;
      sized = subst (All Sized) e p.sized;
    };
  },
)

collect_below-Collects :
    (h : Handle) (m : ℕ)
    → IsChained h
    → m ≤ h.ht.version
    → Returns (collect_below h m) (Collects h m)
unfolding collect_below
collect_below-Collects h m c low = elim (Bool-cases (leb m h.version_min)) [
  | inl e ↦ rw e (_, refl, nothing-Collects h m lock_free c (ground arith) refl)
  | inr e ↦
      let (r, run, p) =
        collect_loop-Splits h.version_min m h.ht h.chain c.ends c.ascends c.sized low in
      rw (e, run) (collected-Collects h m r r.rest refl p)
]

-- below which version a collection frees tables
abbrev pub limit : Handle → Bool → ℕ
limit h not_referenced_only = if not_referenced_only then min_version_used h else h.ht.version

limit-le : (h : Handle) (only : Bool) → limit h only ≤ h.ht.version
limit-le h true = (min_version_used_lem h).0
limit-le h false = omega arith

Collects-locked :
    (h : Handle) (m l : ℕ) (r : ℕ × Handle)
    → Collects (record h { gc_lock = l }) m r
    → Collects h m r
Collects-locked h m l r c = record {
  chain = c.chain;
  freed = c.freed;
  counted = c.counted;
  current = c.current;
  released = c.released;
  threads = c.threads;
  unlocked = c.unlocked;
  chained = c.chained;
}

-- A collection returns, on every branch, on a handle whose versions increase along the chain from
-- `ht_oldest` to the current table, whose tables are as long as they say, and whose `gc_lock` is
-- free: it frees each block of the tables whose version is below the least version in use (of
-- `clht_gc_collect_all`: below the current version), keeps the other tables in order and the current
-- one last, counts the tables that it frees, and leaves such a handle again.
pub collect_cond-Collects :
    (h : Handle) (only : Bool)
    → IsChained h
    → h.gc_lock ≡ lock_free
    → Returns (collect_cond h only) (Collects h (limit h only))
unfolding collect_cond
collect_cond-Collects h only c free = elim (Bool-cases (leb h.ht.version h.version_min)) [
  | inl e ↦ rw e (
    _,
    refl,
    nothing-Collects h (limit h only) h.gc_lock c
        (omega (arith, limit-le h only, leb→le h.ht.version h.version_min e)) free,
  )
  | inr e ↦
      let (r, run, p) =
        collect_below-Collects (record h { gc_lock = 0xff }) (limit h only)
          (record { ascends = c.ascends; ends = c.ends; sized = c.sized }) (limit-le h only) in
      let unlocked : (h.gc_lock == lock_free) ≡ true = eq→== h.gc_lock lock_free free in
      rw (e, unlocked, run) (r, refl, Collects-locked h (limit h only) 0xff r p)
]
