-- ===== src/LockIns/Effects.antt =====
-- What one step of a call of `LockIns` means to the bin as a whole and to the other calls.
use mathlib.Core.Path.{subst}
use clht.Prelude.{
  ℕ, ◌≡◌, ◌≢◌, ◌⊎◌, ◌==◌, sym, ap, ◌∙◌, true, false, none, some, length, Bool-cases, inl, inr,
  ==→eq, arith,
}
use clht.LbRes.Bucket.{Block}
use clht.LockIns.{
  key_blck, Bin, key_at, write_key, Remove, look, look_next, block, take_val, clear, removed,
  remove_step, Call, idle, getting, putting, removing, call_step,
}
use clht.LockIns.Local.{IsKey, IsValid, holds_lock, owns, Missing, Knows, Shrinks, Fixed}
use clht.LockIns.Moves.{stays, fills, binds, blocks, clears, call_step-SlotMoves}
use clht.LockIns.Sizes.{call_step-Grows}

-- the slot whose key the next step writes
abbrev written : Call → ℕ
written (putting k v m (write_key p)) = p
written _ = 0

holds-written :
    {t : Call} {k v j : ℕ} {m : Block} → t ≡ putting k v m (write_key j) → holds_lock t ≡ true
holds-written e = ap holds_lock e

module _ (b : Bin) (t : Call) (valid : IsValid b) (x : Knows b t) where
  abbrev after : Bin
  after = (call_step b t).1

  -- a slot with a key had it before, or has just been written
  key_from :
      (j : ℕ)
      → IsKey (key_at after j)
      → (key_at b j ≡ key_at after j) ⊎ (Missing b (key_at after j) × (written t ≡ j))
  key_from j key = elim (call_step-SlotMoves b t j valid x) [
    | stays e f ↦ inl (sym e)
    | fills h e f ↦ absurd (key.0 f)
    | binds e k missing f g v ↦ inr (subst (Missing b) (sym g) missing, ap written e)
    | blocks e k f g v ↦ absurd (key.1 g)
    | clears h e f v ↦ absurd (key.0 f)
  ]

  once_after : (i j : ℕ) → IsKey (key_at after i) → key_at after i ≡ key_at after j → i ≡ j
  once_after i j key same =
      let key' : IsKey (key_at after j) = subst IsKey same key in
      elim (key_from i key) [
        | inl e ↦ elim (key_from j key') [
          | inl f ↦ valid.once i j (subst IsKey (sym e) key) (e ∙ same ∙ sym f)
          | inr f ↦ absurd (f.0 i (e ∙ same))
        ]
        | inr e ↦ elim (key_from j key') [
          | inl f ↦ absurd (e.0 j (f ∙ sym same))
          | inr f ↦ sym e.1 ∙ f.1
        ]
      ]

  -- A step keeps the keys apart and the buckets whole.
  pub call_step-IsValid : IsValid after
  call_step-IsValid =
      let g = call_step-Grows b t in
      elim g.key [
        | inl e ↦ record {
          once = once_after;
          whole = omega (arith, e, valid.whole);
          some_bucket = omega (arith, e, valid.some_bucket);
          paired = omega (arith, e, g.val, valid.paired);
        }
        | inr (h, e) ↦ record {
          once = once_after;
          whole = omega (arith, e, valid.whole);
          some_bucket = omega (arith, e);
          paired = omega (arith, e, g.val, valid.paired);
        }
      ]

  module _ (unheld : holds_lock t ≡ false) where
    size_kept : length after.key ≡ length b.key
    size_kept = elim (call_step-Grows b t).key [ inl e ↦ e | inr (h, e) ↦ absurd (ground arith) ]

    -- A call that does not hold the lock takes keys away, if it does anything.
    pub call_step-Shrinks : Shrinks b after
    call_step-Shrinks = record {
      length_key = size_kept;
      keeps = λ k j key ne. elim (call_step-SlotMoves b t j valid x) [
        | stays e f ↦ λ h. ne (sym e ∙ h)
        | fills h e f ↦ absurd (ground arith)
        | binds e n missing f g v ↦ let h = holds-written e in absurd (ground arith)
        | blocks e n f g v ↦ λ h. key.1 (sym h ∙ g)
        | clears o e f v ↦ λ h. key.0 (sym h ∙ f)
      ];
      free = λ j z. elim (call_step-SlotMoves b t j valid x) [
        | stays e f ↦ e ∙ z
        | fills h e f ↦ f
        | binds e n missing f g v ↦ let h = holds-written e in absurd (ground arith)
        | blocks e n f g v ↦ absurd (n.0 (sym f ∙ z))
        | clears o e f v ↦ f
      ];
      val = λ j z. elim (call_step-SlotMoves b t j valid x) [
        | stays e f ↦ f
        | fills h e f ↦ absurd (ground arith)
        | binds e n missing f g v ↦ let h = holds-written e in absurd (ground arith)
        | blocks e n f g v ↦ v
        | clears o e f v ↦ v
      ];
    }

  -- A blocked slot is left alone by every call but the one that blocked it.
  pub call_step-Fixed : (i : ℕ) → key_at b i ≡ key_blck → owns t ≢ some i → Fixed b after i
  call_step-Fixed i blocked other = elim (call_step-SlotMoves b t i valid x) [
    | stays e f ↦ record { key = e; val = f }
    | fills h e f ↦ absurd (omega (arith, e, blocked))
    | binds e n missing f g v ↦ absurd (omega (arith, f, blocked))
    | blocks e n f g v ↦ absurd (n.1 (sym f ∙ blocked))
    | clears o e f v ↦ absurd (other o)
  ]

remove_step-owns :
    (k : ℕ) (b : Bin) (p : Remove) (i : ℕ)
    → IsKey k
    → owns (removing k (remove_step k b p).0) ≡ some i
    → (owns (removing k p) ≡ some i) ⊎ (key_at b i ≢ key_blck)
unfolding remove_step
remove_step-owns k b (look j) i key h = absurd (ground arith)
remove_step-owns k b (look_next j) i key h = absurd (ground arith)
remove_step-owns k b (block j) i key h = elim (Bool-cases (key_at b j == k)) [
  | inl e ↦
      let found = ==→eq (key_at b j) k e in
      let here : some j ≡ some i = rw e at h in
      let same : j ≡ i = ap (λ o. elim o [ some n ↦ n | none ↦ j ]) here in
      inr (λ z. key.1 (sym found ∙ ap (key_at b) same ∙ z))
  | inr e ↦ let nothing : none ≡ some i = rw e at h in absurd (ground arith)
]
remove_step-owns k b (take_val j) i key h = inl h
remove_step-owns k b (clear j v) i key h = absurd (ground arith)
remove_step-owns k b (removed v) i key h = absurd (ground arith)

-- A slot that a call comes to own was not blocked.
pub call_step-owns :
    (b : Bin) (t : Call) (i : ℕ)
    → Knows b t
    → owns (call_step b t).0 ≡ some i
    → (owns t ≡ some i) ⊎ (key_at b i ≢ key_blck)
unfolding call_step Knows
call_step-owns b idle i x h = absurd (ground arith)
call_step-owns b (getting k p) i x h = absurd (ground arith)
call_step-owns b (putting k v m p) i x h = absurd (ground arith)
call_step-owns b (removing k p) i x h = remove_step-owns k b p i x.0 h
