-- ===== src/Lf/Snapshot.antt =====
-- `clht_snapshot_t` of include/clht_lf.h: the word of a bucket that says which slots are in use.
-- Its bytes after the map are copied with it and never read; they are left out.
pub mod Laws
use clht.Prelude.{
  ℕ, zero, suc, ◌+◌, ◌%◌, ◌^◌, ◌==◌, if◌then◌else◌, Bool, true, false, ◌&&◌, Option, none, some,
  List, [], ◌∷◌, set, get_or,
}

abbrev pub map_invld : ℕ
map_invld = 0

abbrev pub map_valid : ℕ
map_valid = 1

abbrev pub map_insrt : ℕ
map_insrt = 2

abbrev pub key_buckt : ℕ
key_buckt = 3

pub record Snapshot : Type 0 where
  pub version : ℕ  -- uint32_t
  pub map : List ℕ

-- `map[i]`; past the end, where no read of the code goes, a number that stands for no state
abbrev pub map_at : List ℕ → ℕ → ℕ
map_at map i = get_or map i 3

-- the loop of `snap_get_empty_index`, from slot i on
empty_index : ℕ → List ℕ → Option ℕ
empty_index i [] = none
empty_index i (m ∷ ms) = if m == map_invld then some i else empty_index (suc i) ms

-- `none` is -1
unfoldable pub snap_get_empty_index : Snapshot → Option ℕ
unfolding empty_index
snap_get_empty_index s = empty_index 0 s.map

abbrev pub snap_set_map : Snapshot → ℕ → ℕ → Snapshot
snap_set_map s index val = record s { map = set s.map index val }

abbrev pub snap_set_map_and_inc_version : Snapshot → ℕ → ℕ → Snapshot
snap_set_map_and_inc_version s index val = record {
  version = (s.version + 1) % 2 ^ 32;
  map = set s.map index val;
}

same_map : List ℕ → List ℕ → Bool
same_map [] [] = true
same_map [] (n ∷ ns) = false
same_map (m ∷ ms) [] = false
same_map (m ∷ ms) (n ∷ ns) = (m == n) && same_map ms ns

-- whether two words are equal
unfoldable pub same : Snapshot → Snapshot → Bool
unfolding same_map
same s t = (s.version == t.version) && same_map s.map t.map
