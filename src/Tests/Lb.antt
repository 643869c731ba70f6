-- ===== src/Tests/Lb.antt =====
-- `clht_lb`: the theorems at a table of two buckets.
use clht.Prelude.{◌≡◌, refl, true, some, done, ◌>>=◌, Returns, arith}
use clht.LbRes.Table
use clht.LbRes.Table.{Memory, new_table, hashtable_create}
use clht.LbRes.Table.Create.{new_table-IsNew}
use clht.Lb.{Hashtable, empty_table, put, remove, get, size}
use clht.Lb
use clht.Lb.Equivalence.{stripped, put-put_table, remove-remove}
use clht.Lb.Refinement.{Puts, IsValid, put-Puts, put-get-remove}

abbrev memory : Memory
memory = record { bucket = λ n. some (λ j. 9); has_struct = λ n. true; has_table = λ n. true }

abbrev two : Table.Hashtable
two = new_table 2

put-put_table_example :
    put (some (λ j. 9)) (stripped two) 5 50
    ≡ Table.put_table memory two 5 50 >>= (λ r. done (r.result, stripped r.ht))
unfolding hashtable_create
put-put_table_example = put-put_table memory two 5 50 refl

remove-remove_example :
    remove (stripped two) 5 ≡ Table.remove two 5 >>= (λ r. done (r.0, stripped r.1))
unfolding hashtable_create
remove-remove_example = remove-remove two 5 refl

two-IsValid : IsValid (empty_table 2)
unfolding hashtable_create
two-IsValid =
    let v = (new_table-IsNew 2 (omega arith)).valid in
    record { some_bucket = v.some_bucket; sized = v.sized; masked = refl; placed = v.placed }

put-Puts_example : Returns (put (some (λ j. 9)) (empty_table 2) 5 50) (Puts (empty_table 2) 5 50)
put-Puts_example = put-Puts (λ j. 9) (empty_table 2) 5 50 two-IsValid (omega arith)

put-get-remove_example :
    (ht : Hashtable) × (Lb.hashtable_create memory 2 ≡ some ht)
    × Returns (put (some (λ j. 9)) ht 5 50) (λ r.
      (get r.1 5 ≡ done 50)
      × Returns (remove r.1 5) (λ s. (s.0 ≡ 50) × (get s.1 5 ≡ done 0) × (size s.1 ≡ done 0)))
put-get-remove_example = put-get-remove memory (λ j. 9) 2 5 50 (omega arith) (omega arith) refl refl
