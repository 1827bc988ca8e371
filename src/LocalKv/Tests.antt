-- ===== src/LocalKv/Tests.antt =====
-- The theorems on `localKV` at a store with two keys.
use nola.Base.{◌≡◌, refl, true, none, some, [], ◌∷◌, Result, ok, err, Bytes, ◌>>=◌, bytes_eq}
use nola.Types.{Error}
use nola.LocalKv.Order.{bytes_lt}
use nola.LocalKv.Sorted.{sorted_tree}
use nola.LocalKv.Store.{LocalKv, new_local_kv, begin_transaction, cancel, put}
use nola.LocalKv.Transactions.{puts, cancel_restores}

abbrev stored : LocalKv sorted_tree → Bytes → Bytes → LocalKv sorted_tree
stored l k v = record l { b = sorted_tree.replace_or_insert l.b k v }

-- Keys 1 2 and 3.
abbrev two_keys : LocalKv sorted_tree
two_keys = stored (stored (new_local_kv sorted_tree) (3 ∷ []) (8 ∷ [])) (1 ∷ 2 ∷ []) (9 ∷ [])

abbrev begun : LocalKv sorted_tree
begun = record two_keys { tr_clone = some two_keys.b; locked = true }

-- With a value at the key 2 too.
abbrev written : LocalKv sorted_tree
written = stored begun (2 ∷ []) (7 ∷ [])

cancel_restores_example :
    (begin_transaction sorted_tree written ≡ none)
    × (cancel sorted_tree written ≡ (ok tt, two_keys))
unfolding new_local_kv begin_transaction puts put bytes_lt bytes_eq ◌>>=◌
cancel_restores_example =
    cancel_restores sorted_tree two_keys begun written ((2 ∷ [], 7 ∷ []) ∷ []) refl refl refl

-- A function that writes and fails.
abbrev failing : LocalKv sorted_tree → Result Error (Unit {0}) × LocalKv sorted_tree
failing l = (err Error.no_actor, record l { b = written.b })
