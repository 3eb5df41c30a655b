-- ===== src/Samples/Counts.antt =====
-- base/counter: the counts of one user beside another's.
use v2b_x_liusu.Prelude.{◌≡◌, [], ◌∷◌, ◌++◌, false, arith}
use v2b_x_liusu.Prelude.Int.{pos, add64}
use v2b_x_liusu.Prelude.Eq.{string_eq, nat_eq}
use v2b_x_liusu.Dict.{lookup, insert}
use v2b_x_liusu.Counter.{TrafficCounter, new_traffic_counter, rx, tx, get_up_count, get_down_count}
use v2b_x_liusu.Counter.Laws.{new_traffic_counter-IsValid, rx-IsValid, counts, counts-rx-tx}
use v2b_x_liusu.Counter.Conn.{reads, writes, reads_buffer, transfers}
use v2b_x_liusu.Counter.Conn.Sums.{bytes_in, bytes_out, plain_transfers_overwrite}

abbrev received : TrafficCounter
received = rx new_traffic_counter "a" (pos 5)

counts-rx-tx_example :
    (counts (rx received "a" (pos 7)) "a" ≡ (pos 0, pos 12))
    × (counts (tx received "a" (pos 7)) "a" ≡ (pos 7, pos 5))
unfolding get_up_count add64 get_down_count lookup rx new_traffic_counter insert
counts-rx-tx_example =
    counts-rx-tx received "a" "a" (pos 7)
      (rx-IsValid new_traffic_counter "a" (pos 5) new_traffic_counter-IsValid)

-- A Read, or a Write, between other transfers.
plain_transfers_overwrite_example :
    ((transfers
        (record { up_counter = pos 9; down_counter = pos 9 })
        (reads 4 ∷ writes 3 ∷ [] ++ reads 6 ∷ reads_buffer false 5 ∷ [])).up_counter
      ≡ pos 11)
    × ((transfers
          (record { up_counter = pos 9; down_counter = pos 9 })
          (reads 4 ∷ writes 3 ∷ [] ++ writes 6 ∷ reads_buffer false 5 ∷ [])).down_counter
        ≡ pos 6)
unfolding bytes_in bytes_out
plain_transfers_overwrite_example =
    plain_transfers_overwrite (reads 4 ∷ writes 3 ∷ []) (reads_buffer false 5 ∷ [])
      (record { up_counter = pos 9; down_counter = pos 9 }) 6 (tt, tt) (omega arith) (omega arith)
