-- ===== src/Counter/Conn/Sums.antt =====
-- base/counter/conn.go: what a sequence of transfers leaves in the counters.
use v2b_x_liusu.Prelude.{ℕ, ◌+◌, ◌<◌, ◌^◌, ◌≡◌, refl, false, List, [], ◌∷◌, ◌++◌, ◌∙◌, ap, arith}
use v2b_x_liusu.Prelude.Int.{ℤ, pos, to_int64_self, add64}
use v2b_x_liusu.Counter.{TrafficStorage}
use v2b_x_liusu.Counter.Conn.{
  Transfer, reads, writes, reads_buffer, writes_buffer, reads_packet, writes_packet, transfer,
  transfers,
}

-- The transfers by buffers and packets, and the bytes that they bring in and take out.
abbrev pub IsBuffered : Transfer → Type 0
IsBuffered (reads n) = ⊥
IsBuffered (writes n) = ⊥
IsBuffered _ = Unit

abbrev pub AllBuffered : List Transfer → Type 0
AllBuffered [] = Unit
AllBuffered (t ∷ ts) = IsBuffered t × AllBuffered ts

abbrev received : Transfer → ℕ
received (reads n) = n
received (reads_buffer false n) = n
received (reads_packet false n) = n
received _ = 0

abbrev sent : Transfer → ℕ
sent (writes n) = n
sent (writes_buffer false n) = n
sent (writes_packet false n) = n
sent _ = 0

unfoldable pub bytes_in : List Transfer → ℕ
bytes_in [] = 0
bytes_in (t ∷ ts) = received t + bytes_in ts

unfoldable pub bytes_out : List Transfer → ℕ
bytes_out [] = 0
bytes_out (t ∷ ts) = sent t + bytes_out ts

add_small : (a n : ℕ) → a + n < 2 ^ 63 → add64 (pos a) (pos n) ≡ pos (a + n)
unfolding add64
add_small a n h = ground arith

abbrev counted : ℕ → ℕ → TrafficStorage
counted a b = record { up_counter = pos a; down_counter = pos b }

-- One transfer. `add64` stays shut.
transfer_exact :
    (t : Transfer) (a b : ℕ)
    → IsBuffered t
    → a + received t < 2 ^ 63
    → b + sent t < 2 ^ 63
    → transfer (counted a b) t ≡ counted (a + received t) (b + sent t)
unfolding transfer
transfer_exact (reads n) a b w h k = absurd w
transfer_exact (writes n) a b w h k = absurd w
transfer_exact (reads_buffer failed n) a b w h k = ground (arith, add_small a n)
transfer_exact (writes_buffer failed n) a b w h k = ground (arith, add_small b n)
transfer_exact (reads_packet failed n) a b w h k = ground (arith, add_small a n)
transfer_exact (writes_packet failed n) a b w h k = ground (arith, add_small b n)

-- Over buffers and packets, from counts that with the new bytes stay below 2^63, the counters grow by
-- exactly the bytes that came in and went out; failed transfers count nothing.
pub transfers_exact :
    (ts : List Transfer) (a b : ℕ)
    → AllBuffered ts
    → a + bytes_in ts < 2 ^ 63
    → b + bytes_out ts < 2 ^ 63
    → transfers (counted a b) ts ≡ counted (a + bytes_in ts) (b + bytes_out ts)
unfolding transfers bytes_in bytes_out
transfers_exact [] a b w h k = ground arith
transfers_exact (t ∷ ts) a b w h k = rw (transfer_exact t a b w.0 (omega arith) (omega arith)) (
    transfers_exact ts (a + received t) (b + sent t) w.1 (omega arith) (omega arith) ∙ ground arith)

transfer_in :
    (t : Transfer) (a : ℕ) (d : ℤ)
    → IsBuffered t
    → a + received t < 2 ^ 63
    → (transfer (record { up_counter = pos a; down_counter = d }) t).up_counter
      ≡ pos (a + received t)
unfolding transfer
transfer_in (reads n) a d w h = absurd w
transfer_in (writes n) a d w h = absurd w
transfer_in (reads_buffer failed n) a d w h = ground (arith, add_small a n)
transfer_in (writes_buffer failed n) a d w h = ground (arith, add_small a 0)
transfer_in (reads_packet failed n) a d w h = ground (arith, add_small a n)
transfer_in (writes_packet failed n) a d w h = ground (arith, add_small a 0)

transfer_out :
    (t : Transfer) (u : ℤ) (b : ℕ)
    → IsBuffered t
    → b + sent t < 2 ^ 63
    → (transfer (record { up_counter = u; down_counter = pos b }) t).down_counter ≡ pos (b + sent t)
unfolding transfer
transfer_out (reads n) u b w h = absurd w
transfer_out (writes n) u b w h = absurd w
transfer_out (reads_buffer failed n) u b w h = ground (arith, add_small b 0)
transfer_out (writes_buffer failed n) u b w h = ground (arith, add_small b n)
transfer_out (reads_packet failed n) u b w h = ground (arith, add_small b 0)
transfer_out (writes_packet failed n) u b w h = ground (arith, add_small b n)

-- The counts of one side, whatever the other is.
transfers_in :
    (ts : List Transfer) (s : TrafficStorage) (a : ℕ)
    → AllBuffered ts
    → s.up_counter ≡ pos a
    → a + bytes_in ts < 2 ^ 63
    → (transfers s ts).up_counter ≡ pos (a + bytes_in ts)
unfolding transfers bytes_in
transfers_in [] s a w e h = ground arith
transfers_in (t ∷ ts) s a w e h =
    transfers_in ts (transfer s t) (a + received t) w.1
      (ap (λ u. (transfer (record { up_counter = u; down_counter = s.down_counter }) t).up_counter)
          e
        ∙ transfer_in t a s.down_counter w.0 (omega arith))
      (omega arith)
    ∙ ground arith

transfers_out :
    (ts : List Transfer) (s : TrafficStorage) (b : ℕ)
    → AllBuffered ts
    → s.down_counter ≡ pos b
    → b + bytes_out ts < 2 ^ 63
    → (transfers s ts).down_counter ≡ pos (b + bytes_out ts)
unfolding transfers bytes_out
transfers_out [] s b w e h = ground arith
transfers_out (t ∷ ts) s b w e h =
    transfers_out ts (transfer s t) (b + sent t) w.1
      (ap (λ d. (transfer (record { up_counter = s.up_counter; down_counter = d }) t).down_counter)
          e
        ∙ transfer_out t s.up_counter b w.0 (omega arith))
      (omega arith)
    ∙ ground arith

transfers-append :
    (before after : List Transfer) (s : TrafficStorage)
    → transfers s (before ++ after) ≡ transfers (transfers s before) after
unfolding transfers
transfers-append [] after s = refl
transfers-append (t ∷ before) after s = transfers-append before after (transfer s t)

-- Plain reads and writes are not added up: after a Read of `n` bytes, and buffers and packets after it,
-- the bytes up are `n` and those that came in after it, whatever has passed before; and likewise for a
-- Write and the bytes down. The sums stay below 2^63.
pub plain_transfers_overwrite :
    (before after : List Transfer) (s : TrafficStorage) (n : ℕ)
    → AllBuffered after
    → n + bytes_in after < 2 ^ 63
    → n + bytes_out after < 2 ^ 63
    → ((transfers s (before ++ reads n ∷ after)).up_counter ≡ pos (n + bytes_in after))
      × ((transfers s (before ++ writes n ∷ after)).down_counter ≡ pos (n + bytes_out after))
unfolding transfers transfer
plain_transfers_overwrite before after s n w h k =
    let s' = transfers s before in
    (
      ap (λ x. x.up_counter) (transfers-append before (reads n ∷ after) s)
          ∙ transfers_in after (transfer s' (reads n)) n w (to_int64_self (pos n) (omega arith)) h,
      ap (λ x. x.down_counter) (transfers-append before (writes n ∷ after) s)
          ∙ transfers_out after (transfer s' (writes n)) n w (to_int64_self (pos n) (omega arith))
              k,
    )
