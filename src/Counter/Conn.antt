-- ===== src/Counter/Conn.antt =====
-- base/counter/conn.go and xraytraffic.go: connections that count the bytes that pass through them.
-- What the wrapped connection returns, a length and whether it failed, is an argument.
pub mod Sums
use v2b_x_liusu.Prelude.{
  ℕ, ◌+◌, ◌<◌, ◌^◌, ◌≡◌, Bool, false, List, [], ◌∷◌, ◌++◌, ◌∙◌, ap, arith, ltb, if◌then◌else◌,
}
use v2b_x_liusu.Prelude.Int.{ℤ, pos, to_int64, to_int64_self, add64}
use v2b_x_liusu.Counter.{TrafficStorage, add_up, add_down}

-- ConnCounter.Read: int64(n) is stored.
unfoldable pub read : ℕ → TrafficStorage → TrafficStorage
unfolding to_int64
read n s = record s { up_counter = to_int64 (pos n) }

-- ConnCounter.Write
unfoldable pub write : ℕ → TrafficStorage → TrafficStorage
unfolding to_int64
write n s = record s { down_counter = to_int64 (pos n) }

-- ConnCounter.ReadBuffer: the length is that of the buffer afterwards.
unfoldable pub read_buffer : Bool → ℕ → TrafficStorage → TrafficStorage
unfolding add_up
read_buffer failed n s = if failed then s else if ltb 0 n then add_up s (pos n) else s

-- ConnCounter.WriteBuffer: the length is that of the buffer before.
unfoldable pub write_buffer : Bool → ℕ → TrafficStorage → TrafficStorage
unfolding add_down
write_buffer failed n s = if failed then s else if ltb 0 n then add_down s (pos n) else s

-- PacketConnCounter.ReadPacket
unfoldable pub read_packet : Bool → ℕ → TrafficStorage → TrafficStorage
unfolding add_up
read_packet failed n s = if failed then s else add_up s (pos n)

-- PacketConnCounter.WritePacket
unfoldable pub write_packet : Bool → ℕ → TrafficStorage → TrafficStorage
unfolding add_down
write_packet failed n s = if failed then s else if ltb 0 n then add_down s (pos n) else s

pub data Transfer : Type 0 where
  reads writes : ℕ → Transfer
  reads_buffer writes_buffer reads_packet writes_packet : Bool → ℕ → Transfer

unfoldable pub transfer : TrafficStorage → Transfer → TrafficStorage
unfolding read write read_buffer write_buffer read_packet write_packet
transfer s (reads n) = read n s
transfer s (writes n) = write n s
transfer s (reads_buffer failed n) = read_buffer failed n s
transfer s (writes_buffer failed n) = write_buffer failed n s
transfer s (reads_packet failed n) = read_packet failed n s
transfer s (writes_packet failed n) = write_packet failed n s

unfoldable pub transfers : TrafficStorage → List Transfer → TrafficStorage
transfers s [] = s
transfers s (t ∷ ts) = transfers (transfer s t) ts

-- base/counter/xraytraffic.go, over the counter's value: Value, Set and Add, each with its result.
unfoldable pub value : ℤ → ℤ
value v = v

unfoldable pub set_value : ℤ → ℤ → ℤ × ℤ
set_value new_value v = (new_value, v)

unfoldable pub add_value : ℤ → ℤ → ℤ × ℤ
unfolding add64
add_value delta v = (add64 v delta, add64 v delta)
