-- ===== src/Stream.antt =====
-- A byte stream between two programs, and the two-byte length in front of a DNS message on it:
-- bench/cmd/mockdns/main.go (readFull and the length prefix of serveTCP), bench/cmd/loadgen/main.go
-- (the prefix of streamClient.Query) and bench/cmd/rrlexp/client.go (frame).
--
-- A connection is what arrives on it, one list of bytes for each arrival: a Read returns an arrival, or
-- as much of it as there is room for. At the end of the arrivals a Read fails.
pub mod Reading
use elodin.Common.{
  ℕ, zero, suc, ◌+◌, ◌-◌, ◌*◌, Option, none, some, List, [], ◌∷◌, ◌++◌, leb, if◌then◌else◌, Bytes,
  length, take, drop,
}
use elodin.DnsWire.{u16_be}

abbrev pub Conn : Type 0
Conn = List Bytes

-- `readFull` with `want` bytes to go and those that it has; `io.ReadFull` does the same
unfoldable pub read_loop : Conn → ℕ → Bytes → Option (Bytes × Conn)
read_loop conn zero got = some (got, conn)
read_loop [] (suc want) got = none
read_loop (arrival ∷ conn) (suc want) got =
    let more = read_loop conn (suc want - length arrival) (got ++ arrival) in
    if leb (length arrival) (suc want)
    then more
    else some (got ++ take (suc want) arrival, drop (suc want) arrival ∷ conn)

unfoldable pub read_full : Conn → ℕ → Option (Bytes × Conn)
unfolding read_loop
read_full conn want = read_loop conn want []

-- A message behind its length, `byte(len >> 8)` and `byte(len)`.
unfoldable pub frame : Bytes → Bytes
frame msg = u16_be (length msg) ++ msg

-- `int(hdr[0])<<8 | int(hdr[1])`; the two bytes do not overlap, so the sum is the bitwise or
abbrev pub frame_size : Bytes → ℕ
frame_size (hi ∷ lo ∷ []) = hi * 256 + lo
frame_size _ = 0

-- one message off the stream: the two length bytes, then that many
unfoldable pub read_frame : Conn → Option (Bytes × Conn)
read_frame conn = elim (read_full conn 2) [
  | none ↦ none
  | some (hdr, conn') ↦ read_full conn' (frame_size hdr)
]
