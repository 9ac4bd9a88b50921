-- ===== src/Iocp/Packet.antt =====
-- The layout of a packet: two bytes of length, four of status, four of direction, and the message
-- with its terminator. Numbers stand with their low byte first.
use cpp_iocp_server.Prelude.{ℕ, ◌+◌, ◌/◌, ◌%◌, ◌^◌, min, [], ◌∷◌, ◌++◌, take, length}
use cpp_iocp_server.Text.{Text}
use cpp_iocp_server.Common.{ClientStatus, status_number, buf_size}

unfoldable pub le16 : ℕ → Text
le16 n = (n % 256) ∷ (n / 256 % 256) ∷ []

unfoldable pub le32 : ℕ → Text
le32 n = (n % 256) ∷ (n / 256 % 256) ∷ (n / 65536 % 256) ∷ (n / 16777216 % 256) ∷ []

-- `min((uint2)strlen(msg) + 11, BUF_SIZE)`
abbrev pub packet_length : Text → ℕ
packet_length msg = min (length msg % 2 ^ 16 + 11) buf_size

-- The bytes that `WSASend` is given: the first `len` of the block.
unfoldable pub packet : Text → ClientStatus → Text
unfolding le16 le32
packet msg status =
    take (packet_length msg)
      (le16 (packet_length msg) ++ le32 (status_number status) ++ le32 0 ++ msg ++ 0 ∷ [])
