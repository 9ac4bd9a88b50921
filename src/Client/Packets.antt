-- ===== src/Client/Packets.antt =====
-- `SendMsg`: a request as the client writes it.
use cpp_iocp_server.Prelude.{ℕ, ◌+◌, [], ◌∷◌, ◌++◌, ◌||◌, ltb, take, if◌then◌else◌}
use cpp_iocp_server.Text.{Text}
use cpp_iocp_server.Outcome.{M, fault, modify}
use cpp_iocp_server.Common.{buf_size}
use cpp_iocp_server.Iocp.Packet.{le16, le32, packet_length}
use cpp_iocp_server.Client.{Client}

-- The bytes that `WSASend` is given. A status or a direction of -1 is a pattern of 32 ones.
unfoldable pub client_packet : Text → ℕ → ℕ → Text
unfolding le16 le32
client_packet msg status direction =
    take (packet_length msg)
      (le16 (packet_length msg) ++ (le32 status ++ (le32 direction ++ (msg ++ 0 ∷ []))))

-- The copy of `msg` takes ten bytes more than are sent and than the message has with its terminator:
-- they must be there to be read, and past the end of a block, of 4096 bytes here, it writes over what
-- stands there.
unfoldable pub client_send : Text → ℕ → ℕ → M Client Unit
unfolding client_packet
client_send msg status direction c =
    if ltb (c.readable msg) (packet_length msg) || ltb buf_size (10 + packet_length msg)
    then fault c
    else modify (λ c. record c { written = c.written ++ client_packet msg status direction ∷ [] }) c
