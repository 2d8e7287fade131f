-- ===== src/Subtec/Sender.antt =====
-- The class PacketSender, of subtec/libsubtec/PacketSender.cpp: the queue, and what the sender does to
-- the socket. The replies of the socket are arguments.
pub mod Drained
pub mod Close
use middleware_player_interf.Common.{
  ℕ, zero, suc, ◌+◌, ◌/◌, List, [], ◌∷◌, ◌++◌, Bool, true, false, ◌&&◌, Option, none, some, ltb,
  length, if◌then◌else◌,
}
use middleware_player_interf.Subtec.Packet.{Packet}

-- Without the mutexes, the thread and the path of the socket.
pub record Sender : Type 0 where
  pub queue : List Packet
  pub sock_buf_size : ℕ
  pub write_fail_ctr : ℕ

-- What goes to the socket.
pub data Effect : Type 0 where
  set_buffer_size : ℕ → Effect
  write : List ℕ → Effect
  reconnect : Effect

-- Whether `setsockopt` and `write` succeed for a packet.
pub record Reply : Type 0 where
  pub resized : Bool
  pub written : Bool

abbrev pub max_sndbuf_size : ℕ
max_sndbuf_size = 8388608

-- The part of `sendPacket` before the write.
unfoldable pub grow_buffer : Reply → ℕ → Sender → Sender × List Effect
grow_buffer r size s =
    if ltb s.sock_buf_size size && ltb size max_sndbuf_size
    then (if r.resized then record s { sock_buf_size = size } else s, set_buffer_size size ∷ [])
    else (s, [])

-- The part behind the write.
unfoldable pub count_failure : Reply → Sender → Sender × List Effect
count_failure r s =
    let ctr = if r.written then 0 else s.write_fail_ctr + 1 in
    if ltb 5 ctr
    then (record s { write_fail_ctr = 0 }, reconnect ∷ [])
    else (record s { write_fail_ctr = ctr }, [])

-- `sendPacket`: a null pointer is passed over.
unfoldable pub send_packet : Reply → Option Packet → Sender → Sender × List Effect
unfolding grow_buffer count_failure
send_packet r none s = (s, [])
send_packet r (some p) s =
    let (s1, grown) = grow_buffer r (length p.buffer) s in
    let (s2, counted) = count_failure r s1 in (s2, grown ++ (write p.buffer ∷ counted))

-- The inner loop of `senderTask`, which holds the mutex: the front is sent and then popped. Reply `i`
-- is that for the packet sent as number `i`.
unfoldable pub drain : (ℕ → Reply) → ℕ → List Packet → Sender → Sender × List Effect
unfolding send_packet
drain replies i [] s = (record s { queue = [] }, [])
drain replies i (p ∷ queue) s =
    let (s1, sent) = send_packet (replies i) (some p) s in
    let (s2, rest) = drain replies (i + 1) queue s1 in (s2, sent ++ rest)

-- A round of `senderTask` from the end of the wait on.
unfoldable pub wake : (ℕ → Reply) → Sender → Sender × List Effect
unfolding drain
wake replies s = drain replies 0 s.queue s

-- `SendPacket`
unfoldable pub push : Packet → Sender → Sender
push p s = record s { queue = s.queue ++ (p ∷ []) }

-- `flushPacketQueue`
unfoldable pub flush : Sender → Sender
flush s = record s { queue = [] }
