-- ===== src/Subtec/Sender/Drained.antt =====
-- What a round of the sender leaves behind.
use middleware_player_interf.Common.{
  ℕ, suc, ◌+◌, ◌*◌, ◌/◌, ◌≤◌, ◌≡◌, refl, ap, ◌∙◌, List, [], ◌∷◌, ◌++◌, map, false, some, arith,
  length,
}
use middleware_player_interf.Subtec.Packet.{Packet}
use middleware_player_interf.Subtec.Sender.{
  Sender, Effect, set_buffer_size, write, reconnect, Reply, grow_buffer, count_failure, send_packet,
  drain, wake,
}

-- The bytes that are written, in order.
abbrev pub writes : List Effect → List (List ℕ)
writes [] = []
writes (write bytes ∷ es) = bytes ∷ writes es
writes (set_buffer_size n ∷ es) = writes es
writes (reconnect ∷ es) = writes es

abbrev pub reconnects : List Effect → ℕ
reconnects [] = 0
reconnects (write bytes ∷ es) = reconnects es
reconnects (set_buffer_size n ∷ es) = reconnects es
reconnects (reconnect ∷ es) = suc (reconnects es)

writes-append : (es fs : List Effect) → writes (es ++ fs) ≡ writes es ++ writes fs
writes-append [] fs = refl
writes-append (write bytes ∷ es) fs = ap (◌∷◌ bytes) (writes-append es fs)
writes-append (set_buffer_size n ∷ es) fs = writes-append es fs
writes-append (reconnect ∷ es) fs = writes-append es fs

reconnects-append : (es fs : List Effect) → reconnects (es ++ fs) ≡ reconnects es + reconnects fs
reconnects-append [] fs = omega arith
reconnects-append (write bytes ∷ es) fs = reconnects-append es fs
reconnects-append (set_buffer_size n ∷ es) fs = reconnects-append es fs
reconnects-append (reconnect ∷ es) fs = omega (arith, reconnects-append es fs)

-- Growing the buffer writes nothing and keeps the count of failures.
grow_buffer_lem :
    (r : Reply) (size : ℕ) (s : Sender)
    → (writes (grow_buffer r size s).1 ≡ [])
      × (reconnects (grow_buffer r size s).1 ≡ 0)
      × ((grow_buffer r size s).0.write_fail_ctr ≡ s.write_fail_ctr)
unfolding grow_buffer
grow_buffer_lem r size s = ground arith

count_failure_lem :
    (r : Reply) (s : Sender)
    → s.write_fail_ctr ≤ 5
    → (writes (count_failure r s).1 ≡ []) × ((count_failure r s).0.write_fail_ctr ≤ 5)
unfolding count_failure
count_failure_lem r s h = ground arith

-- A write that fails takes the count up, modulo 6, and reconnects where that wraps.
count_failure-false :
    (r : Reply) (s : Sender)
    → r.written ≡ false
    → s.write_fail_ctr ≤ 5
    → s.write_fail_ctr + 1
      ≡ 6 * reconnects (count_failure r s).1 + (count_failure r s).0.write_fail_ctr
unfolding count_failure
count_failure-false r s e h = ground arith

send_packet-writes :
    (r : Reply) (p : Packet) (s : Sender)
    → s.write_fail_ctr ≤ 5
    → (writes (send_packet r (some p) s).1 ≡ p.buffer ∷ [])
      × ((send_packet r (some p) s).0.write_fail_ctr ≤ 5)
unfolding send_packet
send_packet-writes r p s h =
    let (s1, grown) = grow_buffer r (length p.buffer) s in
    let (none_grown, _, kept) = grow_buffer_lem r (length p.buffer) s in
    let few : s1.write_fail_ctr ≤ 5 = omega (arith, kept) in
    let (none_counted, few') = count_failure_lem r s1 few in
    (
      writes-append grown (write p.buffer ∷ (count_failure r s1).1)
          ∙ ap (λ (t : List (List ℕ)). t ++ (p.buffer ∷ writes (count_failure r s1).1)) none_grown
          ∙ ap (λ (t : List (List ℕ)). p.buffer ∷ t) none_counted,
      few',
    )

send_packet-failed :
    (r : Reply) (p : Packet) (s : Sender)
    → r.written ≡ false
    → s.write_fail_ctr ≤ 5
    → s.write_fail_ctr + 1
      ≡ 6 * reconnects (send_packet r (some p) s).1 + (send_packet r (some p) s).0.write_fail_ctr
unfolding send_packet
send_packet-failed r p s e h =
    let (s1, grown) = grow_buffer r (length p.buffer) s in
    let (_, none_grown, kept) = grow_buffer_lem r (length p.buffer) s in
    let few : s1.write_fail_ctr ≤ 5 = omega (arith, kept) in
    let sum = reconnects-append grown (write p.buffer ∷ (count_failure r s1).1) in
    omega (arith, count_failure-false r s1 e few, kept, none_grown, sum)

drain_lem :
    (replies : ℕ → Reply) (i : ℕ) (queue : List Packet) (s : Sender)
    → s.write_fail_ctr ≤ 5
    → (writes (drain replies i queue s).1 ≡ map (λ (p : Packet). p.buffer) queue)
      × ((drain replies i queue s).0.queue ≡ [])
      × ((drain replies i queue s).0.write_fail_ctr ≤ 5)
unfolding drain
drain_lem replies i [] s h = (refl, refl, h)
drain_lem replies i (p ∷ queue) s h =
    let (s1, sent) = send_packet (replies i) (some p) s in
    let (one, few) = send_packet-writes (replies i) p s h in
    let (rest, empty, few') = drain_lem replies (i + 1) queue s1 few in
    (
      writes-append sent (drain replies (i + 1) queue s1).1
          ∙ ap (λ (t : List (List ℕ)). t ++ writes (drain replies (i + 1) queue s1).1) one
          ∙ ap (λ (t : List (List ℕ)). p.buffer ∷ t) rest,
      empty,
      few',
    )

-- When the sender is woken with at most 5 failures counted, it writes the bytes of the packets in the order in which they were queued,
-- whatever the socket replies, and the queue is empty and the count of failures at most 5 afterwards.
pub wake_lem :
    (replies : ℕ → Reply) (s : Sender)
    → s.write_fail_ctr ≤ 5
    → (writes (wake replies s).1 ≡ map (λ (p : Packet). p.buffer) s.queue)
      × ((wake replies s).0.queue ≡ [])
      × ((wake replies s).0.write_fail_ctr ≤ 5)
unfolding wake
wake_lem replies s h = drain_lem replies 0 s.queue s h

drain-failed :
    (replies : ℕ → Reply) (i : ℕ) (queue : List Packet) (s : Sender)
    → ((j : ℕ) → (replies j).written ≡ false)
    → s.write_fail_ctr ≤ 5
    → s.write_fail_ctr + length queue
      ≡ 6 * reconnects (drain replies i queue s).1 + (drain replies i queue s).0.write_fail_ctr
unfolding drain
drain-failed replies i [] s e h = omega arith
drain-failed replies i (p ∷ queue) s e h =
    let (s1, sent) = send_packet (replies i) (some p) s in
    let (_, few) = send_packet-writes (replies i) p s h in
    omega (
      arith,
      send_packet-failed (replies i) p s (e i) h,
      drain-failed replies (i + 1) queue s1 e few,
      reconnects-append sent (drain replies (i + 1) queue s1).1,
    )

-- While every write fails, and with at most 5 failures counted before, the socket is reconnected at every sixth packet: the reconnections of a
-- round are the sixths of the packets and the failures before it.
pub wake-reconnects :
    (replies : ℕ → Reply) (s : Sender)
    → ((j : ℕ) → (replies j).written ≡ false)
    → s.write_fail_ctr ≤ 5
    → reconnects (wake replies s).1 ≡ (s.write_fail_ctr + length s.queue) / 6
unfolding wake
wake-reconnects replies s e h =
    let (_, _, few) = drain_lem replies 0 s.queue s h in
    omega (arith, drain-failed replies 0 s.queue s e h, few)
