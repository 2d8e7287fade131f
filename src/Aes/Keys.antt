-- ===== src/Aes/Keys.antt =====
-- The states of the key, and what `Decrypt` returns and writes.
use middleware_player_interf.Common.{
  ℕ, zero, suc, ◌≤◌, ◌≡◌, ◌≢◌, ◌↔◌, refl, ap, Bool, true, false, List, [], ◌∷◌, ◌++◌, none, length,
  take, replicate, arith, length-append,
}
use middleware_player_interf.Aes.{
  key_acquired, key_flush, DrmReturn, success, AesDec, signal, cancel_key_wait, restore_key_state,
  Cipher, over_zeros, run_cipher, decrypt,
}

signal_kept : (ok : Bool) (s : AesDec) → restore_key_state (signal ok s) ≡ signal ok s
unfolding restore_key_state signal
signal_kept true s = refl
signal_kept false s = refl

-- However often the wait for the key is cancelled, one `RestoreKeyState` brings back the state from
-- before the first cancellation; and where the license thread has signalled in between, that result
-- stays, and the restoring changes nothing.
pub restore_key_state-cancel_key_wait :
    (s : AesDec) (ok : Bool)
    → s.state ≢ key_flush
    → ((restore_key_state (cancel_key_wait s)).state ≡ s.state)
      × ((restore_key_state (cancel_key_wait (cancel_key_wait s))).state ≡ s.state)
      × (restore_key_state (signal ok (cancel_key_wait s)) ≡ signal ok (cancel_key_wait s))
unfolding restore_key_state cancel_key_wait signal
restore_key_state-cancel_key_wait s ok h =
    (ground arith, ground arith, signal_kept ok (cancel_key_wait s))

length-take : (n : ℕ) (xs : List ℕ) → n ≤ length xs → length (take n xs) ≡ n
length-take zero xs h = refl
length-take (suc n) [] h = elim h [ ]
length-take (suc n) (x ∷ xs) h = ap suc (length-take n xs (omega arith))

length-replicate : (n a : ℕ) → length (replicate n a) ≡ n
length-replicate zero a = refl
length-replicate (suc n) a = ap suc (length-replicate n a)

length-take_zeros : (len : ℕ) (bytes : List ℕ) → length (over_zeros len bytes) ≡ len
length-take_zeros len bytes =
    length-take len (bytes ++ replicate len 0)
      (omega (arith, length-append bytes (replicate len 0), length-replicate len 0))

length-decrypt :
    (c : Cipher) (err : DrmReturn) (s : AesDec) (bytes : List ℕ)
    → length (decrypt c err s bytes).1 ≡ length bytes
unfolding decrypt
length-decrypt c err s bytes = ground (arith, length-take_zeros (length bytes) (run_cipher c).0)

-- `Decrypt` returns success exactly where the key is acquired, the buffer is allocated and OpenSSL
-- succeeds in all three steps; and on every path the data keeps its length.
pub decrypt_lem :
    (c : Cipher) (err : DrmReturn) (s : AesDec) (bytes : List ℕ)
    → err ≢ success
    → (((decrypt c err s bytes).0 ≡ success) ↔ (
        (s.state ≡ key_acquired)
        × (c.allocated ≡ true)
        × (c.inited ≡ true)
        × (c.update ≢ none)
        × (c.final ≢ none)))
      × (length (decrypt c err s bytes).1 ≡ length bytes)
unfolding decrypt
decrypt_lem c err s bytes h = (ground arith, length-decrypt c err s bytes)
