-- ===== src/Aes.antt =====
-- drm/aes/Aes.cpp: the decryptor of HLS AES-128, with the states of drm/HlsDrmBase.h. OpenSSL, the
-- callbacks and the clock are arguments: their replies are values here.
pub mod Threads
pub mod Keys
mod Tests
use middleware_player_interf.Common.{
  ℕ, zero, suc, ◌+◌, Bool, true, false, ◌&&◌, ◌||◌, not, List, [], ◌∷◌, ◌++◌, Option, none, some,
  length, take, drop, replicate, ◌==◌, if◌then◌else◌,
}

-- DRMState and DrmReturn
pub data DrmState : Type 0 where
  initialized acquiring_key key_acquired key_failed key_flush : DrmState

pub data DrmReturn : Type 0 where
  success error key_acquisition_timeout : DrmReturn

pub record DrmInfo : Type 0 where
  pub manifest_url : List ℕ
  pub key_uri : List ℕ
  pub iv : List ℕ

-- `m_ptr` is the key, and `curl_instance` is `none` for -1. The mutex, the condition variable and the
-- thread are in Threads.
pub record AesDec : Type 0 where
  pub state : DrmState
  pub prev_state : DrmState
  pub drm_url : List ℕ
  pub drm_info : DrmInfo
  pub curl_instance : Option ℕ
  pub thread_started : Bool
  pub acquire_key_wait_time : ℕ
  pub key : Option (List ℕ)

-- MAX_LICENSE_ACQ_WAIT_TIME
abbrev pub max_license_acq_wait_time : ℕ
max_license_acq_wait_time = 12000

abbrev pub no_info : DrmInfo
no_info = record { manifest_url = []; key_uri = []; iv = [] }

-- The constructor.
unfoldable pub init : AesDec
init = record {
  state = initialized;
  prev_state = initialized;
  drm_url = [];
  drm_info = no_info;
  curl_instance = none;
  thread_started = false;
  acquire_key_wait_time = max_license_acq_wait_time;
  key = none;
}

abbrev pub is_acquiring : DrmState → Bool
is_acquiring acquiring_key = true
is_acquiring _ = false

abbrev pub is_acquired : DrmState → Bool
is_acquired key_acquired = true
is_acquired _ = false

abbrev pub is_failed : DrmState → Bool
is_failed key_failed = true
is_failed _ = false

abbrev pub is_flush : DrmState → Bool
is_flush key_flush = true
is_flush _ = false

-- `empty` of a string
abbrev pub is_empty : List ℕ → Bool
is_empty [] = true
is_empty (x ∷ xs) = false

-- `SignalKeyAcquired` and `SignalDrmError`
unfoldable pub signal : Bool → AesDec → AesDec
signal true s = record s { state = key_acquired }
signal false s = record s { state = key_failed }

unfoldable pub cancel_key_wait : AesDec → AesDec
cancel_key_wait s = record s {
  prev_state = if is_flush s.state then s.prev_state else s.state;
  state = key_flush;
}

unfoldable pub restore_key_state : AesDec → AesDec
restore_key_state s = record s { state = if is_flush s.state then s.prev_state else s.state }

-- What OpenSSL and the allocator reply in `Decrypt`: whether there is memory, whether the context
-- takes the key, and the bytes that the update and the end write, if they succeed.
pub record Cipher : Type 0 where
  pub allocated : Bool
  pub inited : Bool
  pub update : Option (List ℕ)
  pub final : Option (List ℕ)

-- The new buffer, zeroed, with the bytes that were written at its start.
abbrev pub over_zeros : ℕ → List ℕ → List ℕ
over_zeros len bytes = take len (bytes ++ replicate len 0)

-- The bytes that the three steps write, and whether all succeeded.
unfoldable pub cipher_steps : Bool → Option (List ℕ) → Option (List ℕ) → List ℕ × Bool
cipher_steps false update final = ([], false)
cipher_steps true none final = ([], false)
cipher_steps true (some first) none = (first, false)
cipher_steps true (some first) (some last) = (first ++ last, true)

abbrev pub run_cipher : Cipher → List ℕ × Bool
run_cipher c = cipher_steps c.inited c.update c.final

-- `Decrypt` behind its wait; `err` is what the wait left in it. The new buffer is copied back over the
-- data, also where a step failed.
unfoldable pub decrypt : Cipher → DrmReturn → AesDec → List ℕ → DrmReturn × List ℕ
unfolding cipher_steps
decrypt c err s bytes =
    if is_acquired s.state && c.allocated
    then (if (run_cipher c).1 then success else err, over_zeros (length bytes) (run_cipher c).0)
    else (err, bytes)
