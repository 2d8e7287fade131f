-- ===== src/Aes/Tests.antt =====
-- The theorems on the decryptor at concrete inputs.
use middleware_player_interf.Common.{true, false, ◌≢◌, refl, [], ◌∷◌, none, some}
use middleware_player_interf.Aes.{
  initialized, acquiring_key, key_acquired, key_flush, success, error, AesDec, init, no_info,
  Cipher,
}
use middleware_player_interf.Aes.Threads.{
  absent, fetching, fetched, release, set_decrypt_info, joining, Reply, System, call, fetch, Run,
  here, next, proceed, enter,
}
use middleware_player_interf.Aes.Threads.Joining.{IsBusy, IsJoining, proceed_hangs}
use middleware_player_interf.Aes.Threads.Started.{Inv, thread_started_agrees}

abbrev cipher : Cipher
cipher = record {
  allocated = true;
  inited = true;
  update = some (1 ∷ 2 ∷ []);
  final = some (3 ∷ []);
}

abbrev with_key : AesDec
with_key = record {
  state = key_acquired;
  prev_state = initialized;
  drm_url = [];
  drm_info = no_info;
  curl_instance = none;
  thread_started = false;
  acquire_key_wait_time = 5;
  key = none;
}

error≢success : error ≢ success
error≢success = λ e. absurd (cc)

abbrev reply : Reply
reply = record { creates = true; instance_id = none }

-- The wait was cancelled while the thread gets the key, and `Release` is called.
abbrev cancelled : AesDec
cancelled = record {
  state = key_flush;
  prev_state = acquiring_key;
  drm_url = [];
  drm_info = no_info;
  curl_instance = none;
  thread_started = true;
  acquire_key_wait_time = 5;
  key = none;
}

abbrev in_join : System
in_join = record { dec = cancelled; license_thread = fetching; caller = joining release error }

abbrev behind_fetch : System
behind_fetch = record {
  dec = cancelled;
  license_thread = fetched true;
  caller = joining release error;
}

hanging : Run (proceed reply release error fetching cancelled) behind_fetch
unfolding proceed
hanging = next (fetch true none refl) here

proceed_hangs_example : IsJoining (joining release error) × IsBusy (fetched true)
proceed_hangs_example =
    proceed_hangs reply release error fetching cancelled behind_fetch tt refl tt hanging

abbrev called : System
called = enter reply (set_decrypt_info no_info 7) absent init

thread_started_agrees_example : Inv called
thread_started_agrees_example =
    thread_started_agrees (next (call reply (set_decrypt_info no_info 7) success refl) here)
