-- ===== src/Aes/Threads.antt =====
-- The calls of AesDec that wait, of drm/aes/Aes.cpp, beside the license thread. The mutex `mMutex` is
-- held by the caller exactly where it stands in `join`; each other part under it is one step.
pub mod Joining
pub mod Started
use middleware_player_interf.Common.{
  ℕ, Bool, true, false, ◌&&◌, ◌||◌, not, List, Option, none, some, if◌then◌else◌, ◌≡◌, ◌≢◌,
}
use middleware_player_interf.Common.Bytes.{same_text}
use middleware_player_interf.Aes.{
  DrmState, initialized, acquiring_key, key_acquired, key_failed, DrmReturn, success, error,
  key_acquisition_timeout, DrmInfo, AesDec, is_acquiring, is_acquired, is_failed, is_empty, signal,
  cancel_key_wait, restore_key_state, Cipher, decrypt, init,
}

-- The license thread: none that could be joined, in the callback that gets the key, behind it with its
-- result, or at its end.
pub data Worker : Type 0 where
  absent fetching finished : Worker
  fetched : Bool → Worker

-- The calls that may wait.
pub data Call : Type 0 where
  set_decrypt_info : DrmInfo → ℕ → Call
  release : Call
  decrypt_data : Cipher → List ℕ → Call

-- The caller: behind a call with its result, in the wait, woken with whether the time was over, in the
-- join with the result so far, or ended with the program (a thread assigned over a joinable one).
pub data Caller : Type 0 where
  returned : DrmReturn → Caller
  waiting : Call → Caller
  woken : Call → Bool → Caller
  joining : Call → DrmReturn → Caller
  terminated : Caller

-- What the outside replies: whether a thread can be created, and the instance of curl.
pub record Reply : Type 0 where
  pub creates : Bool
  pub instance_id : Option ℕ

pub record System : Type 0 where
  pub dec : AesDec
  pub license_thread : Worker
  pub caller : Caller

-- The part of `SetDecryptInfo` behind the join.
unfoldable pub create_thread : Reply → DrmReturn → Worker → AesDec → System
create_thread r err absent s = elim r.creates [
  | true ↦ record {
    dec = record s { thread_started = true };
    license_thread = fetching;
    caller = returned success;
  }
  | false ↦ record {
    dec = record s { state = key_failed; thread_started = false };
    license_thread = absent;
    caller = returned err;
  }
]
create_thread r err w s = elim r.creates [
  | true ↦ record { dec = s; license_thread = w; caller = terminated }
  | false ↦ record {
    dec = record s { state = key_failed; thread_started = false };
    license_thread = w;
    caller = returned err;
  }
]

-- The end of `Release`.
unfoldable pub release_curl : Worker → AesDec → System
release_curl w s = record {
  dec = record s { curl_instance = none };
  license_thread = w;
  caller = returned error;
}

-- Behind the wait, or without one, with the mutex.
unfoldable pub proceed : Reply → Call → DrmReturn → Worker → AesDec → System
unfolding create_thread release_curl
proceed r (set_decrypt_info info time) err w s =
    let t = record s {
      drm_info = info;
      drm_url = info.key_uri;
      state = acquiring_key;
      prev_state = initialized;
      curl_instance = r.instance_id;
    } in
    if not (is_empty s.drm_url) && (is_acquired s.state && same_text info.key_uri s.drm_url)
    then record {
      dec = record s { drm_info = info };
      license_thread = w;
      caller = returned success;
    }
    else if s.thread_started
    then record { dec = t; license_thread = w; caller = joining (set_decrypt_info info time) err }
    else create_thread r err w t
proceed r release err w s =
    if s.thread_started
    then record { dec = s; license_thread = w; caller = joining release err }
    else release_curl w s
proceed r (decrypt_data c bytes) err w s = record {
  dec = s;
  license_thread = w;
  caller = returned (decrypt c err s bytes).0;
}

-- The start of a call, with the mutex: the test for the wait.
unfoldable pub enter : Reply → Call → Worker → AesDec → System
unfolding proceed
enter r (set_decrypt_info info time) w s =
    let t = record s { acquire_key_wait_time = time } in
    if is_acquiring s.state
    then record { dec = t; license_thread = w; caller = waiting (set_decrypt_info info time) }
    else proceed r (set_decrypt_info info time) error w t
enter r release w s =
    if (is_acquiring s.state || is_acquiring s.prev_state) && not (is_failed s.state)
    then record { dec = s; license_thread = w; caller = waiting release }
    else proceed r release error w s
enter r (decrypt_data c bytes) w s =
    if is_acquiring s.state
    then record { dec = s; license_thread = w; caller = waiting (decrypt_data c bytes) }
    else proceed r (decrypt_data c bytes) error w s

-- The join has returned: the thread is joinable no more. `Decrypt` never joins.
unfoldable pub joined : Reply → Call → DrmReturn → AesDec → System
unfolding create_thread release_curl
joined r (set_decrypt_info info time) err s =
    create_thread r err absent (record s { thread_started = false })
joined r release err s = release_curl absent (record s { thread_started = false })
joined r (decrypt_data c bytes) err s = record {
  dec = record s { thread_started = false };
  license_thread = absent;
  caller = returned err;
}

abbrev pub wait_result : Bool → DrmReturn
wait_result true = key_acquisition_timeout
wait_result false = error

-- `notify_all` ends the wait of the caller.
unfoldable pub notify_all : Caller → Caller
notify_all (waiting call) = woken call false
notify_all c = c

abbrev pub IsUnlocked : Caller → Type 0
IsUnlocked (joining call err) = ⊥
IsUnlocked terminated = ⊥
IsUnlocked _ = Unit

-- The steps of the caller, of the license thread, and of others that cancel or restore.
pub data Step (s : System) : System → Type 0 where
  call :
      (r : Reply) (c : Call) (result : DrmReturn)
      → s.caller ≡ returned result
      → Step s (enter r c s.license_thread s.dec)
  time_over : (c : Call) → s.caller ≡ waiting c → Step s (record s { caller = woken c true })
  wake : (c : Call) → s.caller ≡ waiting c → Step s (record s { caller = woken c false })
  resume :
      (r : Reply) (c : Call) (late : Bool)
      → s.caller ≡ woken c late
      → Step s (proceed r c (wait_result late) s.license_thread s.dec)
  join :
      (r : Reply) (c : Call) (err : DrmReturn)
      → s.caller ≡ joining c err
      → s.license_thread ≡ finished
      → Step s (joined r c err s.dec)
  fetch :
      (ok : Bool) (key : Option (List ℕ))
      → s.license_thread ≡ fetching
      → Step s (record s { dec = record s.dec { key = key }; license_thread = fetched ok })
  signal_result :
      (ok : Bool)
      → s.license_thread ≡ fetched ok
      → IsUnlocked s.caller
      → Step s (record {
        dec = signal ok s.dec;
        license_thread = finished;
        caller = notify_all s.caller;
      })
  cancel :
      IsUnlocked s.caller
      → Step s (record s { dec = cancel_key_wait s.dec; caller = notify_all s.caller })
  restore : IsUnlocked s.caller → Step s (record s { dec = restore_key_state s.dec })

pub data Run : System → System → Type 0 where
  here : {s : System} → Run s s
  next : {s t u : System} → Step s t → Run t u → Run s u

abbrev pub start : System
start = record { dec = init; license_thread = absent; caller = returned success }
