-- ===== src/Handlers/Quiet.antt =====
-- Handlers beside a thread that waits for their end. A handler takes a scope helper, asks whether to
-- return straight away, works if not, and its helper ends with it.
use middleware_player_interf.Common.{
  ℕ, zero, suc, ◌≡◌, refl, Bool, true, false, ◌&&◌, not, List, [], ◌∷◌, ◌++◌, some, arith, length,
  length-append, All, ◌==◌, ◌⊎◌, inl, inr, Bool-cases,
}
use middleware_player_interf.Handlers.{
  Control, init, enable, disable, handler_end, count_scope, wait_loop,
}

pub data Phase : Type 0 where
  entered working : Phase

pub record System : Type 0 where
  pub control : Control
  pub handlers : List Phase

pub data Step : System → System → Type 0 where
  begin :
      (s : System)
      → Step s (record { control = count_scope s.control; handlers = entered ∷ s.handlers })
  go_on :
      (c : Control) (xs ys : List Phase)
      → c.enabled ≡ true
      → Step
          (record { control = c; handlers = xs ++ (entered ∷ ys) })
          (record { control = c; handlers = xs ++ (working ∷ ys) })
  leave :
      (c : Control) (xs ys : List Phase) (p : Phase)
      → Step
          (record { control = c; handlers = xs ++ (p ∷ ys) })
          (record { control = handler_end c; handlers = xs ++ ys })
  turn_off : (s : System) → Step s (record s { control = disable s.control })
  turn_on : (s : System) → Step s (record s { control = enable s.control })

-- No step but `enable`.
abbrev pub Keeps : {s t : System} → Step s t → Type 0
Keeps (turn_on s) = ⊥
Keeps (begin s) = Unit
Keeps (go_on c xs ys e) = Unit
Keeps (leave c xs ys p) = Unit
Keeps (turn_off s) = Unit

pub data Run : System → System → Type 0 where
  here : {s : System} → Run s s
  next : {s t u : System} → Step s t → Run t u → Run s u

abbrev pub AllKeep : {s t : System} → Run s t → Type 0
AllKeep here = Unit
AllKeep (next st r) = Keeps st × AllKeep r

abbrev pub no_handlers : System
no_handlers = record { control = init; handlers = [] }

abbrev Counts : System → Type 0
Counts s = s.control.instance_count ≡ length s.handlers

Step-Counts : {s t : System} → Step s t → Counts s → Counts t
Step-Counts (begin s) e = unfold count_scope in omega arith
Step-Counts (go_on c xs ys h) e =
    omega (arith, length-append xs (entered ∷ ys), length-append xs (working ∷ ys))
Step-Counts (leave c xs ys p) e =
    unfold handler_end in omega (arith, length-append xs (p ∷ ys), length-append xs ys)
Step-Counts (turn_off s) e = unfold disable in e
Step-Counts (turn_on s) e = unfold enable in e

Run-Counts : {s t : System} → Run s t → Counts s → Counts t
Run-Counts here e = e
Run-Counts (next st r) e = Run-Counts r (Step-Counts st e)

abbrev pub IsIdle : Phase → Type 0
IsIdle entered = Unit
IsIdle working = ⊥

-- Disabled, and no handler works.
abbrev IsQuiet : System → Type 0
IsQuiet s = (s.control.enabled ≡ false) × All IsIdle s.handlers

All-remove : (xs ys : List Phase) (p : Phase) → All IsIdle (xs ++ (p ∷ ys)) → All IsIdle (xs ++ ys)
All-remove [] ys p h = h.1
All-remove (x ∷ xs) ys p h = (h.0, All-remove xs ys p h.1)

Step-IsQuiet : {s t : System} (st : Step s t) → Keeps st → IsQuiet s → IsQuiet t
Step-IsQuiet (begin s) k q = unfold count_scope in (q.0, (tt, q.1))
Step-IsQuiet (go_on c xs ys h) k q = absurd (cc)
Step-IsQuiet (leave c xs ys p) k q = unfold handler_end in (q.0, All-remove xs ys p q.1)
Step-IsQuiet (turn_off s) k q = unfold disable in (refl, q.1)
Step-IsQuiet (turn_on s) k q = absurd k

Run-IsQuiet : {s t : System} (r : Run s t) → AllKeep r → IsQuiet s → IsQuiet t
Run-IsQuiet here k q = q
Run-IsQuiet (next st r) k q = Run-IsQuiet r k.1 (Step-IsQuiet st k.0 q)

no_length : (hs : List Phase) → length hs ≡ 0 → hs ≡ []
no_length [] e = refl
no_length (h ∷ hs) e = absurd (omega arith)

seen_zero : (n k : ℕ) → n ≡ k → wait_loop n true [] ≡ some true → k ≡ 0
unfolding wait_loop
seen_zero n k e f = ground arith

stays_off :
    {s t : System} (r : Run s t) → AllKeep r → s.control.enabled ≡ false → t.control.enabled ≡ false
stays_off here k e = e
stays_off (next (begin s) r) k e = stays_off r k.1 (unfold count_scope in e)
stays_off (next (go_on c xs ys h) r) k e = stays_off r k.1 e
stays_off (next (leave c xs ys p) r) k e = stays_off r k.1 (unfold handler_end in e)
stays_off (next (turn_off s) r) k e = stays_off r k.1 (unfold disable in refl)
stays_off (next (turn_on s) r) k e = absurd k.0

-- `waitForDone` on any use of the control, from its first state on: where it sees the count at 0 behind
-- its `disable`, no handler is left, not even one that has not asked yet; and until `enable` is called
-- every handler that comes later returns straight away.
pub quiet_after_wait :
    {s t u : System} (r : Run no_handlers s) (w : Run (record s { control = disable s.control }) t)
    (later : Run t u)
    → AllKeep w
    → wait_loop t.control.instance_count true [] ≡ some true
    → AllKeep later
    → (t.handlers ≡ []) × All IsIdle u.handlers
quiet_after_wait {s} {t} r w later kw e kl =
    let counted = Run-Counts w (Step-Counts (turn_off s) (Run-Counts r (unfold init in refl))) in
    let empty : t.handlers ≡ [] = no_length t.handlers (seen_zero _ _ counted e) in
    let off : t.control.enabled ≡ false = stays_off w kw (unfold disable in refl) in
    (empty, (Run-IsQuiet later kl (off, rw empty tt)).1)

-- Some round finds the time over; some round finds the count at 0.
abbrev pub TimesOut : Bool → List (ℕ × Bool) → Type 0
TimesOut b [] = b ≡ false
TimesOut b ((n, b') ∷ rounds) = (b ≡ false) ⊎ TimesOut b' rounds

abbrev pub SeesZero : ℕ → List (ℕ × Bool) → Type 0
SeesZero n [] = n ≡ 0
SeesZero n ((n', b) ∷ rounds) = (n ≡ 0) ⊎ SeesZero n' rounds

at_zero : (n : ℕ) → ((n == 0) ≡ false) ⊎ (n ≡ 0)
at_zero zero = inr refl
at_zero (suc n) = inl (ground arith)

-- The loop of `waitForDone` ends as soon as a round finds the time over, whatever the counts; and it
-- returns true only where a round has found the count at 0.
pub wait_loop_ends :
    (n : ℕ) (in_time : Bool) (rounds : List (ℕ × Bool))
    → TimesOut in_time rounds
    → (r : Bool) × (wait_loop n in_time rounds ≡ some r) × ((r ≡ false) ⊎ SeesZero n rounds)
unfolding wait_loop
wait_loop_ends n in_time [] h = (n == 0, ground arith, at_zero n)
wait_loop_ends n in_time ((n', b) ∷ rounds) h = elim (Bool-cases (not (n == 0) && in_time)) [
  | inl more ↦
      let on : TimesOut b rounds = elim h [ inl z ↦ absurd (ground arith) | inr t ↦ t ] in
      let (r, e, z) = wait_loop_ends n' b rounds on in
      (r, rw more e, elim z [ inl f ↦ inl f | inr t ↦ inr (inr t) ])
  | inr over ↦ (n == 0, rw over refl, elim (at_zero n) [ inl f ↦ inl f | inr t ↦ inr (inl t) ])
]
