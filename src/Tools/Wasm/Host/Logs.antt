-- ===== src/Tools/Wasm/Host/Logs.antt =====
-- tools/wasm/host.rs: the log of one execution stays small.
use cherub.Base.{
  ℕ, zero, suc, ◌+◌, ◌-◌, ◌≤◌, ◌<◌, ◌≡◌, refl, ap, sym, ◌∙◌, true, false, Bool-cases, inl, inr,
  Option, none, some, List, [], ◌∷◌, ◌++◌, All, map, length, length-append, length-take, min, Bool,
  if◌then◌else◌, ltb, ltb→lt, leb, arith, take, get_elem?, append-nil, append_assoc,
}
use mathlib.Core.List.{map-append}
use cherub.Base.Bytes.{lit}
use cherub.Tools.Wasm.Capabilities.{Capabilities}
use cherub.Tools.Wasm.Host.{
  max_log_entries, max_log_message_bytes, LogEntry, HostState, new, begins_char, kept_message,
  push_log, log,
}

-- Calls of `log`, one after the other; none if one panics.
abbrev pub log_with : Option HostState → (HostState → Option HostState) → Option HostState
log_with none f = none
log_with (some s) f = f s

abbrev pub log_all : List LogEntry → HostState → Option HostState
log_all [] s = some s
log_all (e ∷ es) s = log_with (log e.level e.message e.timestamp_millis s) (log_all es)

-- What the log shows of a call: its message, cut if it is too long.
abbrev pub shown : LogEntry → LogEntry
shown e = record e {
  message =
      (if ltb max_log_message_bytes (length e.message)
        then take max_log_message_bytes e.message ++ lit " [truncated]"
        else e.message);
}

-- No cut is inside of a character.
abbrev pub IsCuttable : LogEntry → Type 0
IsCuttable e = begins_char (get_elem? e.message max_log_message_bytes) ≡ true

-- The log of a state after these calls.
pub record IsLogOf (calls : List LogEntry) (s : HostState) : Type 0 where
  pub first_calls : s.logs ≡ take max_log_entries (map shown calls)
  pub others_counted : s.logs_dropped ≡ length calls - max_log_entries
  pub enabled_below : s.logging_enabled ≡ ltb (length calls) max_log_entries

module _ {ℓ} {A : Type ℓ} where
  take-snoc :
      (n : ℕ) (xs : List A) (x : A) → length xs < n → take n (xs ++ x ∷ []) ≡ take n xs ++ x ∷ []
  take-snoc zero xs x h = ground arith
  take-snoc (suc zero) [] x h = refl
  take-snoc (suc (suc n)) [] x h = refl
  take-snoc (suc n) (y ∷ xs) x h = ap (λ t. y ∷ t) (take-snoc n xs x (omega (arith, h)))

  take-full : (n : ℕ) (xs : List A) (x : A) → n ≤ length xs → take n (xs ++ x ∷ []) ≡ take n xs
  take-full zero xs x h = refl
  take-full (suc n) [] x h = ground arith
  take-full (suc n) (y ∷ xs) x h = ap (λ t. y ∷ t) (take-full n xs x (omega (arith, h)))

length-shown : (es : List LogEntry) → length (map shown es) ≡ length es
length-shown [] = refl
length-shown (e ∷ es) = ap suc (length-shown es)

kept_message-shown : (e : LogEntry) → IsCuttable e → kept_message e.message ≡ some (shown e).message
unfolding kept_message
kept_message-shown e cuttable = elim (Bool-cases (ltb max_log_message_bytes (length e.message))) [
  | inl long ↦ rw (long, cuttable) refl
  | inr small ↦ rw small refl
]

map-shown-snoc :
    (calls : List LogEntry) (e : LogEntry)
    → map shown (calls ++ e ∷ []) ≡ map shown calls ++ shown e ∷ []
map-shown-snoc calls e = map-append shown calls (e ∷ [])

logs-below :
    (calls : List LogEntry) (e : LogEntry)
    → length calls < max_log_entries
    → take max_log_entries (map shown (calls ++ e ∷ []))
      ≡ take max_log_entries (map shown calls) ++ shown e ∷ []
logs-below calls e below =
    rw (map-shown-snoc calls e)
      (take-snoc max_log_entries (map shown calls) (shown e) (rw (length-shown calls) below))

logs-full :
    (calls : List LogEntry) (e : LogEntry)
    → max_log_entries ≤ length calls
    → take max_log_entries (map shown (calls ++ e ∷ [])) ≡ take max_log_entries (map shown calls)
logs-full calls e full =
    rw (map-shown-snoc calls e)
      (take-full max_log_entries (map shown calls) (shown e) (rw (length-shown calls) full))

-- The state after a call that is logged.
abbrev pushed : LogEntry → HostState → HostState
pushed e s =
    let logs = s.logs ++ shown e ∷ [] in
    record s {
      logs = logs;
      logging_enabled = (if leb max_log_entries (length logs) then false else s.logging_enabled);
    }

log-pushed :
    (e : LogEntry) (s : HostState)
    → IsCuttable e
    → s.logging_enabled ≡ true
    → log e.level e.message e.timestamp_millis s ≡ some (pushed e s)
unfolding log push_log
log-pushed e s cuttable enabled =
    ap
      (λ b.
        if b
        then push_log e.level e.timestamp_millis (kept_message e.message) s
        else some (record s { logs_dropped = s.logs_dropped + 1 }))
      enabled
    ∙ ap (λ m. push_log e.level e.timestamp_millis m s) (kept_message-shown e cuttable)

enabled-below :
    (n logged calls : ℕ) (enabled : Bool)
    → logged ≡ n + 1
    → calls ≡ n + 1
    → enabled ≡ true
    → n < max_log_entries
    → (if leb max_log_entries logged then false else enabled) ≡ ltb calls max_log_entries
enabled-below n logged calls enabled e1 e2 e3 few = ground arith

log-below :
    (calls : List LogEntry) (e : LogEntry) (s : HostState)
    → IsCuttable e
    → IsLogOf calls s
    → ltb (length calls) max_log_entries ≡ true
    → (t : HostState) × (log e.level e.message e.timestamp_millis s ≡ some t)
      × IsLogOf (calls ++ e ∷ []) t
log-below calls e s cuttable h below =
    let few : length calls < max_log_entries = ltb→lt _ _ below in
    let grown : length (calls ++ e ∷ []) ≡ length calls + 1 = length-append calls (e ∷ []) in
    let first = ap (λ l. l ++ shown e ∷ []) h.first_calls ∙ sym (logs-below calls e few) in
    let logged : length (s.logs ++ shown e ∷ []) ≡ length calls + 1 =
      ap (λ l. length l) first
      ∙ length-take max_log_entries (map shown (calls ++ e ∷ []))
      ∙ ap (λ n. min max_log_entries n) (length-shown (calls ++ e ∷ []) ∙ grown)
      ∙ omega (arith, few) in
    (
      pushed e s,
      log-pushed e s cuttable (h.enabled_below ∙ below),
      record {
        first_calls = first;
        others_counted = omega (arith, h.others_counted, few, grown);
        enabled_below = enabled-below _ _ _ _ logged grown (h.enabled_below ∙ below) few;
      },
    )

ltb-full : (n : ℕ) → max_log_entries ≤ n → ltb n max_log_entries ≡ false
ltb-full n h = ground arith

log-full :
    (calls : List LogEntry) (e : LogEntry) (s : HostState)
    → IsLogOf calls s
    → ltb (length calls) max_log_entries ≡ false
    → (t : HostState) × (log e.level e.message e.timestamp_millis s ≡ some t)
      × IsLogOf (calls ++ e ∷ []) t
unfolding log
log-full calls e s h full =
    let reached : max_log_entries ≤ length calls = ground arith in
    let grown : length (calls ++ e ∷ []) ≡ length calls + 1 = length-append calls (e ∷ []) in
    (
      record s { logs_dropped = s.logs_dropped + 1 },
      rw (h.enabled_below, full) refl,
      record {
        first_calls = h.first_calls ∙ sym (logs-full calls e reached);
        others_counted = omega (arith, h.others_counted, reached, grown);
        enabled_below =
            h.enabled_below
            ∙ full
            ∙ sym (ltb-full (length (calls ++ e ∷ [])) (omega (arith, reached, grown)));
      },
    )

log-step :
    (calls : List LogEntry) (e : LogEntry) (s : HostState)
    → IsCuttable e
    → IsLogOf calls s
    → (t : HostState) × (log e.level e.message e.timestamp_millis s ≡ some t)
      × IsLogOf (calls ++ e ∷ []) t
log-step calls e s cuttable h = elim (Bool-cases (ltb (length calls) max_log_entries)) [
  | inl below ↦ log-below calls e s cuttable h below
  | inr full ↦ log-full calls e s h full
]

log_all-IsLog_by :
    (calls rest : List LogEntry) (s : HostState)
    → All IsCuttable rest
    → IsLogOf calls s
    → (t : HostState) × (log_all rest s ≡ some t) × IsLogOf (calls ++ rest) t
log_all-IsLog_by calls [] s cuttable h = (s, refl, rw (append-nil calls) h)
log_all-IsLog_by calls (e ∷ rest) s cuttable h =
    let (t, step, held) = log-step calls e s cuttable.0 h in
    let (u, steps, reached) = log_all-IsLog_by (calls ++ e ∷ []) rest t cuttable.1 held in
    (u, rw step steps, rw⁻¹ (append_assoc calls (e ∷ []) rest) reached)

fresh_log : (capabilities : Capabilities) → IsLogOf [] (new capabilities)
unfolding new
fresh_log capabilities = record { first_calls = refl; others_counted = refl; enabled_below = refl }

-- Whatever a tool logs in one execution, if no message longer than 4096 bytes has a character that
-- goes over its byte 4096: no call panics, the log shows the first 1000 calls in their order, with
-- the messages of more than 4096 bytes cut to these and marked, and the others are counted.
pub log_all-IsLogOf :
    (capabilities : Capabilities) (calls : List LogEntry)
    → All IsCuttable calls
    → (s : HostState) × (log_all calls (new capabilities) ≡ some s) × IsLogOf calls s
log_all-IsLogOf capabilities calls cuttable =
    log_all-IsLog_by [] calls (new capabilities) cuttable (fresh_log capabilities)
