-- ===== src/Probe/Runner/Coercion.antt =====
-- packages/probe/src/runner.ts: what the tests by `String(…)` let through.
use qvac_atlas.Base.{ℕ, zero, suc, String, ◌≡◌, refl, true, [], ◌∷◌, one_of}
use qvac_atlas.Json.{Value, str, obj, arr, nil, cons, fields, null, to_string, text}
use qvac_atlas.Probe.Runner.Events.{
  parse_event, event, backend, termination, termination_labels, parse_typed, parse_backend,
  parse_termination, listed_text, null_or_listed,
}

-- A label inside `depth` nested arrays of one member each.
abbrev pub wrap : ℕ → String → Value
wrap zero s = str s
wrap (suc depth) s = arr (cons (wrap depth s) nil)

to_string-wrap : (depth : ℕ) (s : String) → to_string (wrap depth s) ≡ text s
unfolding to_string
to_string-wrap zero s = refl
to_string-wrap (suc depth) s = to_string-wrap depth s

abbrev pub backend_message : Value → Value
backend_message v = obj (fields (("type", str "backend") ∷ ("backend", v) ∷ []))

abbrev pub kind_message : Value → Value
kind_message v = obj (
    fields (
      ("type", str "termination")
      ∷ ("kind", v)
      ∷ ("exit_code", null)
      ∷ ("signal", null)
      ∷ ("last_completed_phase", null)
      ∷ []))

-- `parseEvent` accepts a backend event and a termination event whose label is wrapped in arrays,
-- to any depth, and keeps the array as the field of the event.
pub parse_event-wrap :
    (depth : ℕ) (device kind : String)
    → one_of ("cpu" ∷ "gpu" ∷ []) device ≡ true
    → one_of termination_labels kind ≡ true
    → (parse_event (backend_message (wrap depth device)) ≡ event (backend (wrap depth device)))
      × (parse_event (kind_message (wrap depth kind))
          ≡ event (termination (wrap depth kind) null null null))
unfolding parse_event parse_typed parse_backend parse_termination listed_text null_or_listed
parse_event-wrap depth device kind hd hk =
    (rw (to_string-wrap depth device, hd), rw (to_string-wrap depth kind, hk))
