-- ===== src/Approvals/Call/Checked.antt =====
-- What is known of a call that `_validated_call` accepts.
use ess_mcp.Prelude.{
  ℕ, ◌-◌, ◌≤◌, ◌≡◌, true, false, Option, none, some, arith, Text, member, Option-cases, inl, inr,
  ok, Result-cases,
}
use ess_mcp.Memory.State.{utf8_size}
use ess_mcp.Approvals.Json.{Json, max_json_depth, max_argument_bytes, visit}
use ess_mcp.Approvals.Json.Size.{values, nesting, visit-fits}
use ess_mcp.Approvals.Call.{Encoding, servers, is_tool_name, is_object, check_text, validated_call}

check_text-ok :
    (e : Encoding) (printed : Option Text) (raw : Text)
    → check_text e printed ≡ ok raw
    → (printed ≡ some raw)
      × ((size : ℕ) × (utf8_size raw ≡ some size) × (size ≤ max_argument_bytes))
      × (e.scanner.has_credentials raw ≡ false)
unfolding check_text
check_text-ok e none raw h = absurd (ground (arith, h))
check_text-ok e (some t) raw h = elim (Option-cases (utf8_size t)) [
  | inl bad ↦ absurd (ground (arith, h, bad))
  | inr (size, good) ↦
      let same : t ≡ raw = ground (arith, h, good) in
      (
        ground (arith, same),
        (size, ground (arith, good, same), ground (arith, h, good)),
        ground (arith, h, good, same),
      )
]

-- A call that is accepted is of a configured server, with a tool name and an object of arguments that
-- hold at most 16000 values and keys, nest at most 30 deep, and are encoded without credentials in at
-- most 16000 bytes; its digest is that of the server, the tool and the arguments.
pub validated_call-ok :
    (e : Encoding) (server tool : Text) (args : Json) (digest raw : Text)
    → validated_call e server tool args ≡ ok (digest, raw)
    → (member server servers ≡ true)
      × (is_tool_name tool ≡ true)
      × (is_object args ≡ true)
      × (values args ≤ max_argument_bytes)
      × (nesting args ≤ max_json_depth - 2)
      × (e.dumps args ≡ some raw)
      × ((size : ℕ) × (utf8_size raw ≡ some size) × (size ≤ max_argument_bytes))
      × (e.scanner.has_credentials raw ≡ false)
      × (digest ≡ e.sha256 server tool args)
unfolding validated_call
validated_call-ok e server tool args digest raw h =
    elim (Result-cases (visit e.scanner args 0 max_argument_bytes)) [
      | inr (reason, bad) ↦ absurd (ground (arith, h, bad))
      | inl (left, good) ↦ elim (Result-cases (check_text e (e.dumps args))) [
        | inr (reason, bad) ↦ absurd (ground (arith, h, good, bad))
        | inl (text, encoded) ↦
            let same : text ≡ raw = ground (arith, h, good, encoded) in
            let (printed, bounded, clean) = check_text-ok e (e.dumps args) text encoded in
            let fits = visit-fits e.scanner args 0 max_argument_bytes left good in
            (
              ground (arith, h),
              ground (arith, h),
              ground (arith, h),
              omega (arith, fits.0),
              omega (arith, fits.1),
              rw (← same) printed,
              rw (← same) bounded,
              rw (← same) clean,
              ground (arith, h, good, encoded),
            )
      ]
    ]
