-- ===== src/Governance/Lasting.antt =====
-- demo_agent/governance.py: an instance that was switched off stays off, over later calls and restarts.
use ess_mcp.Prelude.{
  ℕ, ◌≡◌, refl, true, false, Option, none, some, List, [], ◌∷◌, Text, Unicode, text_eq,
  text_eq_refl, codes, subst, lookup, insert, lookup-insert, lookup-remove, Option-cases, inl, inr,
  Bool-cases,
}
use ess_mcp.Governance.Switches.{
  blocked, GovernanceEvent, GovernanceState, load, persist, record_event, clear_audit,
  disable_instance, enable_instance, disabled_for, is_instance_disabled, set_tool_denylist,
  record_tool_block, record_run_blocked, or_default,
}
use ess_mcp.Governance.Calls.{
  Call, disables, enables, denies, clears, notes_tool, notes_run, restarts, after, after_all, Each,
  file-load,
}

-- The call writes the file, if it has to, and does not enable the instance.
abbrev pub KeepsOff : Text → Call → Type 0
KeepsOff id (disables written now k reason actor) = written ≡ true
KeepsOff id (enables written now k actor) = (written ≡ true) × (text_eq k id ≡ false)
KeepsOff id (denies written now patterns actor) = written ≡ true
KeepsOff id (clears written) = written ≡ true
KeepsOff id _ = Unit {0}

abbrev Holds : (GovernanceState → Type 0) → Option GovernanceState → Type 0
Holds P none = Unit {0}
Holds P (some s) = P s

-- off now, and off again after a restart
pub record IsOff (id : Text) (s : GovernanceState) : Type 0 where
  pub now : blocked (is_instance_disabled id s) ≡ true
  pub later : blocked (is_instance_disabled id (load s.file)) ≡ true

disabled_for-or_default :
    (reason : Text) (c : ℕ) (other : Text)
    → blocked (disabled_for (some (or_default reason (c ∷ other)))) ≡ true
unfolding blocked disabled_for
disabled_for-or_default [] c other = refl
disabled_for-or_default (d ∷ r) c other = refl

-- The disabled instances after a call that wrote the file are those that a restart reads.
IsOff-persist :
    (id : Text) (s : GovernanceState)
    → blocked (disabled_for (lookup id s.disabled)) ≡ true
    → IsOff id (persist true s)
unfolding persist is_instance_disabled load
IsOff-persist id s h = record { now = h; later = h }

IsOff-event :
    (id : Text) (e : GovernanceEvent) (s : GovernanceState)
    → IsOff id s
    → IsOff id (record_event e s)
unfolding record_event is_instance_disabled load
IsOff-event id e s h = record { now = h.now; later = h.later }

disable-IsOff :
    (u : Unicode) (id k reason actor : Text) (now : ℕ) (s : GovernanceState)
    → IsOff id s
    → IsOff id (after u (disables true now k reason actor) s)
unfolding after disable_instance record_event is_instance_disabled
disable-IsOff u id [] reason actor now s h = h
disable-IsOff u id (c ∷ k) reason actor now s h = IsOff-persist id _ (
    rw (lookup-insert (c ∷ k) id (or_default reason _) s.disabled)
      (elim (Bool-cases (text_eq (c ∷ k) id)) [
        | inl same ↦ rw same (disabled_for-or_default reason _ _)
        | inr other ↦ rw other h.now
      ]))

disabled_now :
    (c : ℕ) (id reason : Text) (s : GovernanceState)
    → blocked (
        disabled_for (
          lookup (c ∷ id) (
            insert
              (c ∷ id)
              (or_default reason (codes "Disabled by control plane operator"))
              s.disabled)))
      ≡ true
disabled_now c id reason s =
    rw (lookup-insert (c ∷ id) (c ∷ id) (or_default reason _) s.disabled, text_eq_refl (c ∷ id))
      (disabled_for-or_default reason _ _)

enable-IsOff :
    (id k actor : Text) (now : ℕ) (s : GovernanceState)
    → text_eq k id ≡ false
    → IsOff id s
    → IsOff id (enable_instance true now k actor s)
unfolding enable_instance record_event is_instance_disabled
enable-IsOff id k actor now s other h = elim (Option-cases (lookup k s.disabled)) [
  | inl absent ↦ rw (absent, enable_instance) h
  | inr (r, present) ↦
      rw (present, enable_instance)
        (IsOff-persist id _ (rw (lookup-remove k id s.disabled, other) h.now))
]

after-IsOff :
    (u : Unicode) (id : Text) (c : Call) (s : GovernanceState)
    → KeepsOff id c
    → IsOff id s
    → IsOff id (after u c s)
unfolding after set_tool_denylist clear_audit record_event is_instance_disabled load
    record_tool_block record_run_blocked
after-IsOff u id (disables written now k reason actor) s k' h =
    rw k' (disable-IsOff u id k reason actor now s h)
after-IsOff u id (enables written now k actor) s k' h =
    rw k'.0 (enable-IsOff id k actor now s k'.1 h)
after-IsOff u id (denies written now patterns actor) s k' h = rw k' (IsOff-persist id _ h.now)
after-IsOff u id (clears written) s k' h = rw k' (IsOff-persist id _ h.now)
after-IsOff u id (notes_tool now server tool d run_id actor) s k' h = IsOff-event id _ s h
after-IsOff u id (notes_run now i d actor scenario) s k' h = IsOff-event id _ s h
after-IsOff u id restarts s k' h = record { now = h.later; later = rw (file-load s.file) h.later }

after_all-IsOff :
    (u : Unicode) (id : Text) (cs : List Call) (s : GovernanceState)
    → Each (KeepsOff id) cs
    → IsOff id s
    → IsOff id (after_all u cs s)
after_all-IsOff u id [] s k h = h
after_all-IsOff u id (c ∷ cs) s k h =
    after_all-IsOff u id cs (after u c s) k.1 (after-IsOff u id c s k.0 h)

disable_instance-IsOff :
    (now c : ℕ) (id reason actor : Text) (s : GovernanceState)
    → Holds (IsOff (c ∷ id)) (disable_instance true now (c ∷ id) reason actor s)
unfolding disable_instance persist record_event is_instance_disabled load
disable_instance-IsOff now c id reason actor s = record {
  now = disabled_now c id reason s;
  later = disabled_now c id reason s;
}

-- Once an operator has disabled an instance, and the file could be written, it stays disabled over any
-- calls and restarts, as long as the calls write the file too and none enables that instance.
pub disabled_stays :
    (u : Unicode) (now : ℕ) (id reason actor : Text) (cs : List Call) (s t : GovernanceState)
    → disable_instance true now id reason actor s ≡ some t
    → Each (KeepsOff id) cs
    → blocked (is_instance_disabled id (after_all u cs t)) ≡ true
unfolding disable_instance
disabled_stays u now [] reason actor cs s t done k = cc
disabled_stays u now (c ∷ id) reason actor cs s t done k =
    (after_all-IsOff u (c ∷ id) cs t k
      (subst (Holds (IsOff (c ∷ id))) done (disable_instance-IsOff now c id reason actor s))).now
