-- ===== src/Governance/Denied.antt =====
-- demo_agent/governance.py: a deny-list stays in force, over later calls and restarts.
use ess_mcp.Prelude.{
  ℕ, ◌≡◌, refl, Bool, true, not, ◌&&◌, ◌||◌, List, [], ◌∷◌, arith, any, any-append, Text, Unicode,
  text_eq, text_eq_iff, ◌∙◌, member, lookup, Option-cases, inl, inr, Bool-cases,
}
use ess_mcp.Compliance.Identity.{strip}
use ess_mcp.Governance.Switches.{
  blocked, GovernanceState, load, persist, record_event, clear_audit, disable_instance,
  enable_instance, cleaned, add_pattern, set_tool_denylist, covers, first_rule, is_tool_blocked,
  record_tool_block, record_run_blocked,
}
use ess_mcp.Governance.Calls.{
  Call, disables, enables, denies, clears, notes_tool, notes_run, restarts, or_same, after,
  after_all, Each, file-load,
}

-- The call writes the file, if it has to, and does not replace the deny-list.
abbrev pub KeepsRules : Call → Type 0
KeepsRules (disables written now k reason actor) = written ≡ true
KeepsRules (enables written now k actor) = written ≡ true
KeepsRules (denies written now patterns actor) = ⊥
KeepsRules (clears written) = written ≡ true
KeepsRules _ = Unit {0}

module _ (u : Unicode) (lower : Text → Text) (server tool : Text) where
  -- The rule, stripped, is not empty, and is about the tool.
  abbrev pub is_rule_for : Text → Bool
  is_rule_for p = not (text_eq (strip u p) []) && covers lower server tool (strip u p)

  first_rule-any :
      (rules : List Text)
      → blocked (first_rule lower server tool rules) ≡ any (covers lower server tool) rules
  unfolding first_rule blocked
  first_rule-any [] = refl
  first_rule-any (p ∷ rules) = ground (arith, first_rule-any rules)

  member-any :
      (p : Text) (rules : List Text)
      → covers lower server tool p ≡ true
      → member p rules ≡ true
      → any (covers lower server tool) rules ≡ true
  unfolding member
  member-any p [] h m = cc
  member-any p (q ∷ rules) h m = elim (Bool-cases (text_eq p q)) [
    | inl same ↦ rw (← (text_eq_iff p q).0 same) (rw h refl)
    | inr other ↦ ground (arith, member-any p rules h)
  ]

  add_pattern-any :
      (kept : List Text) (p : Text)
      → any (covers lower server tool) kept ≡ true
      → any (covers lower server tool) (add_pattern kept p) ≡ true
  unfolding add_pattern
  add_pattern-any kept [] h = h
  add_pattern-any kept (c ∷ r) h =
      ground (arith, any-append (covers lower server tool) kept ((c ∷ r) ∷ []))

  add_pattern-rule :
      (kept : List Text) (p : Text)
      → (not (text_eq p []) && covers lower server tool p) ≡ true
      → any (covers lower server tool) (add_pattern kept p) ≡ true
  unfolding add_pattern text_eq
  add_pattern-rule kept [] h = cc
  add_pattern-rule kept (c ∷ r) h =
      ground
        (arith, any-append (covers lower server tool) kept ((c ∷ r) ∷ []), member-any (c ∷ r) kept)

  cleaned-any :
      (kept patterns : List Text)
      → (any (covers lower server tool) kept || any is_rule_for patterns) ≡ true
      → any (covers lower server tool) (cleaned u kept patterns) ≡ true
  unfolding cleaned
  cleaned-any kept [] h = ground arith
  cleaned-any kept (p ∷ patterns) h =
      cleaned-any (add_pattern kept (strip u p)) patterns
        (ground (arith, h, add_pattern-any kept (strip u p), add_pattern-rule kept (strip u p)))

  -- blocked now, and blocked again after a restart
  record IsDenied (s : GovernanceState) : Type 0 where
    now : any (covers lower server tool) s.denylist ≡ true
    later : any (covers lower server tool) (load s.file).denylist ≡ true

  IsDenied-persist :
      (s : GovernanceState)
      → any (covers lower server tool) s.denylist ≡ true
      → IsDenied (persist true s)
  unfolding persist load
  IsDenied-persist s h = record { now = h; later = h }

  enable-IsDenied :
      (id actor : Text) (now : ℕ) (s : GovernanceState)
      → IsDenied s
      → IsDenied (enable_instance true now id actor s)
  unfolding enable_instance record_event
  enable-IsDenied id actor now s h = elim (Option-cases (lookup id s.disabled)) [
    | inl absent ↦ rw (absent, enable_instance) h
    | inr (r, present) ↦ rw (present, enable_instance) (IsDenied-persist _ h.now)
  ]

  disable-IsDenied :
      (id reason actor : Text) (now : ℕ) (s : GovernanceState)
      → IsDenied s
      → IsDenied (or_same s (disable_instance true now id reason actor s))
  unfolding disable_instance record_event
  disable-IsDenied [] reason actor now s h = h
  disable-IsDenied (c ∷ id) reason actor now s h = IsDenied-persist _ h.now

  after-IsDenied :
      (c : Call) (s : GovernanceState) → KeepsRules c → IsDenied s → IsDenied (after u c s)
  unfolding after clear_audit record_event load record_tool_block record_run_blocked
  after-IsDenied (disables written now id reason actor) s k h =
      rw k (disable-IsDenied id reason actor now s h)
  after-IsDenied (enables written now id actor) s k h = rw k (enable-IsDenied id actor now s h)
  after-IsDenied (denies written now patterns actor) s k h = absurd k
  after-IsDenied (clears written) s k h = rw k (IsDenied-persist _ h.now)
  after-IsDenied (notes_tool now sv tl d run_id actor) s k h = record {
    now = h.now;
    later = h.later;
  }
  after-IsDenied (notes_run now i d actor scenario) s k h = record { now = h.now; later = h.later }
  after-IsDenied restarts s k h = record { now = h.later; later = rw (file-load s.file) h.later }

  after_all-IsDenied :
      (cs : List Call) (s : GovernanceState)
      → Each KeepsRules cs
      → IsDenied s
      → IsDenied (after_all u cs s)
  after_all-IsDenied [] s k h = h
  after_all-IsDenied (c ∷ cs) s k h =
      after_all-IsDenied cs (after u c s) k.1 (after-IsDenied c s k.0 h)

  -- Once a deny-list with a rule for a tool has been set, and the file could be written, the tool is
  -- blocked over any calls and restarts, as long as the calls write the file too and none sets another
  -- deny-list.
  pub denied_stays :
      (now : ℕ) (patterns : List Text) (actor : Text) (cs : List Call) (s : GovernanceState)
      → any is_rule_for patterns ≡ true
      → Each KeepsRules cs
      → blocked (
          is_tool_blocked lower server tool
            (after_all u cs (set_tool_denylist u true now patterns actor s)))
        ≡ true
  unfolding set_tool_denylist is_tool_blocked record_event
  denied_stays now patterns actor cs s h k =
      let set = IsDenied-persist _ (cleaned-any [] patterns h) in
      first_rule-any _ ∙ (after_all-IsDenied cs _ k set).now
