-- ===== src/Compliance/Identity.antt =====
-- demo_agent/compliance_case.py: the verified identities of a case, the reference and confirmation
-- patterns, and the authority that a case is bound to.
use ess_mcp.Prelude.{
  ℕ, zero, suc, ◌+◌, ◌≡◌, ◌↔◌, Bool, true, false, ◌&&◌, ◌||◌, Option, none, some, List, [], ◌∷◌,
  ◌++◌, map, arith, ltb, leb, ◌==◌, if◌then◌else◌, length, all, Text, Unicode, codes, nonblank,
  text_eq, text_eq_iff, text_eq_refl, member, lower, drop_spaces, Result, ok, ◌>>◌, require,
}
use mathlib.Core.List.{reverse, flat_map}
use ess_mcp.Memory.State.{ChatScope}

-- What the methods raise; `callback` stands for whatever a callback raised, `storage` for the store.
pub data CaseError : Type 0 where
  value_error permission_error runtime_error key_error callback storage : CaseError

abbrev is_hex : ℕ → Bool
is_hex c = (leb b'0' c && leb c b'9') || (leb b'a' c && leb c b'f') || (leb b'A' c && leb c b'F')

abbrev is_alphanumeric : ℕ → Bool
is_alphanumeric c =
    (leb b'0' c && leb c b'9') || (leb b'a' c && leb c b'z') || (leb b'A' c && leb c b'Z')

-- What follows `n` hexadecimal digits.
after_hex : ℕ → Text → Option Text
after_hex zero s = some s
after_hex (suc n) [] = none
after_hex (suc n) (c ∷ s) = let rest = after_hex n s in if is_hex c then rest else none

-- What follows a dash and `n` hexadecimal digits.
after_dash_hex : ℕ → Option Text → Option Text
unfolding after_hex
after_dash_hex n none = none
after_dash_hex n (some []) = none
after_dash_hex n (some (c ∷ s)) = if c == b'-' then after_hex n s else none

-- `_GUID.fullmatch`
unfoldable pub is_guid : Text → Bool
unfolding after_hex after_dash_hex
is_guid s =
    elim (after_dash_hex 12
      (after_dash_hex 4 (after_dash_hex 4 (after_dash_hex 4 (after_hex 8 s))))) [
        | some [] ↦ true
        | _ ↦ false
      ]

-- `_ID.fullmatch`
unfoldable pub is_reference : Text → Bool
is_reference [] = false
is_reference (c ∷ s) =
    is_alphanumeric c
    && leb (length s) 127
    && all (λ d. is_alphanumeric d || (d == b'_') || (d == b'-')) s

-- The case folding of `(?i)`, at the letters of the pattern: the two letters i without a plain dot
-- and the long s fold to ASCII letters.
unfoldable pub fold_case : Text → Text
fold_case = map λ c.
    if leb b'A' c && leb c b'Z'
    then c + 32
    else if (c == 0x130) || (c == 0x131)
    then b'i'
    else if c == 0x17F
    then b's'
    else if c == 0x212A
    then b'k'
    else c

abbrev choices : List Text → List Text → List Text
choices starts ends = flat_map (λ s. map (λ e. s ++ e) ends) starts

-- The 32 texts that `_CONFIRM` matches, up to case.
confirmations : List Text
unfolding flat_map
confirmations = choices (codes "yes that " ∷ codes "yes, that " ∷ []) (
    choices (codes "answers my question" ∷ codes "resolves my question" ∷ []) (
      choices (codes " please close " ∷ codes ", please close " ∷ [])
        (choices (codes "the case" ∷ codes "my case" ∷ []) ([] ∷ codes "." ∷ []))))

-- `value.strip()`
unfoldable pub strip : Unicode → Text → Text
unfolding drop_spaces
strip u s = reverse (drop_spaces u (reverse (drop_spaces u s)))

-- `_CONFIRM.fullmatch(message.strip())`
unfoldable pub is_confirmation : Unicode → Text → Bool
unfolding fold_case confirmations strip
is_confirmation u message = member (fold_case (strip u message)) confirmations

-- `_opaque_id`
unfoldable pub is_opaque_id : Unicode → Text → Bool
is_opaque_id u value =
    ltb 0 (length value) && leb (length value) 512 && all u.printable value && nonblank u value

pub record CaseIdentity : Type 0 where
  pub tenant_id : Text
  pub instance_id : Text
  pub manager_id : Text
  pub requester_id : Text
  pub message_id : Text
  pub private_conversation_id : Text

-- `CaseIdentity.__post_init__`
unfoldable pub case_identity : Unicode → CaseIdentity → Result CaseError CaseIdentity
unfolding is_guid is_opaque_id
case_identity u i = do
  require
      (is_guid i.tenant_id
        && is_guid i.instance_id
        && is_guid i.manager_id
        && is_guid i.requester_id)
      value_error
  require (is_opaque_id u i.message_id && is_opaque_id u i.private_conversation_id) value_error
  ok i

-- `CaseIdentity.scope`; `sha256_hex` is that of hashlib.
unfoldable pub case_scope : (Text → Text) → CaseIdentity → ChatScope
unfolding lower
case_scope sha256_hex i = record {
  tenant_id = lower i.tenant_id;
  agent_id = lower i.instance_id;
  conversation_id = codes "compliance:" ++ sha256_hex i.message_id;
}

pub record Authority : Type 0 where
  pub tenant : Text
  pub instance_id : Text
  pub manager : Text
  pub requester : Text
  pub message : Text
  pub private_conversation : Text

-- `CaseIdentity.authority`
unfoldable pub authority : CaseIdentity → Authority
authority i = record {
  tenant = lower i.tenant_id;
  instance_id = lower i.instance_id;
  manager = lower i.manager_id;
  requester = lower i.requester_id;
  message = i.message_id;
  private_conversation = i.private_conversation_id;
}

-- `record.get("authority") == identity.authority()`
unfoldable pub same_authority : Authority → Authority → Bool
same_authority a b =
    text_eq a.tenant b.tenant
    && text_eq a.instance_id b.instance_id
    && text_eq a.manager b.manager
    && text_eq a.requester b.requester
    && text_eq a.message b.message
    && text_eq a.private_conversation b.private_conversation

pub same_authority_iff : (a b : Authority) → (same_authority a b ≡ true) ↔ (a ≡ b)
unfolding same_authority
same_authority_iff a b = (
  λ h. ground (
    arith,
    text_eq_iff a.tenant b.tenant,
    text_eq_iff a.instance_id b.instance_id,
    text_eq_iff a.manager b.manager,
    text_eq_iff a.requester b.requester,
    text_eq_iff a.message b.message,
    text_eq_iff a.private_conversation b.private_conversation,
  ),
  λ e. ground (
    arith,
    text_eq_refl a.tenant,
    text_eq_refl a.instance_id,
    text_eq_refl a.manager,
    text_eq_refl a.requester,
    text_eq_refl a.message,
    text_eq_refl a.private_conversation,
  ),
)
