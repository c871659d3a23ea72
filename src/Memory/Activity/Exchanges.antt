-- ===== src/Memory/Activity/Exchanges.antt =====
-- The window of recent messages that `append_exchange` keeps.
use ess_mcp.Prelude.{
  ℕ, ◌+◌, ◌-◌, ◌≤◌, ◌≡◌, subst, true, false, Option, List, [], ◌∷◌, ◌++◌, arith, length, any, drop,
  last, length-last-le, last-append, any-append, Text, text_eq, text_eq_refl, ok,
}
use ess_mcp.Memory.State.{ChatScope, Message, State, max_recent_messages}
use ess_mcp.Memory.Activity.{
  remember_activity, user_message, assistant_message, add_exchange, append_transform,
}

-- `recent` ends with the two messages of the exchange.
pub record EndsWith (scope : ChatScope) (now : ℕ) (activity sender said answer : Text)
    (recent : List Message) : Type 0 where
  pub older : List Message
  pub split :
      recent
      ≡ older
        ++ user_message activity sender said now
          ∷ assistant_message activity scope.agent_id answer now
          ∷ []
  pub few : length recent ≤ max_recent_messages

module _ {T : Type 0} (scope : ChatScope) (now : ℕ) (activity sender said answer : Text)
    (summary : Option Text) (s : State T) where
  recent-add_exchange :
      (add_exchange scope now activity sender said answer summary s).recent
      ≡ last max_recent_messages (
          s.recent
          ++ user_message activity sender said now
            ∷ assistant_message activity scope.agent_id answer now
            ∷ [])
  unfolding add_exchange remember_activity
  recent-add_exchange = ground arith

  add_exchange-EndsWith :
      EndsWith scope now activity sender said answer
        (add_exchange scope now activity sender said answer summary s).recent
  add_exchange-EndsWith =
      let pair =
        user_message activity sender said now
        ∷ assistant_message activity scope.agent_id answer now
        ∷ [] in
      rw recent-add_exchange (record {
        older = drop (length s.recent + 2 - max_recent_messages) s.recent;
        split = last-append max_recent_messages s.recent pair (omega arith);
        few = length-last-le max_recent_messages (s.recent ++ pair);
      })

any-EndsWith :
    (scope : ChatScope) (now : ℕ) (activity sender said answer : Text) (recent : List Message)
    → EndsWith scope now activity sender said answer recent
    → any (λ m. text_eq m.activity_id activity) recent ≡ true
unfolding user_message
any-EndsWith scope now activity sender said answer recent e =
    rw (e.split, any-append) (ground (arith, text_eq_refl activity))

module _ {T : Type 0} (scope : ChatScope) (now later : ℕ) (activity sender said answer : Text)
    (summary : Option Text) (s t : State T) where
  -- After an exchange was appended for an activity that the window did not hold, the window has at
  -- most 16 messages and ends with the two new ones, and appending the activity again, at any time,
  -- changes nothing.
  pub append_transform_once :
      any (λ m. text_eq m.activity_id activity) s.recent ≡ false
      → append_transform scope now activity sender said answer summary s ≡ ok (tt, t)
      → EndsWith scope now activity sender said answer t.recent
        × (append_transform scope later activity sender said answer summary t ≡ ok (tt, t))
  unfolding append_transform
  append_transform_once new h =
      let ends = add_exchange-EndsWith scope now activity sender said answer summary s in
      let seen = any-EndsWith scope now activity sender said answer _ ends in
      let is : add_exchange scope now activity sender said answer summary s ≡ t = ground arith in
      (
        subst (λ x. EndsWith scope now activity sender said answer x.recent) is ends,
        subst (λ x. append_transform scope later activity sender said answer summary x ≡ ok (tt, x))
            is (rw (seen, append_transform)),
      )
