-- ===== src/CaseDesk/Bindings.antt =====
-- demo_agent/case_desk.py, `load_bindings`: which colleague works for which function.
use ess_mcp.Prelude.{
  ◌+◌, ◌≤◌, ◌≡◌, refl, ◌∙◌, Bool, true, false, not, ◌&&◌, Option, none, some, List, [], ◌∷◌, ◌++◌,
  arith, ltb, leb, if◌then◌else◌, length, length-append, any, any-append, Text, codes, text_eq,
  text_eq_iff, member, lower, Bool-cases, inl, inr,
}
use ess_mcp.CaseDesk.Event.{is_empty}

abbrev pub functions : List Text
functions = codes "it" ∷ codes "hr" ∷ codes "compliance" ∷ codes "supply" ∷ []

-- An entry of the JSON array. `supported`: it is an object with known fields; a value is `none` if it is
-- no text (`servers`: no list of texts), and empty where it is missing.
pub record BindingItem : Type 0 where
  pub supported : Bool
  pub function : Text
  pub servers : Option (List Text)
  pub name : Option Text
  pub system : Option Text
  pub skill : Option Text
  pub instance_app_id : Option Text
  pub agentic_user_id : Option Text
  pub manager_id : Option Text
  pub queue : Option Text

pub record DeskBinding : Type 0 where
  pub function : Text
  pub name : Text
  pub system : Text
  pub skill : Text
  pub instance_app_id : Text
  pub agentic_user_id : Text
  pub manager_id : Text
  pub queue : Text
  pub servers : List Text

abbrev is_short : Option Text → Bool
is_short none = false
is_short (some t) = leb (length t) 120

abbrev or_blank : Option Text → Text
or_blank none = []
or_blank (some t) = t

abbrev or_no_servers : Option (List Text) → List Text
or_no_servers none = []
or_no_servers (some ts) = ts

-- the values of an entry are short texts, and the three that matter are there
unfoldable pub has_values : BindingItem → Bool
has_values i =
    is_short i.name
    && is_short i.system
    && is_short i.skill
    && is_short i.instance_app_id
    && is_short i.agentic_user_id
    && is_short i.manager_id
    && is_short i.queue
    && not (is_empty (or_blank i.name))
    && not (is_empty (or_blank i.system))
    && not (is_empty (or_blank i.skill))

abbrev has_servers : Option (List Text) → Bool
has_servers none = false
has_servers (some ts) = true

-- `any(binding.function == function for binding in result)`
unfoldable pub is_bound : Text → List DeskBinding → Bool
is_bound f = any (λ b. text_eq b.function f)

unfoldable pub binding_of : BindingItem → DeskBinding
binding_of i = record {
  function = i.function;
  name = or_blank i.name;
  system = or_blank i.system;
  skill = or_blank i.skill;
  instance_app_id = lower (or_blank i.instance_app_id);
  agentic_user_id = lower (or_blank i.agentic_user_id);
  manager_id = lower (or_blank i.manager_id);
  queue = or_blank i.queue;
  servers = or_no_servers i.servers;
}

unfoldable pub is_acceptable : BindingItem → List DeskBinding → Bool
is_acceptable i result =
    i.supported
    && member i.function functions
    && not (is_bound i.function result)
    && has_servers i.servers
    && has_values i

-- The loop of `load_bindings`; `none` is its `ValueError`.
unfoldable pub load_items : List BindingItem → List DeskBinding → Option (List DeskBinding)
load_items [] result = some result
load_items (i ∷ is) result =
    let rest = load_items is (result ++ (binding_of i ∷ [])) in
    if is_acceptable i result then rest else none

-- `load_bindings`, on the array
unfoldable pub load_bindings : List BindingItem → Option (List DeskBinding)
load_bindings items = if ltb (length functions) (length items) then none else load_items items []

-- Of a list of bindings: every function is known, and none is bound twice.
abbrev pub AreDistinct : List DeskBinding → Type 0
AreDistinct [] = Unit {0}
AreDistinct (b ∷ bs) =
    (member b.function functions ≡ true) × (is_bound b.function bs ≡ false) × AreDistinct bs

AreDistinct-append :
    (bs : List DeskBinding) (b : DeskBinding)
    → member b.function functions ≡ true
    → is_bound b.function bs ≡ false
    → AreDistinct bs
    → AreDistinct (bs ++ (b ∷ []))
unfolding is_bound
AreDistinct-append [] b known free h = (known, refl, tt)
AreDistinct-append (c ∷ cs) b known free h = (
  h.0,
  any-append (λ d. text_eq d.function c.function) cs (b ∷ [])
      ∙ ground
          (arith, free, h.1, text_eq_iff c.function b.function, text_eq_iff b.function c.function),
  AreDistinct-append cs b known (ground (arith, free)) h.2,
)

load_items-AreDistinct :
    (is : List BindingItem) (result loaded : List DeskBinding)
    → load_items is result ≡ some loaded
    → AreDistinct result
    → AreDistinct loaded × (length loaded ≡ length result + length is)
unfolding load_items is_acceptable binding_of
load_items-AreDistinct [] result loaded h k = ground (arith, h, k)
load_items-AreDistinct (i ∷ is) result loaded h k = elim (Bool-cases (is_acceptable i result)) [
  | inr bad ↦ absurd (ground (arith, h, bad))
  | inl good ↦
      let (distinct, n) =
        load_items-AreDistinct is (result ++ (binding_of i ∷ [])) loaded (ground (arith, h, good)) (
          AreDistinct-append result (binding_of i) (ground (arith, good)) (ground (arith, good))
            k) in
      (distinct, omega (arith, n, length-append result (binding_of i ∷ [])))
]

-- Bindings that are loaded are one for each entry, at most four, of known functions, and no function is
-- bound twice.
pub load_bindings-AreDistinct :
    (items : List BindingItem) (loaded : List DeskBinding)
    → load_bindings items ≡ some loaded
    → AreDistinct loaded × (length loaded ≡ length items) × (length loaded ≤ length functions)
unfolding load_bindings
load_bindings-AreDistinct items loaded h =
    elim (Bool-cases (ltb (length functions) (length items))) [
      | inl many ↦ absurd (ground (arith, h, many))
      | inr few ↦
          let (distinct, n) = load_items-AreDistinct items [] loaded (ground (arith, h, few)) tt in
          (distinct, omega (arith, n), ground (arith, few, n))
    ]
