-- ===== src/Memory/Update/Outcomes.antt =====
-- What an update leaves stored, whatever its outcome.
use mathlib.Core.Bool.{decide}
use ess_mcp.Prelude.{
  ℕ, zero, suc, ◌≤◌, ◌≡◌, refl, sym, ap, subst, ◌⊎◌, inl, inr, true, false, Option, none, some,
  arith, ok, err, Result-cases, Bool-cases,
}
use ess_mcp.Memory.State.{StoreError, ChatScope, State, State-discrete, validate_state}
use ess_mcp.Memory.Storage.{Cell, Config, snapshot, decode, encode, compare_and_swap}
use ess_mcp.Memory.Update.{
  Moment, Transform, Attempt, finished, conflict, swap, write, transform_and_write, attempt_on,
  update_loop, update,
}
use ess_mcp.Memory.Update.Honest.{compare_and_swap-Later}
use ess_mcp.Memory.Update.Atomic.{stamp, stamp, Attempt-cases, attempt_conflict}

abbrev cell_of : {A T : Type 0} → Attempt A T → Cell T
cell_of (finished r c) = c
cell_of (conflict c) = c

-- The other writers keep `P`.
pub record Keep {T : Type 0} (P : Cell T → Type 0) (moments : ℕ → Moment T) : Type 0 where
  pub before : (n : ℕ) (c : Cell T) → P c → P ((moments n).before c)
  pub between : (n : ℕ) (c : Cell T) → P c → P ((moments n).between c)

module _ {A T : Type 0} (g : Config T) (scope : ChatScope) (P : Cell T → Type 0)
    (writes : (version : Option ℕ) (s : State T) (x : State T) (c d : Cell T)
      → encode g scope x ≡ ok s
      → P c
      → compare_and_swap version s c ≡ ok (true, d)
      → P d) where
  write_keeps :
      (m : Moment T) (a : A) (version : Option ℕ) (s : State T) (c : Cell T)
      → P (m.between c)
      → P (cell_of (write g scope m a version s c))
  unfolding write swap
  write_keeps m a version s c p = elim (Result-cases (encode g scope (stamp s m.write_at))) [
    | inl (t, e) ↦ elim (Bool-cases m.open_at_write) [
      | inl o ↦ elim (Result-cases (compare_and_swap version t (m.between c))) [
        | inl ((true, d), e') ↦
            rw (e, o, e', write, swap)
              (writes version t (stamp s m.write_at) (m.between c) d e p e')
        | inl ((false, d), e') ↦
            rw (e, o, e', write, swap)
              (subst P (sym ((compare_and_swap-Later version t (m.between c) false d e').1 refl)) p)
        | inr (x, e') ↦ rw (e, o, e', write, swap) p
      ]
      | inr o ↦ rw (e, o, write) p
    ]
    | inr (x, e) ↦ rw (e, write) p
  ]

  transform_and_write_keeps :
      (m : Moment T) (f : Transform A T) (s : State T) (version : Option ℕ) (c : Cell T)
      → P c
      → P (m.between c)
      → P (cell_of (transform_and_write g scope m f s version c))
  unfolding transform_and_write
  transform_and_write_keeps m f s version c p q = elim (Result-cases (f s)) [
    | inl ((a, t), e) ↦
        elim (Result-cases (validate_state g.unicode g.options g.tasks_valid scope t)) [
          | inl (y, e') ↦ elim (Bool-cases (decide (State-discrete g.same t s))) [
            | inl same ↦ rw (e, e', same, transform_and_write) p
            | inr other ↦ rw (e, e', other, transform_and_write) (write_keeps m a version t c q)
          ]
          | inr (x, e') ↦ rw (e, e', transform_and_write) p
        ]
    | inr (x, e) ↦ rw (e, transform_and_write) p
  ]

  attempt_keeps :
      (m : Moment T) (f : Transform A T) (c : Cell T)
      → P c
      → P (m.between c)
      → P (cell_of (attempt_on g scope m f c))
  unfolding attempt_on
  attempt_keeps m f c p q = elim (Bool-cases m.open_at_read) [
    | inl o ↦ elim (Result-cases (snapshot g scope m.read_at c)) [
      | inl ((s, version), e) ↦
          rw (o, e, attempt_on) (transform_and_write_keeps m f s version c p q)
      | inr (x, e) ↦ rw (o, e, attempt_on) p
    ]
    | inr o ↦ rw (o, attempt_on) p
  ]

  module _ {moments : ℕ → Moment T} (keep : Keep P moments) where
    update_loop_keeps :
        (n : ℕ) (f : Transform A T) (c : Cell T) → P c → P (update_loop g scope moments n f c).1
    unfolding update_loop
    update_loop_keeps zero f c p = p
    update_loop_keeps (suc n) f c p =
        let m = moments n in
        let d = m.before c in
        let q : P d = keep.before n c p in
        let r = attempt_keeps m f d q (keep.between n d q) in
        elim (Attempt-cases (attempt_on g scope m f d)) [
          | inl (x, e, h) ↦ rw (h, update_loop) (subst (λ t. P (cell_of t)) h r)
          | inr (e, h) ↦
              rw (h, update_loop) (update_loop_keeps n f e (subst (λ t. P (cell_of t)) h r))
        ]

module _ {T : Type 0} (g : Config T) (scope : ChatScope) where
  -- What is stored can be read back.
  abbrev pub IsReadable : Cell T → Type 0
  IsReadable none = Unit
  IsReadable (some r) = (decode g scope r.payload ≡ ok r.payload) × (1 ≤ r.version)

  decode-encode : (s x : State T) → encode g scope x ≡ ok s → decode g scope s ≡ ok s
  unfolding encode decode
  decode-encode s x h = ground arith

  compare_and_swap-IsReadable :
      (version : Option ℕ) (s x : State T) (c d : Cell T)
      → encode g scope x ≡ ok s
      → IsReadable c
      → compare_and_swap version s c ≡ ok (true, d)
      → IsReadable d
  unfolding compare_and_swap
  compare_and_swap-IsReadable none s x none d e p h = ground (arith, decode-encode s x e)
  compare_and_swap-IsReadable none s x (some r) d e p h = ground arith
  compare_and_swap-IsReadable (some v) s x none d e p h = ground arith
  compare_and_swap-IsReadable (some v) s x (some r) d e p h = ground (arith, decode-encode s x e)

module _ {A T : Type 0} (g : Config T) (scope : ChatScope) {moments : ℕ → Moment T} where
  -- Whatever its outcome, an update leaves a row that can be read back, if the row was so before and
  -- the other writers keep it so.
  pub update-IsReadable :
      (f : Transform A T) (c : Cell T)
      → Keep (IsReadable g scope) moments
      → IsReadable g scope c
      → IsReadable g scope (update g scope moments f c).1
  unfolding update
  update-IsReadable f c keep p =
      update_loop_keeps g scope (IsReadable g scope)
        (λ version s x c d. compare_and_swap-IsReadable g scope version s x c d) keep
        g.options.max_attempts f c p

module _ {A T : Type 0} (g : Config T) (scope : ChatScope) where
  write_err :
      (m : Moment T) (a : A) (version : Option ℕ) (s : State T) (c d : Cell T) (x : StoreError)
      → write g scope m a version s c ≡ finished (err x) d
      → d ≡ m.between c
  unfolding write swap
  write_err m a version s c d x h = ground arith

  attempt_err :
      (m : Moment T) (f : Transform A T) (c d : Cell T) (x : StoreError)
      → attempt_on g scope m f c ≡ finished (err x) d
      → (d ≡ c) ⊎ (d ≡ m.between c)
  unfolding attempt_on transform_and_write
  attempt_err m f c d x h = elim (Result-cases (snapshot g scope m.read_at c)) [
    | inl ((s, version), e) ↦ elim (Result-cases (f s)) [
      | inl ((b, t), e') ↦ ground (arith, write_err m b version t c d x)
      | inr (y, e') ↦ ground arith
    ]
    | inr (y, e) ↦ ground arith
  ]

  module _ {P : Cell T → Type 0} {moments : ℕ → Moment T} (keep : Keep P moments) where
    update_loop_err :
        (n : ℕ) (f : Transform A T) (c d : Cell T) (x : StoreError)
        → update_loop g scope moments n f c ≡ (err x, d)
        → P c
        → P d
    unfolding update_loop
    update_loop_err zero f c d x h p = subst P (ap (λ q. q.1) h) p
    update_loop_err (suc n) f c d x h p =
        let m = moments n in
        let e = m.before c in
        let q : P e = keep.before n c p in
        let between : P (m.between e) = keep.between n e q in
        elim (Attempt-cases (attempt_on g scope m f e)) [
          | inl (r, e', a) ↦ elim (attempt_err m f e d x (ground arith)) [
            | inl same ↦ subst P (sym same) q
            | inr moved ↦ subst P (sym moved) between
          ]
          | inr (e', a) ↦
              update_loop_err n f e' d x (ground arith)
                (subst P (sym (attempt_conflict g scope m f e e' a)) between)
        ]

    -- An update that raises has written nothing: all that the other writers keep, it keeps.
    pub update_err_keeps :
        (f : Transform A T) (c d : Cell T) (x : StoreError)
        → update g scope moments f c ≡ (err x, d)
        → P c
        → P d
    unfolding update
    update_err_keeps f c d x h p = update_loop_err g.options.max_attempts f c d x h p
