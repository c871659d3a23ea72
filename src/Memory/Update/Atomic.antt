-- ===== src/Memory/Update/Atomic.antt =====
-- An update that returns has happened at one moment: nobody's write is lost.
use ess_mcp.Prelude.{
  ℕ, zero, suc, ◌≡◌, refl, sym, ap, subst, ◌⊎◌, inl, inr, true, false, Option, none, some, arith,
  Result, ok, Result-cases,
}
use ess_mcp.Memory.State.{StoreError, ChatScope, State}
use ess_mcp.Memory.Storage.{Cell, Config, snapshot, encode, compare_and_swap}
use ess_mcp.Memory.Update.{
  Moment, Transform, Attempt, finished, conflict, swap, write, transform_and_write, attempt_on,
  update_loop,
}
use ess_mcp.Memory.Update.Honest.{Later, AreHonest, Later-trans, compare_and_swap-Later}

abbrev pub version_of : {T : Type 0} → Cell T → Option ℕ
version_of none = none
version_of (some r) = some r.version

-- A moment in which nobody else acts.
abbrev pub quiet : {T : Type 0} → ℕ → ℕ → Moment T
quiet read_at write_at = record {
  before = λ c. c;
  read_at = read_at;
  write_at = write_at;
  between = λ c. c;
  open_at_read = true;
  open_at_write = true;
}

module _ {T : Type 0} (g : Config T) (scope : ChatScope) where
  snapshot-version :
      (now : ℕ) (c : Cell T) (s : State T) (version : Option ℕ)
      → snapshot g scope now c ≡ ok (s, version)
      → version ≡ version_of c
  unfolding snapshot
  snapshot-version now none s version h = ground arith
  snapshot-version now (some r) s version h = ground arith

module _ {T : Type 0} where
  abbrev pub stamp : State T → ℕ → State T
  stamp s now = record s { updated_at = now }

  swapped_unchanged :
      (s : State T) (c d e : Cell T)
      → Later c d
      → compare_and_swap (version_of c) s d ≡ ok (true, e)
      → d ≡ c
  unfolding compare_and_swap
  swapped_unchanged s none none e l h = refl
  swapped_unchanged s none (some r) e l h = ground arith
  swapped_unchanged s (some r) none e l h = ground arith
  swapped_unchanged s (some r) (some q) e (inl p) h = p
  swapped_unchanged s (some r) (some q) e (inr p) h = ground arith

module _ {A T : Type 0} (g : Config T) (scope : ChatScope) (m : Moment T) where
  write-quiet :
      (a : A) (s r : State T) (a' : A) (c c' : Cell T)
      → Later c (m.between c)
      → write g scope m a (version_of c) s c ≡ finished (ok (a', r)) c'
      → write g scope (quiet m.read_at m.write_at) a (version_of c) s c ≡ finished (ok (a', r)) c'
  unfolding write swap
  write-quiet a s r a' c c' l h = elim (Result-cases (encode g scope (stamp s m.write_at))) [
    | inl (t, e) ↦ ground (arith, swapped_unchanged t c (m.between c) c' l)
    | inr (x, e) ↦ ground arith
  ]

  transform_and_write-quiet :
      (f : Transform A T) (s r : State T) (a : A) (c c' : Cell T)
      → Later c (m.between c)
      → transform_and_write g scope m f s (version_of c) c ≡ finished (ok (a, r)) c'
      → transform_and_write g scope (quiet m.read_at m.write_at) f s (version_of c) c
        ≡ finished (ok (a, r)) c'
  unfolding transform_and_write
  transform_and_write-quiet f s r a c c' l h = elim (Result-cases (f s)) [
    | inl ((b, t), e) ↦ rw (e, transform_and_write) (ground (arith, write-quiet b t r a c c' l))
    | inr (x, e) ↦ ground arith
  ]

  attempt-quiet :
      (f : Transform A T) (r : State T) (a : A) (c c' : Cell T)
      → Later c (m.between c)
      → attempt_on g scope m f c ≡ finished (ok (a, r)) c'
      → attempt_on g scope (quiet m.read_at m.write_at) f c ≡ finished (ok (a, r)) c'
  unfolding attempt_on
  attempt-quiet f r a c c' l h = elim (Result-cases (snapshot g scope m.read_at c)) [
    | inl ((s, version), e) ↦ ground (
      arith,
      snapshot-version g scope m.read_at c s version e,
      transform_and_write-quiet f s r a c c' l,
    )
    | inr (x, e) ↦ ground arith
  ]

  write_conflict :
      (a : A) (version : Option ℕ) (s : State T) (c c' : Cell T)
      → write g scope m a version s c ≡ conflict c'
      → c' ≡ m.between c
  unfolding write swap
  write_conflict a version s c c' h = elim (Result-cases (encode g scope (stamp s m.write_at))) [
    | inl (t, e) ↦ ground (arith, compare_and_swap-Later version t (m.between c) false c')
    | inr (x, e) ↦ ground arith
  ]

  pub attempt_conflict :
      (f : Transform A T) (c c' : Cell T)
      → attempt_on g scope m f c ≡ conflict c'
      → c' ≡ m.between c
  unfolding attempt_on transform_and_write
  attempt_conflict f c c' h = elim (Result-cases (snapshot g scope m.read_at c)) [
    | inl ((s, version), e) ↦ elim (Result-cases (f s)) [
      | inl ((b, t), e') ↦ ground (arith, write_conflict b version t c c')
      | inr (x, e') ↦ ground arith
    ]
    | inr (x, e) ↦ ground arith
  ]

-- The result and the row are those of one attempt with nobody else there, on a row `at` that was
-- stored at some moment from `c` on.
pub record HappensAt {A T : Type 0} (g : Config T) (scope : ChatScope) (f : Transform A T)
    (c : Cell T) (a : A) (s : State T) (c' : Cell T) : Type 0 where
  pub at : Cell T
  pub read_at : ℕ
  pub write_at : ℕ
  pub later : Later c at
  pub alone : attempt_on g scope (quiet read_at write_at) f at ≡ finished (ok (a, s)) c'

pub Attempt-cases :
    {A T : Type 0} (t : Attempt A T)
    → ((r : Result StoreError (A × State T)) × (c : Cell T) × (t ≡ finished r c))
      ⊎ ((c : Cell T) × (t ≡ conflict c))
Attempt-cases (finished r c) = inl (r, c, refl)
Attempt-cases (conflict c) = inr (c, refl)

module _ {A T : Type 0} (g : Config T) (scope : ChatScope) {moments : ℕ → Moment T}
    (honest : AreHonest moments) (f : Transform A T) (a : A) (s : State T) (c' : Cell T) where
  HappensAt-Later :
      {c d : Cell T} → Later c d → HappensAt g scope f d a s c' → HappensAt g scope f c a s c'
  HappensAt-Later {c} {d} l h = record {
    at = h.at;
    read_at = h.read_at;
    write_at = h.write_at;
    later = Later-trans c d h.at l h.later;
    alone = h.alone;
  }

  pub update_loop_atomic :
      (n : ℕ) (c : Cell T)
      → update_loop g scope moments n f c ≡ (ok (a, s), c')
      → HappensAt g scope f c a s c'
  unfolding update_loop
  update_loop_atomic zero c h = absurd (cc (ap (λ p. p.0) h))
  update_loop_atomic (suc n) c h =
      let m = moments n in
      let d = m.before c in
      elim (Attempt-cases (attempt_on g scope m f d)) [
        | inl (r, e, p) ↦ HappensAt-Later (honest.before n c) (record {
          at = d;
          read_at = m.read_at;
          write_at = m.write_at;
          later = inl refl;
          alone = attempt-quiet g scope m f s a d c' (honest.between n d) (ground arith);
        })
        | inr (e, p) ↦ HappensAt-Later (honest.before n c) (
            HappensAt-Later
              (subst (Later d) (sym (attempt_conflict g scope m f d e p)) (honest.between n d))
              (update_loop_atomic n e (ground arith)))
      ]
