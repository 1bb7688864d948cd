-- ===== src/Pager/PageLock/Steps.antt =====
-- Runs of the lock manager of src/pager/page_lock.rs: threads take locks and drop guards in any
-- order.
use sql.Common.{
  ℕ, suc, ◌+◌, ◌≤◌, ◌<◌, ◌≡◌, ◌⊎◌, inl, inr, refl, sym, subst, ◌∙◌, if_pos, arith, List, [], ◌∷◌,
  ◌++◌, Option, none, some, Bool, true, false, ◌&&◌, Bool-cases, ◌-◌, Option-cases, ◌==◌,
  if◌then◌else◌, ℕ_discrete, ite,
}
use sql.Common.Assoc.{lookup, insert, lookup-insert, lookup-remove}
use sql.Pager.PageLock.{
  LockMode, shared, exclusive, PageLockState, Locks, PageLockGuard, Result, ok, err, LockError,
  entry, shared_entry, exclusive_entry, refuses_shared, refuses_exclusive, lock_shared,
  lock_exclusive, release, put_back, drop_guard, is_some, one_more, held_by,
}

abbrev mode_count : LockMode → LockMode → ℕ
mode_count shared shared = 1
mode_count exclusive exclusive = 1
mode_count _ _ = 0

-- The living guards of a page, by their mode.
abbrev pub guards_of : LockMode → ℕ → List PageLockGuard → ℕ
guards_of m p [] = 0
guards_of m p (g ∷ gs) = ite (ℕ_discrete g.page_id p) (mode_count g.mode m) 0 + guards_of m p gs

guards_of-append :
    (m : LockMode) (p : ℕ) (xs ys : List PageLockGuard)
    → guards_of m p (xs ++ ys) ≡ guards_of m p xs + guards_of m p ys
guards_of-append m p [] ys = omega arith
guards_of-append m p (x ∷ xs) ys = omega (arith, guards_of-append m p xs ys)

pub record System : Type 0 where
  pub locks : Locks
  pub guards : List PageLockGuard

-- A lock that is granted adds its guard; any living guard may be dropped.
pub data Step : System → System → Type 0 where
  take_shared :
      (s : System) (p : ℕ) (locks : Locks) (g : PageLockGuard)
      → lock_shared p s.locks ≡ ok locks g
      → Step s (record { locks = locks; guards = g ∷ s.guards })
  take_exclusive :
      (s : System) (thread p : ℕ) (locks : Locks) (g : PageLockGuard)
      → lock_exclusive thread p s.locks ≡ ok locks g
      → Step s (record { locks = locks; guards = g ∷ s.guards })
  drop_one :
      (locks : Locks) (front back : List PageLockGuard) (g : PageLockGuard)
      → Step
          (record { locks = locks; guards = front ++ (g ∷ back) })
          (record { locks = drop_guard g locks; guards = front ++ back })

pub data Reach : System → System → Type 0 where
  here : {s : System} → Reach s s
  next : {s t u : System} → Reach s t → Step t u → Reach s u

abbrev held : Option ℕ → ℕ
held none = 0
held (some _) = 1

-- The entry of a page against the numbers of its shared and its exclusive guards.
abbrev Matches : Option PageLockState → ℕ → ℕ → Type 0
Matches none s e = (s ≡ 0) × (e ≡ 0)
Matches (some state) s e =
    (state.shared_count ≡ s) × (held state.exclusive_holder ≡ e) × ((s ≡ 0) ⊎ (e ≡ 0)) × (0 < s + e)

abbrev Agrees : Locks → List PageLockGuard → Type 0
Agrees locks guards =
    (p : ℕ)
    → Matches (lookup ℕ_discrete p locks) (guards_of shared p guards) (guards_of exclusive p guards)

entry_shared :
    (o : Option PageLockState) (s e : ℕ)
    → Matches o s e
    → refuses_shared o ≡ none
    → Matches (some (one_more (entry o shared_entry))) (1 + s) (0 + e)
unfolding refuses_shared entry
entry_shared none s e m h = ground arith
entry_shared (some state) s e m h = ground arith

entry_exclusive :
    (thread : ℕ) (o : Option PageLockState) (s e : ℕ)
    → Matches o s e
    → refuses_exclusive o ≡ none
    → Matches (some (held_by thread (entry o exclusive_entry))) (0 + s) (1 + e)
unfolding refuses_exclusive entry
entry_exclusive thread none s e m h = ground arith
entry_exclusive thread (some state) s e m h = ground arith

release_shared :
    (state : PageLockState) (s e : ℕ)
    → Matches (some state) (suc s) e
    → Matches (release shared state) s e
unfolding release
release_shared state s e m =
    elim (Bool-cases
      (state.shared_count - 1 == 0 && (if is_some state.exclusive_holder then false else true))) [
        | inl gone ↦ rw gone (ground arith)
        | inr stays ↦ rw stays (ground arith)
      ]

release_exclusive :
    (state : PageLockState) (s e : ℕ)
    → Matches (some state) s (suc e)
    → Matches (release exclusive state) s e
unfolding release
release_exclusive state s e m = elim (Bool-cases (state.shared_count == 0)) [
  | inl gone ↦ rw gone (ground arith)
  | inr stays ↦ rw stays (ground arith)
]

-- A change at one page `p`, seen from any page `q`: `a` and `b` guards are added.
Matches_at :
    {p q : ℕ} (d : Dec (p ≡ q)) (now old : Option PageLockState) (a b s e : ℕ)
    → (p ≡ q → Matches now (a + s) (b + e))
    → Matches old s e
    → Matches (ite d now old) (ite d a 0 + s) (ite d b 0 + e)
Matches_at (yes same) now old a b s e new m = new same
Matches_at (no other) now old a b s e new m =
    let none_s : 0 + s ≡ s = omega arith in
    let none_e : 0 + e ≡ e = omega arith in
    subst (λ x. Matches old x (0 + e)) (sym none_s) (subst (λ x. Matches old s x) (sym none_e) m)

-- The counts at the page itself, carried over to a page that equals it.
Matches_moved :
    {p q : ℕ} (now : Option PageLockState) (a b : ℕ) (gs : List PageLockGuard)
    → p ≡ q
    → Matches now (a + guards_of shared p gs) (b + guards_of exclusive p gs)
    → Matches now (a + guards_of shared q gs) (b + guards_of exclusive q gs)
Matches_moved now a b gs e =
    subst (λ r. Matches now (a + guards_of shared r gs) (b + guards_of exclusive r gs)) e

module _ (locks : Locks) (guards : List PageLockGuard) (agrees : Agrees locks guards) (p : ℕ) where
  abbrev there : Option PageLockState
  there = lookup ℕ_discrete p locks

  take_shared-Agrees :
      refuses_shared there ≡ none
      → Agrees
          (insert ℕ_discrete p (one_more (entry there shared_entry)) locks)
          (record { page_id = p; mode = shared } ∷ guards)
  take_shared-Agrees h q =
      let now = some (one_more (entry there shared_entry)) in
      rw (lookup-insert ℕ_discrete p q (one_more (entry there shared_entry)) locks) (
        Matches_at (ℕ_discrete p q) now (lookup ℕ_discrete q locks) 1 0 (guards_of shared q guards)
          (guards_of exclusive q guards)
          (λ e. Matches_moved now 1 0 guards e (entry_shared there _ _ (agrees p) h)) (agrees q))

  take_exclusive-Agrees :
      (thread : ℕ)
      → refuses_exclusive there ≡ none
      → Agrees
          (insert ℕ_discrete p (held_by thread (entry there exclusive_entry)) locks)
          (record { page_id = p; mode = exclusive } ∷ guards)
  take_exclusive-Agrees thread h q =
      let now = some (held_by thread (entry there exclusive_entry)) in
      rw (lookup-insert ℕ_discrete p q (held_by thread (entry there exclusive_entry)) locks) (
        Matches_at (ℕ_discrete p q) now (lookup ℕ_discrete q locks) 0 1 (guards_of shared q guards)
          (guards_of exclusive q guards)
          (λ e. Matches_moved now 0 1 guards e (entry_exclusive thread there _ _ (agrees p) h))
          (agrees q))

lookup-put_back :
    (p q : ℕ) (o : Option PageLockState) (locks : Locks)
    → lookup ℕ_discrete q (put_back p o locks) ≡ ite (ℕ_discrete p q) o (lookup ℕ_discrete q locks)
unfolding put_back
lookup-put_back p q none locks = lookup-remove ℕ_discrete p q locks
lookup-put_back p q (some state) locks = lookup-insert ℕ_discrete p q state locks

-- The entry after a guard of mode `m` is gone.
release-Matches :
    (m : LockMode) (state : PageLockState) (s e : ℕ)
    → Matches (some state) (mode_count m shared + s) (mode_count m exclusive + e)
    → Matches (release m state) s e
release-Matches shared state s e h = release_shared state s e (ground arith)
release-Matches exclusive state s e h = release_exclusive state s e (ground arith)

-- The counts before a guard in the middle is dropped.
guards_of-middle :
    (m : LockMode) (q : ℕ) (front back : List PageLockGuard) (g : PageLockGuard)
    → guards_of m q (front ++ (g ∷ back))
      ≡ ite (ℕ_discrete g.page_id q) (mode_count g.mode m) 0 + guards_of m q (front ++ back)
guards_of-middle m q front back g =
    omega (arith, guards_of-append m q front (g ∷ back), guards_of-append m q front back)

mode_count_one : (m : LockMode) → mode_count m shared + mode_count m exclusive ≡ 1
mode_count_one shared = refl
mode_count_one exclusive = refl

-- A change at one page `p` that takes guards away, seen from any page `q`.
Matches_without :
    {p q : ℕ} (d : Dec (p ≡ q)) (now old : Option PageLockState) (a b s e : ℕ)
    → (p ≡ q → Matches now s e)
    → Matches old (ite d a 0 + s) (ite d b 0 + e)
    → Matches (ite d now old) s e
Matches_without (yes same) now old a b s e new m = new same
Matches_without (no other) now old a b s e new m =
    let none_s : 0 + s ≡ s = omega arith in
    let none_e : 0 + e ≡ e = omega arith in
    subst (λ x. Matches old x e) none_s (subst (λ x. Matches old (0 + s) x) none_e m)

module _ (locks : Locks) (front back : List PageLockGuard) (g : PageLockGuard)
    (agrees : Agrees locks (front ++ (g ∷ back))) where
  before :
      (q : ℕ)
      → Matches
          (lookup ℕ_discrete q locks)
          (ite (ℕ_discrete g.page_id q) (mode_count g.mode shared) 0
            + guards_of shared q (front ++ back))
          (ite (ℕ_discrete g.page_id q) (mode_count g.mode exclusive) 0
            + guards_of exclusive q (front ++ back))
  before q =
      subst
        (λ x. Matches (lookup ℕ_discrete q locks) x (
          ite (ℕ_discrete g.page_id q) (mode_count g.mode exclusive) 0
          + guards_of exclusive q (front ++ back)))
        (guards_of-middle shared q front back g)
        (subst
          (λ x. Matches (lookup ℕ_discrete q locks) (guards_of shared q (front ++ (g ∷ back))) x)
          (guards_of-middle exclusive q front back g) (agrees q))

  before_here :
      Matches
        (lookup ℕ_discrete g.page_id locks)
        (mode_count g.mode shared + guards_of shared g.page_id (front ++ back))
        (mode_count g.mode exclusive + guards_of exclusive g.page_id (front ++ back))
  before_here =
      let here = ℕ_discrete g.page_id g.page_id in
      rw
        (
          if_pos {C = ℕ} here refl (mode_count g.mode shared) 0,
          if_pos {C = ℕ} here refl (mode_count g.mode exclusive) 0,
        )
        at (before g.page_id)

  -- A living guard has an entry.
  entry_there : (state : PageLockState) × (lookup ℕ_discrete g.page_id locks ≡ some state)
  entry_there = elim (Option-cases (lookup ℕ_discrete g.page_id locks)) [
    | inl none_there ↦
        let empty = rw none_there at before_here in
        absurd (omega (arith, mode_count_one g.mode, empty.0, empty.1))
    | inr found ↦ found
  ]

  drop-Agrees : Agrees (drop_guard g locks) (front ++ back)
  unfolding drop_guard
  drop-Agrees q =
      let (state, found) = entry_there in
      let now = release g.mode state in
      rw (found, drop_guard, lookup-put_back g.page_id q now locks)
        (Matches_without (ℕ_discrete g.page_id q) now (lookup ℕ_discrete q locks)
          (mode_count g.mode shared) (mode_count g.mode exclusive)
          (guards_of shared q (front ++ back)) (guards_of exclusive q (front ++ back))
          (λ e.
            subst
              (λ r.
                Matches now (guards_of shared r (front ++ back))
                  (guards_of exclusive r (front ++ back)))
              e (release-Matches g.mode state _ _ (rw found at before_here)))
          (before q))

abbrev with_shared : ℕ → Locks → Locks
with_shared p old =
    insert ℕ_discrete p (one_more (entry (lookup ℕ_discrete p old) shared_entry)) old

abbrev with_exclusive : ℕ → ℕ → Locks → Locks
with_exclusive thread p old =
    insert ℕ_discrete p (held_by thread (entry (lookup ℕ_discrete p old) exclusive_entry)) old

lock_shared_granted :
    (p : ℕ) (old locks : Locks) (g : PageLockGuard)
    → lock_shared p old ≡ ok locks g
    → (refuses_shared (lookup ℕ_discrete p old) ≡ none)
      × (with_shared p old ≡ locks)
      × (record { page_id = p; mode = shared } ≡ g)
unfolding lock_shared
lock_shared_granted p old locks g h =
    elim (Option-cases (refuses_shared (lookup ℕ_discrete p old))) [
      | inl free ↦ let granted = rw (free, lock_shared) at h in (free, cc, cc)
      | inr (e, refused) ↦ let no_grant = rw (refused, lock_shared) at h in cc
    ]

lock_exclusive_granted :
    (thread p : ℕ) (old locks : Locks) (g : PageLockGuard)
    → lock_exclusive thread p old ≡ ok locks g
    → (refuses_exclusive (lookup ℕ_discrete p old) ≡ none)
      × (with_exclusive thread p old ≡ locks)
      × (record { page_id = p; mode = exclusive } ≡ g)
unfolding lock_exclusive
lock_exclusive_granted thread p old locks g h =
    elim (Option-cases (refuses_exclusive (lookup ℕ_discrete p old))) [
      | inl free ↦ let granted = rw (free, lock_exclusive) at h in (free, cc, cc)
      | inr (e, refused) ↦ let no_grant = rw (refused, lock_exclusive) at h in cc
    ]

Step-Agrees : {s t : System} → Step s t → Agrees s.locks s.guards → Agrees t.locks t.guards
Step-Agrees (take_shared s p locks g h) a =
    let (free, now, made) = lock_shared_granted p s.locks locks g h in
    subst (λ ls. Agrees ls (g ∷ s.guards)) now
      (subst (λ x. Agrees (with_shared p s.locks) (x ∷ s.guards)) made
        (take_shared-Agrees s.locks s.guards a p free))
Step-Agrees (take_exclusive s thread p locks g h) a =
    let (free, now, made) = lock_exclusive_granted thread p s.locks locks g h in
    subst (λ ls. Agrees ls (g ∷ s.guards)) now
      (subst (λ x. Agrees (with_exclusive thread p s.locks) (x ∷ s.guards)) made
        (take_exclusive-Agrees s.locks s.guards a p thread free))
Step-Agrees (drop_one locks front back g) a = drop-Agrees locks front back g a

-- No lock and no guard, as `PageLockManager::new` starts.
abbrev pub start : System
start = record { locks = []; guards = [] }

Reach-Agrees : {s t : System} → Reach s t → Agrees s.locks s.guards → Agrees t.locks t.guards
Reach-Agrees here a = a
Reach-Agrees (next r st) a = Step-Agrees st (Reach-Agrees r a)

start-Agrees : Agrees [] []
unfolding lookup
start-Agrees p = (refl, refl)

-- In every state that locks being granted and guards being dropped reach from an empty lock table,
-- a page has at most one exclusive guard, and no exclusive guard or no shared guard.
pub exclusive_alone :
    (s : System) (p : ℕ)
    → Reach start s
    → (guards_of exclusive p s.guards ≤ 1)
      × ((guards_of exclusive p s.guards ≡ 0) ⊎ (guards_of shared p s.guards ≡ 0))
exclusive_alone s p r = alone (lookup ℕ_discrete p s.locks) (Reach-Agrees r start-Agrees p)
  where
    alone :
        (o : Option PageLockState)
        → Matches o (guards_of shared p s.guards) (guards_of exclusive p s.guards)
        → (guards_of exclusive p s.guards ≤ 1)
          × ((guards_of exclusive p s.guards ≡ 0) ⊎ (guards_of shared p s.guards ≡ 0))
    alone none m = ground arith
    alone (some state) m = ground arith

abbrev pub is_granted : Result → Bool
is_granted (ok _ _) = true
is_granted (err _) = false

abbrev is_free : Option LockError → Bool
is_free none = true
is_free (some _) = false

granted_shared :
    (p : ℕ) (locks : Locks)
    → is_granted (lock_shared p locks) ≡ is_free (refuses_shared (lookup ℕ_discrete p locks))
unfolding lock_shared
granted_shared p locks = ground arith

granted_exclusive :
    (thread p : ℕ) (locks : Locks)
    → is_granted (lock_exclusive thread p locks)
      ≡ is_free (refuses_exclusive (lookup ℕ_discrete p locks))
unfolding lock_exclusive
granted_exclusive thread p locks = ground arith

free_shared :
    (o : Option PageLockState) (s e : ℕ) → Matches o s e → is_free (refuses_shared o) ≡ (e == 0)
unfolding refuses_shared
free_shared none s e m = ground arith
free_shared (some state) s e m = ground arith

free_exclusive :
    (o : Option PageLockState) (s e : ℕ)
    → Matches o s e
    → is_free (refuses_exclusive o) ≡ (s + e == 0)
unfolding refuses_exclusive
free_exclusive none s e m = ground arith
free_exclusive (some state) s e m = ground arith

-- In every state that locks being granted and guards being dropped reach from an empty lock table,
-- an exclusive lock is granted exactly if the page has no living guard, and a shared lock exactly
-- if it has no living exclusive guard.
pub granted_iff :
    (s : System) (thread p : ℕ)
    → Reach start s
    → (is_granted (lock_exclusive thread p s.locks)
        ≡ (guards_of shared p s.guards + guards_of exclusive p s.guards == 0))
      × (is_granted (lock_shared p s.locks) ≡ (guards_of exclusive p s.guards == 0))
granted_iff s thread p r =
    let m = Reach-Agrees r start-Agrees p in
    (
      granted_exclusive thread p s.locks ∙ free_exclusive (lookup ℕ_discrete p s.locks) _ _ m,
      granted_shared p s.locks ∙ free_shared (lookup ℕ_discrete p s.locks) _ _ m,
    )
