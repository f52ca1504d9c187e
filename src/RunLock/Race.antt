-- ===== src/RunLock/Race.antt =====
-- orchestrator/runlock.py: processes that acquire, reclaim and release the lock, step by step. Creating the file
-- and writing it are one step here.
use agi_inspired.Prelude.{
  ℕ, Bool, true, false, some, ◌==◌, if◌then◌else◌, ◌≡◌, ◌≢◌, ◌⊎◌, inl, inr, refl, sym, ◌∙◌, ap,
  Bool-cases, arith,
}
use agi_inspired.Prelude.Text.{Text, text_eq_refl}
use agi_inspired.Scheduler.Recovery.{Inspection, unknown, identity}
use agi_inspired.RunLock.Held.{
  Lock, LockFile, no_lock, read_lock, same_process, written, owner_is_same_process, is_stale,
  release,
}
use agi_inspired.RunLock.Reclaim.{IsUsable, read_lock-written, release_lem}

-- Where a process is: before its first or its second attempt, past a test that found the lock stale, in the body
-- of the `with`, or past it.
pub data Phase : Type 0 where
  first_attempt judged second_attempt holding gone : Phase

pub record System : Type 0 where
  pub file : LockFile
  pub phase : ℕ → Phase

unfoldable pub move : ℕ → Phase → (ℕ → Phase) → ℕ → Phase
move i p phase j = if j == i then p else phase j

abbrev pub tries : Phase → Bool
tries first_attempt = true
tries second_attempt = true
tries _ = false

-- `Sees` says which inspections of processes, and at which times, can occur.
module _ (mine : ℕ → Lock) (Sees : (ℕ → Inspection) → ℕ → Type 0) where
  pub data Step : System → System → Type 0 where
    creates :
        {s : System} (i : ℕ)
        → tries (s.phase i) ≡ true
        → s.file ≡ no_lock
        → Step s (record { file = written (mine i); phase = move i holding s.phase })
    judges :
        {s : System} (i : ℕ) (inspect : ℕ → Inspection) (now : ℕ) (l : Lock)
        → s.phase i ≡ first_attempt
        → read_lock s.file ≡ some l
        → Sees inspect now
        → is_stale inspect now l ≡ true
        → Step s (record { file = s.file; phase = move i judged s.phase })
    removes :
        {s : System} (i : ℕ)
        → s.phase i ≡ judged
        → Step s (record { file = no_lock; phase = move i second_attempt s.phase })
    gives_up :
        {s : System} (i : ℕ)
        → tries (s.phase i) ≡ true
        → s.file ≢ no_lock
        → Step s (record { file = s.file; phase = move i gone s.phase })
    releases :
        {s : System} (i : ℕ)
        → s.phase i ≡ holding
        → Step s (record { file = release (mine i) s.file; phase = move i gone s.phase })

  pub data Reach (s : System) : System → Type 0 where
    start : Reach s s
    then_step : {t u : System} → Reach s t → Step t u → Reach s u

  abbrev pub ready : LockFile → System
  ready f = record { file = f; phase = λ i. first_attempt }

  -- Two processes can both hold the lock: if a readable lock is stale for an inspection that can occur, a state
  -- in which the processes 0 and 1 both hold it is reached. Both judge the old lock, and one
  -- removes by path what the other has made.
  pub two_holders :
      (inspect : ℕ → Inspection) (now : ℕ) (old : Lock) (f : LockFile)
      → Sees inspect now
      → read_lock f ≡ some old
      → is_stale inspect now old ≡ true
      → (s : System) × Reach (ready f) s × (s.phase 0 ≡ holding) × (s.phase 1 ≡ holding)
  unfolding move
  two_holders inspect now old f sees e stale = (
    _,
    then_step
        (then_step
          (then_step
            (then_step
              (then_step (then_step start (judges 0 inspect now old refl e sees stale))
                (judges 1 inspect now old refl e sees stale))
              (removes 0 refl))
            (creates 0 refl refl))
          (removes 1 refl))
        (creates 1 refl refl),
    refl,
    refl,
  )

moved :
    (i j : ℕ) (p q : Phase) (phase : ℕ → Phase)
    → move i p phase j ≡ q
    → ((j ≡ i) × (p ≡ q)) ⊎ (phase j ≡ q)
unfolding move
moved i j p q phase h = elim (Bool-cases (j == i)) [
  | inl e ↦ inl (ground arith, rw e at h)
  | inr e ↦ inr (rw e at h)
]

moved_other :
    (i j : ℕ) (p q : Phase) (phase : ℕ → Phase)
    → move i p phase j ≡ q
    → (p ≡ q) ⊎ ((j ≢ i) × (phase j ≡ q))
unfolding move
moved_other i j p q phase h = elim (Bool-cases (j == i)) [
  | inl e ↦ inl (rw e at h)
  | inr e ↦ inr ((λ same. ground arith), rw e at h)
]

no_lock-unread : (l : Lock) → read_lock no_lock ≢ some l
unfolding read_lock
no_lock-unread l e = cc e

-- Every process of the system is alive: an inspection finds its identity, or fails.
abbrev pub Alive : (ℕ → Lock) → (ℕ → Inspection) → ℕ → Type 0
Alive mine inspect now =
    (i : ℕ)
    → (inspect (mine i).pid ≡ unknown) ⊎ (inspect (mine i).pid ≡ identity (mine i).process_start_id)

same_self : (t : Text) (i : Inspection) → (i ≡ unknown) ⊎ (i ≡ identity t) → same_process t i ≡ true
unfolding same_process
same_self t i (inl e) = rw e refl
same_self t i (inr e) = rw e (text_eq_refl t)

module _ (mine : ℕ → Lock) (usable : (i : ℕ) → IsUsable (mine i))
    (distinct : (i j : ℕ) → (mine i).lock_id ≡ (mine j).lock_id → i ≡ j) where
  is_stale-Alive :
      (inspect : ℕ → Inspection) (now i : ℕ)
      → Alive mine inspect now
      → is_stale inspect now (mine i) ≡ false
  unfolding is_stale owner_is_same_process
  is_stale-Alive inspect now i a =
      ground (arith, same_self (mine i).process_start_id (inspect (mine i).pid) (a i))

  written-injective : (i j : ℕ) → written (mine i) ≡ written (mine j) → i ≡ j
  written-injective i j e =
      let s : some (mine i) ≡ some (mine j) =
        sym (read_lock-written (mine i) (usable i))
        ∙ (ap read_lock e ∙ read_lock-written (mine j) (usable j)) in
      let same : mine i ≡ mine j = cc s in distinct i j (ap (λ l. l.lock_id) same)

  written-there : (i : ℕ) → written (mine i) ≢ no_lock
  unfolding written
  written-there i e = cc e

  -- A holder's lock is in the file, nobody has judged a lock stale, and the file has a process's lock or none.
  pub record IsExclusive (s : System) : Type 0 where
    pub own : (i : ℕ) → s.phase i ≡ holding → s.file ≡ written (mine i)
    pub unjudged : (i : ℕ) → s.phase i ≢ judged
    pub owned : (s.file ≡ no_lock) ⊎ ((i : ℕ) × (s.file ≡ written (mine i)))

  -- A lock that is read is not stale while the processes are alive.
  never_stale :
      (s : System) (inspect : ℕ → Inspection) (now : ℕ) (l : Lock)
      → IsExclusive s
      → Alive mine inspect now
      → read_lock s.file ≡ some l
      → is_stale inspect now l ≡ true
      → ⊥
  never_stale s inspect now l x alive e stale = elim (x.owned) [
    | inl none' ↦ no_lock-unread l (ap read_lock (sym none') ∙ e)
    | inr (i, f) ↦
        let t : some (mine i) ≡ some l =
          sym (read_lock-written (mine i) (usable i)) ∙ (ap read_lock (sym f) ∙ e) in
        let same : mine i ≡ l = cc t in
        cc (sym (ap (λ k. is_stale inspect now k) same) ∙ is_stale-Alive inspect now i alive, stale)
  ]

  Step-IsExclusive : {s t : System} → Step mine (Alive mine) s t → IsExclusive s → IsExclusive t
  Step-IsExclusive (creates {s} i can free) x = record {
    own = λ j h. elim (moved i j holding holding s.phase h) [
      | inl (same, e) ↦ ap (λ k. written (mine k)) (sym same)
      | inr h' ↦ absurd (written-there j (sym (x.own j h') ∙ free))
    ];
    unjudged = λ j h. elim (moved i j holding judged s.phase h) [
      | inl (same, e) ↦ cc e
      | inr h' ↦ x.unjudged j h'
    ];
    owned = inr (i, refl);
  }
  Step-IsExclusive (judges {s} i inspect now l first e alive stale) x =
      absurd (never_stale s inspect now l x alive e stale)
  Step-IsExclusive (removes {s} i j) x = absurd (x.unjudged i j)
  Step-IsExclusive (gives_up {s} i can there) x = record {
    own = λ j h. elim (moved i j gone holding s.phase h) [
      | inl (same, e) ↦ absurd (cc e)
      | inr h' ↦ x.own j h'
    ];
    unjudged = λ j h. elim (moved i j gone judged s.phase h) [
      | inl (same, e) ↦ cc e
      | inr h' ↦ x.unjudged j h'
    ];
    owned = x.owned;
  }
  Step-IsExclusive (releases {s} i held) x = record {
    own = λ j h. elim (moved_other i j gone holding s.phase h) [
      | inl e ↦ absurd (cc e)
      | inr (other, h') ↦ absurd (other (written-injective j i (sym (x.own j h') ∙ x.own i held)))
    ];
    unjudged = λ j h. elim (moved i j gone judged s.phase h) [
      | inl (same, e) ↦ cc e
      | inr h' ↦ x.unjudged j h'
    ];
    owned = inl (
        ap (release (mine i)) (x.own i held)
        ∙ (release_lem (mine i) (mine i) (usable i) (usable i)).0);
  }

  Reach-IsExclusive : {s t : System} → Reach mine (Alive mine) s t → IsExclusive s → IsExclusive t
  Reach-IsExclusive start x = x
  Reach-IsExclusive (then_step r step) x = Step-IsExclusive step (Reach-IsExclusive r x)

  ready-IsExclusive : IsExclusive (ready mine (Alive mine) no_lock)
  ready-IsExclusive = record {
    own = λ i h. absurd (cc h);
    unjudged = λ i h. cc h;
    owned = inl refl;
  }

  -- If no lock file is there at first and every process stays alive, so that an inspection finds its identity or
  -- fails, two processes never hold the lock together, in whichever order the processes attempt,
  -- judge, remove, create and release. The processes have different lock ids.
  pub mutual_exclusion :
      {s : System}
      → Reach mine (Alive mine) (ready mine (Alive mine) no_lock) s
      → (i j : ℕ) → s.phase i ≡ holding
      → s.phase j ≡ holding
      → i ≡ j
  mutual_exclusion {s} r i j h k =
      let x = Reach-IsExclusive r ready-IsExclusive in
      written-injective i j (sym (x.own i h) ∙ x.own j k)
