-- ===== src/Fleet/Execute/Progress.antt =====
-- A run of internal/fleet/run/execute.go can always be ended: no state of a schedule is stuck.
use svcdoctor.Base.{
  ℕ, zero, suc, ◌+◌, ◌-◌, ◌*◌, ◌≤◌, ◌<◌, Bool, true, false, List, [], ◌∷◌, some, length, get_elem?,
  ltb, set, ◌≡◌, refl, ◌∙◌, inl, inr, arith, Bool-cases,
}
use svcdoctor.Base.Bytes.{Bytes}
use svcdoctor.Base.Result.{ok, err}
use svcdoctor.Fleet.Params.{Target}
use svcdoctor.Fleet.RunOne.{Answers, run_one}
use svcdoctor.Fleet.Execute.Schedule.{Inv, Reach-Inv}
use svcdoctor.Fleet.Execute.{Sched, among, release, send, close, finish, Reach, next, Finished}

-- A runner that fails while the context is live.
abbrev failing : Answers
failing = record { done_before = false; credential = ok tt; ran = err []; done_after = false }

abbrev open_bit : Bool → ℕ
open_bit true = 0
open_bit false = 1

-- The steps that are left: a target not sent needs two, a running one one, and the dispatcher one.
abbrev left : ℕ → Sched → ℕ
left count s = length s.running + (2 * (count - s.sent) + open_bit s.closed)

get_target : (ts : List Target) (i : ℕ) → i < length ts → (t : Target) × (get_elem? ts i ≡ some t)
get_target [] i h = elim h [ ]
get_target (t ∷ ts) zero h = (t, refl)
get_target (t ∷ ts) (suc i) h = get_target ts i (omega arith)

module _ (quote : Bytes → Bytes) (targets : List Target) (workers : ℕ)
    (some_worker : 0 < workers) where
  abbrev Ends : Sched → Type 0
  Ends s = (u : Sched) × Reach quote targets workers u × Finished u × (u.done ≡ s.done)

  -- One step towards the end, whatever the state.
  towards_end :
      (s : Sched)
      → Reach quote targets workers s
      → ((u : Sched)
          → Reach quote targets workers u
          → left (length targets) u < left (length targets) s
          → u.done ≡ s.done
          → Ends s)
      → Ends s
  towards_end s r rest = by_running s.running refl
    where
      inv : Inv targets workers s
      inv = Reach-Inv quote targets workers r

      by_running : (running : List ℕ) → s.running ≡ running → Ends s
      by_running [] e = elim (Bool-cases s.closed) [
        | inl shut ↦ (s, r, (shut, e), refl)
        | inr opened ↦ elim (Bool-cases (ltb s.sent (length targets))) [
          | inl more ↦
              rest (record s { sent = suc s.sent; running = s.sent ∷ s.running })
                (next r (send s opened (ground (arith, more)) (rw e some_worker)))
                (ground (arith, more)) refl
          | inr all ↦
              rest (record s { closed = true })
                (next r (close s (inl (ground (arith, all, inv.sent_le))))) (ground (arith, opened))
                refl
        ]
      ]
      by_running (i ∷ js) e =
          let taken : among i s.running ≡ true = rw e (ground arith) in
          let (t, at) =
            get_target targets i (omega (arith, inv.running_sent i taken, inv.sent_le)) in
          rest
            (record s {
              running = release i s.running;
              results = set s.results i (run_one quote t failing);
            })
            (next r (finish s i t failing taken at (λ q. cc) (λ q. cc))) (fewer i js e) refl
        where
          fewer :
              (i : ℕ) (js : List ℕ)
              → s.running ≡ i ∷ js
              → length (release i s.running) + (2 * (length targets - s.sent) + open_bit s.closed)
                < length s.running + (2 * (length targets - s.sent) + open_bit s.closed)
          fewer i js e = rw e (ground arith)

  finishing :
      (fuel : ℕ) (s : Sched)
      → Reach quote targets workers s
      → left (length targets) s ≤ fuel
      → Ends s
  finishing zero s r h = towards_end s r (λ u ru lt same. absurd (omega (arith, lt, h)))
  finishing (suc fuel) s r h = towards_end s r λ u ru lt same.
      let (v, rv, ended, kept) = finishing fuel u ru (omega (arith, lt, h)) in
      (v, rv, ended, kept ∙ same)

  -- With at least one worker no schedule is stuck: from each of its states the schedule can go on to
  -- a state in which the dispatcher and the workers are done, and the context is done only if it was
  -- before.
  pub Reach-Ends :
      (s : Sched)
      → Reach quote targets workers s
      → (u : Sched) × Reach quote targets workers u × Finished u × (u.done ≡ s.done)
  Reach-Ends s r = finishing (left (length targets) s) s r (omega arith)
