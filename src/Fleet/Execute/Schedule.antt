-- ===== src/Fleet/Execute/Schedule.antt =====
-- What holds of every schedule of internal/fleet/run/execute.go, in whatever order targets end.
use svcdoctor.Base.{
  ℕ, zero, suc, ◌≤◌, ◌<◌, Bool, true, false, List, [], ◌∷◌, some, length, get_elem?, set, replicate,
  ◌==◌, ◌≡◌, ◌≢◌, refl, sym, ap, ◌∙◌, ◌⊎◌, inl, inr, arith, Bool-cases, length-set,
  get_elem?-set_self, get_elem?-set_ne,
}
use native.Mathlib.Decide.{ℕ_discrete}
use svcdoctor.Base.Bytes.{Bytes}
use svcdoctor.Domain.RunReport.{
  ExecutionState, not_started, state_unspecified, TargetResult, zero_target_result,
}
use svcdoctor.Fleet.Params.{Target}
use svcdoctor.Fleet.RunOne.{Answers, run_one}
use svcdoctor.Fleet.RunOne.Settled.{named}
use svcdoctor.Fleet.RunOne.Total.{Made, cancelled-done, run_one-Made}
use svcdoctor.Fleet.Execute.{
  Sched, start, among, release, Step, send, cancel, close, finish, Reach, begin, next, was_stopped,
}

-- What slot `i` holds: nothing yet, or a result of its target.
pub record Slot (done : Bool) (t : Target) (r : TargetResult) : Type 0 where
  pub id_known : r.target_id ≡ named t.id
  pub state_known : state_unspecified r.state ≡ false
  pub stopped_known : was_stopped r.state ≡ true → done ≡ true

module _ (targets : List Target) (workers : ℕ) where
  pub record Inv (s : Sched) : Type 0 where
    pub sizes : length s.results ≡ length targets
    pub sent_le : s.sent ≤ length targets
    pub bounded : length s.running ≤ workers
    pub running_sent : (i : ℕ) → among i s.running ≡ true → i < s.sent
    pub slots :
        (i : ℕ) (t : Target) (r : TargetResult)
        → get_elem? targets i ≡ some t
        → get_elem? s.results i ≡ some r
        → (r ≡ zero_target_result) ⊎ Slot s.done t r
    pub ended :
        (i : ℕ) (r : TargetResult)
        → i < s.sent
        → among i s.running ≡ false
        → get_elem? s.results i ≡ some r
        → state_unspecified r.state ≡ false
    pub closed_why : s.closed ≡ true → (s.sent ≡ length targets) ⊎ (s.done ≡ true)

length-replicate : (n : ℕ) (r : TargetResult) → length (replicate n r) ≡ n
length-replicate zero r = refl
length-replicate (suc n) r = ap suc (length-replicate n r)

get_elem?-replicate : (n i : ℕ) (x r : TargetResult) → get_elem? (replicate n x) i ≡ some r → r ≡ x
get_elem?-replicate zero i x r h = cc
get_elem?-replicate (suc n) zero x r h = cc
get_elem?-replicate (suc n) (suc i) x r h = get_elem?-replicate n i x r h

among-release : (i j : ℕ) (js : List ℕ) → i ≢ j → among j (release i js) ≡ among j js
among-release i j [] ne = refl
among-release i j (k ∷ js) ne = ground (arith, among-release i j js ne)

length-release : (i : ℕ) (js : List ℕ) → length (release i js) ≤ length js
length-release i [] = omega arith
length-release i (k ∷ js) = ground (arith, length-release i js)

among-release_le : (i j : ℕ) (js : List ℕ) → among j (release i js) ≡ true → among j js ≡ true
among-release_le i j [] h = cc
among-release_le i j (k ∷ js) h = ground (arith, among-release_le i j js)

get_elem?-lt :
    (rs : List TargetResult) (i : ℕ) {r : TargetResult} → get_elem? rs i ≡ some r → i < length rs
get_elem?-lt [] i h = cc
get_elem?-lt (x ∷ rs) zero h = omega arith
get_elem?-lt (x ∷ rs) (suc i) h = omega (arith, get_elem?-lt rs i h)

get_elem?-lt_targets :
    (ts : List Target) (i : ℕ) {t : Target} → get_elem? ts i ≡ some t → i < length ts
get_elem?-lt_targets [] i h = cc
get_elem?-lt_targets (x ∷ ts) zero h = omega arith
get_elem?-lt_targets (x ∷ ts) (suc i) h = omega (arith, get_elem?-lt_targets ts i h)

start-Inv : (targets : List Target) (workers : ℕ) → Inv targets workers (start (length targets))
unfolding start
start-Inv targets workers = record {
  sizes = length-replicate (length targets) zero_target_result;
  sent_le = omega arith;
  bounded = omega arith;
  running_sent = λ i h. absurd (cc);
  slots = λ i t r ht hr. inl (get_elem?-replicate (length targets) i zero_target_result r hr);
  ended = λ i r lt. absurd (omega arith);
  closed_why = λ h. absurd (cc);
}

Slot-done : {t : Target} {r : TargetResult} (d : Bool) → Slot d t r → Slot true t r
Slot-done d s = record {
  id_known = s.id_known;
  state_known = s.state_known;
  stopped_known = λ h. refl;
}

Made-Slot :
    (quote : Bytes → Bytes) (t : Target) (a : Answers) (done : Bool)
    → (a.done_before ≡ true → done ≡ true)
    → (a.done_after ≡ true → done ≡ true)
    → Slot done t (run_one quote t a)
Made-Slot quote t a done before after =
    let m = run_one-Made quote t a in
    record {
      id_known = m.id_known;
      state_known = m.state_known;
      stopped_known = λ h. stopped m (run_one quote t a).state refl h;
    }
  where
    stopped :
        Made quote t a (run_one quote t a)
        → (st : ExecutionState) → (run_one quote t a).state ≡ st
        → was_stopped (run_one quote t a).state ≡ true
        → done ≡ true
    stopped m not_started e h = before (m.not_started_known e)
    stopped m ExecutionState.cancelled e h = after (cancelled-done quote m e)
    stopped m ExecutionState.completed e h = absurd (ground arith)
    stopped m ExecutionState.execution_failed e h = absurd (ground arith)
    stopped m ExecutionState.unspecified e h = absurd (ground arith)

module _ (quote : Bytes → Bytes) (targets : List Target) (workers : ℕ) where
  send-Inv :
      (s : Sched)
      → s.closed ≡ false
      → s.sent < length targets
      → length s.running < workers
      → Inv targets workers s
      → Inv targets workers (record s { sent = suc s.sent; running = s.sent ∷ s.running })
  send-Inv s open_ more free inv = record {
    sizes = inv.sizes;
    sent_le = more;
    bounded = free;
    running_sent = λ i h. taken i h;
    slots = inv.slots;
    ended = λ i r lt idle hr. inv.ended i r (ground arith) (ground arith) hr;
    closed_why = λ h. absurd (cc);
  }
    where
      taken : (i : ℕ) → among i (s.sent ∷ s.running) ≡ true → i < suc s.sent
      taken i h = elim (Bool-cases (s.sent == i)) [
        | inl same ↦ ground arith
        | inr other ↦ let p = inv.running_sent i (ground arith) in omega arith
      ]

  cancel-Inv : (s : Sched) → Inv targets workers s → Inv targets workers (record s { done = true })
  cancel-Inv s inv = record {
    sizes = inv.sizes;
    sent_le = inv.sent_le;
    bounded = inv.bounded;
    running_sent = inv.running_sent;
    slots = λ i t r ht hr. later t r (inv.slots i t r ht hr);
    ended = inv.ended;
    closed_why = λ h. inr refl;
  }
    where
      later :
          (t : Target) (r : TargetResult)
          → (r ≡ zero_target_result) ⊎ Slot s.done t r
          → (r ≡ zero_target_result) ⊎ Slot true t r
      later t r (inl e) = inl e
      later t r (inr m) = inr (Slot-done s.done m)

  close-Inv :
      (s : Sched)
      → (s.sent ≡ length targets) ⊎ (s.done ≡ true)
      → Inv targets workers s
      → Inv targets workers (record s { closed = true })
  close-Inv s why inv = record {
    sizes = inv.sizes;
    sent_le = inv.sent_le;
    bounded = inv.bounded;
    running_sent = inv.running_sent;
    slots = inv.slots;
    ended = inv.ended;
    closed_why = λ h. why;
  }

  finish-Inv :
      (s : Sched) (i : ℕ) (t : Target) (a : Answers)
      → among i s.running ≡ true
      → get_elem? targets i ≡ some t
      → (a.done_before ≡ true → s.done ≡ true)
      → (a.done_after ≡ true → s.done ≡ true)
      → Inv targets workers s
      → Inv targets workers (record s {
        running = release i s.running;
        results = set s.results i (run_one quote t a);
      })
  finish-Inv s i t a busy at before after inv = record {
    sizes = length-set s.results i (run_one quote t a) ∙ inv.sizes;
    sent_le = inv.sent_le;
    bounded = omega (arith, inv.bounded, length-release i s.running);
    running_sent = λ j h. inv.running_sent j (among-release_le i j s.running h);
    slots = λ j u r hu hr. slot j u r hu hr (ℕ_discrete i j);
    ended = λ j r lt idle hr. over j r lt idle hr (ℕ_discrete i j);
    closed_why = inv.closed_why;
  }
    where
      made : Slot s.done t (run_one quote t a)
      made = Made-Slot quote t a s.done before after

      written :
          (j : ℕ) (r : TargetResult)
          → get_elem? (set s.results i (run_one quote t a)) j ≡ some r
          → i ≡ j
          → r ≡ run_one quote t a
      written j r hr e =
          let room : i < length s.results =
            omega (arith, inv.sizes, get_elem?-lt_targets targets i at) in
          let w = get_elem?-set_self s.results i (run_one quote t a) room in
          let hr' : get_elem? (set s.results i (run_one quote t a)) i ≡ some r =
            ap (get_elem? (set s.results i (run_one quote t a))) e ∙ hr in
          cc

      slot :
          (j : ℕ) (u : Target) (r : TargetResult)
          → get_elem? targets j ≡ some u
          → get_elem? (set s.results i (run_one quote t a)) j ≡ some r
          → Dec (i ≡ j)
          → (r ≡ zero_target_result) ⊎ Slot s.done u r
      slot j u r hu hr (yes e) = let same : t ≡ u = cc in inr (rw (written j r hr e, ← same) made)
      slot j u r hu hr (no ne) =
          inv.slots j u r hu (sym (get_elem?-set_ne s.results (run_one quote t a) ne) ∙ hr)

      over :
          (j : ℕ) (r : TargetResult)
          → j < s.sent
          → among j (release i s.running) ≡ false
          → get_elem? (set s.results i (run_one quote t a)) j ≡ some r
          → Dec (i ≡ j)
          → state_unspecified r.state ≡ false
      over j r lt idle hr (yes e) = rw (written j r hr e) made.state_known
      over j r lt idle hr (no ne) =
          inv.ended j r lt (sym (among-release i j s.running ne) ∙ idle)
            (sym (get_elem?-set_ne s.results (run_one quote t a) ne) ∙ hr)

  Step-Inv :
      {s u : Sched} → Step quote targets workers s u → Inv targets workers s → Inv targets workers u
  Step-Inv (send s o m f) inv = send-Inv s o m f inv
  Step-Inv (cancel s) inv = cancel-Inv s inv
  Step-Inv (close s w) inv = close-Inv s w inv
  Step-Inv (finish s i t a b at p q) inv = finish-Inv s i t a b at p q inv

  -- In every state of every schedule there is one slot for each target and at most `workers`
  -- targets run, each of them sent; each slot is empty or holds a result of its own target, which
  -- says not started or cancelled only if the context is done; a slot whose target was sent and
  -- runs no more is not empty; and the dispatcher has stopped only if every target was sent or
  -- the context is done.
  pub Reach-Inv : {s : Sched} → Reach quote targets workers s → Inv targets workers s
  Reach-Inv begin = start-Inv targets workers
  Reach-Inv (next r st) = Step-Inv st (Reach-Inv r)
