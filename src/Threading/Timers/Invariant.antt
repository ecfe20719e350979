-- ===== src/Threading/Timers/Invariant.antt =====
-- threading/TimerScheduler.cpp: what holds between the list, the table and the timers.
use linux_stage_asio.Prelude.{
  ℕ, ◌<◌, ◌≡◌, refl, ap, subst, ◌∙◌, ◌≢◌, inl, inr, true, false, none, some, List, [], arith, ◌==◌,
  ==_iff, Bool-cases,
}
use linux_stage_asio.Prelude.Sets.{member, All_of_not_member}
use linux_stage_asio.Core.LinkedList.{Pointer, LinkedList}
use linux_stage_asio.Core.LinkedList.Links.{Absent, Represents, Links-frame, All-map}
use linux_stage_asio.Threading.Timers.{Timer, Scheduler, fresh, set_timer, with_timer, blank}

-- A timer that may run.
pub record IsSound (t : Timer) : Type 0 where
  pub attached : t.attached ≡ true
  pub not_disposed : t.disposed ≡ false
  pub period : 0 < t.interval

-- The timers of `xs`, in this order, are those that run.
pub record Scheduled (s : Scheduler) (xs : List ℕ) : Type 0 where
  pub alive : s.disposed ≡ false
  pub linked : Represents s.linked_list xs
  pub watched : (t : ℕ) → member s.table t ≡ member xs t
  pub enabled : (t : ℕ) → (s.timers t).enabled ≡ member xs t
  pub sound : (t : ℕ) → member xs t ≡ true → IsSound (s.timers t)
  pub valued : (t : ℕ) → member xs t ≡ true → (s.linked_list.nodes t).value ≡ some t
  pub standing : (t : ℕ) → s.current ≡ some t → member xs t ≡ true
  pub period : (t : ℕ) → member xs t ≡ true → 0 < s.min_period

abbrev pub IsScheduled : Scheduler → Type 0
IsScheduled s = (xs : List ℕ) × Scheduled s xs

pub fresh-Scheduled : Scheduled fresh []
fresh-Scheduled = record {
  alive = refl;
  linked = record { front = refl; back = refl; counted = refl; distinct = tt; chain = tt };
  watched = λ t. refl;
  enabled = λ t. refl;
  sound = λ t h. absurd (ground arith);
  valued = λ t h. absurd (ground arith);
  standing = λ t h. absurd (ground arith);
  period = λ t h. absurd (ground arith);
}

-- To speak of every timer behind an assignment to one of them.
pub set_timer-elim {ℓ} :
    (P : ℕ → Timer → Type ℓ) (timers : ℕ → Timer) (t : ℕ) (v : Timer)
    → P t v
    → ((u : ℕ) → t ≢ u → P u (timers u))
    → (u : ℕ) → P u (set_timer timers t v u)
set_timer-elim P timers t v here there u = elim (Bool-cases (t == u)) [
  | inl same ↦ rw same (subst (λ w. P w v) ((==_iff t u).0 same) here)
  | inr other ↦ rw other (there u (ne_of_test t u other))
]
  where
    ne_of_test : (t u : ℕ) → (t == u) ≡ false → t ≢ u
    ne_of_test t u h = ground arith

-- A timer that stays as it was in what the invariant reads.
pub Scheduled-with_timer :
    (s : Scheduler) (xs : List ℕ) (t : ℕ) (v : Timer)
    → Scheduled s xs
    → v.enabled ≡ member xs t
    → (member xs t ≡ true → IsSound v)
    → Scheduled (with_timer s t v) xs
Scheduled-with_timer s xs t v h e sound = record {
  alive = h.alive;
  linked = h.linked;
  watched = h.watched;
  enabled = set_timer-elim (λ u w. w.enabled ≡ member xs u) s.timers t v e (λ u ne. h.enabled u);
  sound =
      set_timer-elim (λ u w. member xs u ≡ true → IsSound w) s.timers t v sound (λ u ne. h.sound u);
  valued = h.valued;
  standing = h.standing;
  period = h.period;
}

-- The node block of a timer that does not run is free to change.
pub Represents-blank :
    (l : LinkedList) (xs : List ℕ) (t : ℕ) (value : Pointer)
    → Represents l xs
    → Absent t xs
    → Represents (blank l t value) xs
Represents-blank l xs t value r out = record {
  front = r.front;
  back = r.back;
  counted = r.counted;
  distinct = r.distinct;
  chain =
      Links-frame l.nodes (blank l t value).nodes none xs none r.chain
        (All-map xs (λ y h. ground arith) out);
}

pub blank_value :
    (l : LinkedList) (xs : List ℕ) (t u : ℕ) (value : Pointer)
    → member xs t ≡ false
    → member xs u ≡ true
    → ((blank l t value).nodes u).value ≡ (l.nodes u).value
blank_value l xs t u value out m = elim (Bool-cases (t == u)) [
  | inl same ↦ cc (ap (member xs) ((==_iff t u).0 same))
  | inr other ↦ rw other
]

pub Scheduled-blank :
    (s : Scheduler) (xs : List ℕ) (t : ℕ) (value : Pointer)
    → Scheduled s xs
    → member xs t ≡ false
    → Scheduled (record s { linked_list = blank s.linked_list t value }) xs
Scheduled-blank s xs t value h out = record {
  alive = h.alive;
  linked = Represents-blank s.linked_list xs t value h.linked (All_of_not_member xs t out);
  watched = h.watched;
  enabled = h.enabled;
  sound = h.sound;
  valued = λ u m. blank_value s.linked_list xs t u value out m ∙ h.valued u m;
  standing = h.standing;
  period = h.period;
}
